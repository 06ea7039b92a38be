-- ===== src/Tar/Archive/Delivery.antt =====
-- Without filters every member of an archive with the type `REGTYPE` goes out, and no other content.
use qubes_core_agent_linux.Base.{
  ℕ, ◌+◌, ◌<◌, ◌≡◌, refl, sym, ap, ◌∙◌, true, false, Bool-cases, inl, inr, List, [], ◌∷◌, ◌++◌,
  append_assoc, length, All, ◌==◌, Bytes, if◌then◌else◌,
}
use qubes_core_agent_linux.Tar.Header.{typeflag, first_byte}
use qubes_core_agent_linux.Tar.Filter.{Filters, apply_filters}
use qubes_core_agent_linux.Tar.Source.{
  copy_file_ok, copy_file_write_error, other, Source, IsStream, PipeOrFile, HasMemory,
}
use qubes_core_agent_linux.Tar.Machine.{
  FileHeader, Call, write_headers, content, set_block, wait_for_result, gui_fatal, perror,
  pack_init, set_ignore_quota_error, set_nonblock, open_error, no_input, notify_end, State, done,
}
use qubes_core_agent_linux.Tar.Directory.Ordering.{parents}
use qubes_core_agent_linux.Tar.Directory.{dir_found}
use qubes_core_agent_linux.Tar.Processor.{tar_file_processor}
use qubes_core_agent_linux.Tar.Archive.{
  Member, IsMember, encode, empty_blocks, Seen, skipped, extracted, table, fresh, fresh_call,
  note_dir, file_calls, name_of, header_of, regular, outcome, sent,
}
use qubes_core_agent_linux.Tar.Archive.Entry.{HasRoom}
use qubes_core_agent_linux.Tar.Archive.Round.{seen}
use qubes_core_agent_linux.Tar.Archive.Extraction.{tar_file_processor-sent}

-- The type '0', which is `REGTYPE`; a member with the old type of a NUL, `AREGTYPE`, is not meant.
abbrev pub IsRegtype : Member → Type 0
IsRegtype m = (first_byte typeflag m.block == b'0') ≡ true

-- The contents in an archive of the members with that type.
unfoldable pub contents_of : List Member → List Bytes
contents_of [] = []
contents_of (m ∷ ms) =
    let rest = contents_of ms in
    if first_byte typeflag m.block == b'0' then m.content ∷ rest else rest

-- The contents that went out whole.
unfoldable pub delivered : List Call → List Bytes
delivered [] = []
delivered (content copy_file_ok bytes ∷ calls) = bytes ∷ delivered calls
delivered (_ ∷ calls) = delivered calls

delivered-append :
    (calls more : List Call) → delivered (calls ++ more) ≡ delivered calls ++ delivered more
unfolding delivered
delivered-append [] more = refl
delivered-append (content copy_file_ok bytes ∷ calls) more =
    ap (λ d. bytes ∷ d) (delivered-append calls more)
delivered-append (content copy_file_write_error _ ∷ calls) more = delivered-append calls more
delivered-append (content (other _) _ ∷ calls) more = delivered-append calls more
delivered-append (write_headers _ _ ∷ calls) more = delivered-append calls more
delivered-append (set_block ∷ calls) more = delivered-append calls more
delivered-append (wait_for_result ∷ calls) more = delivered-append calls more
delivered-append (gui_fatal _ _ ∷ calls) more = delivered-append calls more
delivered-append (perror ∷ calls) more = delivered-append calls more
delivered-append (pack_init ∷ calls) more = delivered-append calls more
delivered-append (set_ignore_quota_error _ ∷ calls) more = delivered-append calls more
delivered-append (set_nonblock _ ∷ calls) more = delivered-append calls more
delivered-append (open_error _ ∷ calls) more = delivered-append calls more
delivered-append (no_input ∷ calls) more = delivered-append calls more
delivered-append (notify_end ∷ calls) more = delivered-append calls more

-- Directories have no content.
delivered-fresh : (h : FileHeader) (dirs paths : List Bytes) → delivered (fresh h dirs paths) ≡ []
unfolding fresh fresh_call delivered
delivered-fresh h dirs [] = refl
delivered-fresh h dirs (path ∷ paths) = elim (Bool-cases (dir_found dirs path)) [
  | inl old ↦ rw (fresh, fresh_call, old) (delivered-fresh h (note_dir dirs path) paths)
  | inr new ↦ rw (fresh, fresh_call, new) (delivered-fresh h (note_dir dirs path) paths)
]

abbrev Unfiltered : Seen → Type 0
Unfiltered v = v.filters.filters ≡ []

-- Some calls, with these in one piece among them.
abbrev pub Among : List Call → List Call → Type 0
Among some_calls calls =
    (before : List Call) × (after : List Call) × (calls ≡ before ++ (some_calls ++ after))

Among-append :
    (some_calls before calls : List Call)
    → Among some_calls calls
    → Among some_calls (before ++ calls)
Among-append some_calls before calls (b, a, e) =
    (before ++ b, a, ap (λ c. before ++ c) e ∙ sym (append_assoc before b (some_calls ++ a)))

no_filter :
    (name : Bytes) (fs : Filters)
    → fs.filters ≡ []
    → apply_filters name fs ≡ record { should_extract = true; after = fs }
unfolding apply_filters
no_filter name fs none = simp (apply_filters, none) refl

-- The file, behind the directories that are new.
outcome_regular :
    (v : Seen) (m : Member)
    → Unfiltered v
    → IsRegtype m
    → outcome v m
      ≡ extracted
          (record { dirs = table v.dirs (parents (name_of m)); filters = v.filters })
          (fresh (header_of m) v.dirs (parents (name_of m))
            ++ file_calls (header_of m) (name_of m) m.content)
unfolding outcome regular
outcome_regular v m none file = rw (outcome, file, regular, no_filter (name_of m) v.filters none)

outcome_other :
    (v : Seen) (m : Member)
    → (first_byte typeflag m.block == b'0') ≡ false
    → outcome v m ≡ skipped v
unfolding outcome
outcome_other v m differs = rw (outcome, differs)

sent-Among :
    (earlier : List Member) (m : Member) (later : List Member) (v : Seen)
    → Unfiltered v
    → IsRegtype m
    → Among (file_calls (header_of m) (name_of m) m.content) (sent v (earlier ++ (m ∷ later)))
unfolding sent
sent-Among [] m later v none file =
    let dirs = fresh (header_of m) v.dirs (parents (name_of m)) in
    rw (sent, outcome_regular v m none file) (dirs, sent _ later, append_assoc dirs _ _)
sent-Among (n ∷ earlier) m later v none file =
    elim (Bool-cases (first_byte typeflag n.block == b'0')) [
      | inl regular ↦
          let v' : Seen = record {
            dirs = table v.dirs (parents (name_of n));
            filters = v.filters;
          } in
          rw (sent, outcome_regular v n none regular)
            (Among-append (file_calls (header_of m) (name_of m) m.content) _ _
              (sent-Among earlier m later v' none file))
      | inr differs ↦ rw (sent, outcome_other v n differs) (sent-Among earlier m later v none file)
    ]

delivered-sent :
    (ms : List Member) (v : Seen) → Unfiltered v → delivered (sent v ms) ≡ contents_of ms
unfolding sent contents_of delivered
delivered-sent [] v none = refl
delivered-sent (m ∷ ms) v none = elim (Bool-cases (first_byte typeflag m.block == b'0')) [
  | inl file ↦
      let dirs = fresh (header_of m) v.dirs (parents (name_of m)) in
      let v' : Seen = record { dirs = table v.dirs (parents (name_of m)); filters = v.filters } in
      let body = file_calls (header_of m) (name_of m) m.content in
      let split =
        delivered-append (dirs ++ body) (sent v' ms)
        ∙ ap (λ d. d ++ delivered (sent v' ms))
            (delivered-append dirs body
              ∙ ap (λ d. d ++ delivered body)
                  (delivered-fresh (header_of m) v.dirs (parents (name_of m)))) in
      rw (sent, outcome_regular v m none file, contents_of, file)
        (split ∙ ap (λ d. m.content ∷ d) (delivered-sent ms v' none))
  | inr differs ↦
      rw (sent, outcome_other v m differs, contents_of, differs) (delivered-sent ms v none)
]

-- Every member of an archive with the type '0' (`REGTYPE`), wherever it stands in it, is sent where
-- there are no filters: the headers are accepted, hold their names within their fields and give the
-- sizes of the contents, the input is a pipe or a file, there is memory for every request, there
-- are more rounds than members and empty blocks, and the run begins with room for the names in the
-- buffer and with a table of directories that is not lost. Then the run returns, among its calls are the header
-- of that member, with its whole name, and right behind it its whole content; and the contents that
-- went out are just those of the members with that type, each once and in the order of the archive.
-- Members of all other types, `AREGTYPE` too, are left out.
pub tar_file_processor-Among :
    {S : Source} (L : IsStream S) (seek : PipeOrFile S L) (memory : HasMemory S)
    (earlier : List Member) (m : Member) (later : List Member) (blocks fuel : ℕ) (s : State S)
    → All IsMember (earlier ++ (m ∷ later))
    → HasRoom s
    → s.filters.filters ≡ []
    → L.input s.world ≡ encode (earlier ++ (m ∷ later)) (empty_blocks blocks)
    → length (earlier ++ (m ∷ later)) + blocks < fuel
    → IsRegtype m
    → (t : State S) × (tar_file_processor fuel s ≡ done tt t)
      × Among (file_calls (header_of m) (name_of m) m.content) t.calls
      × (delivered t.calls ≡ delivered s.calls ++ contents_of (earlier ++ (m ∷ later)))
tar_file_processor-Among L seek memory earlier m later blocks fuel s members room none input enough
      file =
    let (t, e, sends) =
      tar_file_processor-sent L seek memory (earlier ++ (m ∷ later)) blocks fuel s members room
        input enough in
    let (before, after, here) =
      Among-append (file_calls (header_of m) (name_of m) m.content) s.calls _
        (sent-Among earlier m later (seen s) none file) in
    let all = earlier ++ (m ∷ later) in
    let bodies =
      ap delivered sends
      ∙ delivered-append s.calls (sent (seen s) all)
      ∙ ap (λ d. delivered s.calls ++ d) (delivered-sent all (seen s) none) in
    (t, e, (before, after, sends ∙ here), bodies)
