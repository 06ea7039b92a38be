-- ===== src/Tar/Main/Sent.antt =====
-- Whole runs of the program over an archive: which input it is, which filters are in force, and what
-- goes out.
use mathlib.Core.List
use qubes_core_agent_linux.Base.{
  ℕ, ◌+◌, ◌<◌, ◌≡◌, refl, sym, ap, ◌∙◌, Bool, true, false, List, [], ◌∷◌, ◌++◌, append_assoc,
  append-nil, Option, none, some, length, drop, All, Bytes, codes, strcmp_eq, if◌then◌else◌, ◌*◌,
}
use qubes_core_agent_linux.Tar.Filter.{Filter, Filters}
use qubes_core_agent_linux.Tar.Source.{Source, IsStream, PipeOrFile, HasMemory}
use qubes_core_agent_linux.Tar.Machine.{
  Call, pack_init, set_ignore_quota_error, set_nonblock, notify_end, set_block, State, done, pure,
  ◌>>=◌, ◌>>◌, call,
}
use qubes_core_agent_linux.Tar.Processor.{tar_file_processor}
use qubes_core_agent_linux.Tar.Archive.{Member, IsMember, encode, empty_blocks, sent}
use qubes_core_agent_linux.Tar.Archive.Reaches.{bind_done}
use qubes_core_agent_linux.Tar.Archive.Entry.{HasRoom}
use qubes_core_agent_linux.Tar.Archive.Extraction.{tar_file_processor-sent}
use qubes_core_agent_linux.Tar.Main.{
  to_filters, Input, Files, filters_of, open_input, choose_input, make_filters, use_input, process,
  main,
}

-- The file that the arguments name, or `none` for the standard input.
unfoldable pub named_file : List Bytes → Option Bytes
named_file (program ∷ (entry ∷ args)) = if strcmp_eq entry (codes "-") then none else some entry
named_file _ = none

-- The filters behind the first argument, none of which has matched anything.
unfoldable pub requested : List Bytes → List Bytes
requested (program ∷ (entry ∷ texts)) = texts
requested _ = []

abbrev pub unmatched : Bytes → Filter
unmatched text = record { text = text; matches = 0 }

abbrev pub fresh_filters : List Bytes → Filters
fresh_filters texts = record { filters = List.map unmatched texts; matched_filters = 0 }

to_filters-map : (texts : List Bytes) → to_filters texts ≡ List.map unmatched texts
to_filters-map [] = refl
to_filters-map (t ∷ texts) = ap (◌∷◌ (unmatched t)) (to_filters-map texts)

filters_of-requested : (argv : List Bytes) → filters_of argv ≡ fresh_filters (requested argv)
unfolding requested drop
filters_of-requested [] = refl
filters_of-requested (program ∷ []) = refl
filters_of-requested (program ∷ (entry ∷ texts)) =
    ap (λ l. record { filters = l; matched_filters = 0 }) (to_filters-map texts)

-- The calls before the first block is read.
abbrev pub prologue : Option Bytes → List Call
prologue (some name) = pack_init ∷ (set_ignore_quota_error true ∷ (set_nonblock 0 ∷ []))
prologue none = pack_init ∷ (set_ignore_quota_error true ∷ (set_nonblock 0 ∷ (set_block ∷ [])))

-- What is known of files: the rest of the bytes behind a descriptor, which an allocation leaves as it
-- is, and which is read once the descriptor is the input.
pub record IsFiles (S : Source) (L : IsStream S) (F : Files S) : Type 0 where
  pub contents : ℕ → S.World → Bytes
  pub input-read_from : (fd : ℕ) (w : S.World) → L.input (F.read_from fd w) ≡ contents fd w
  pub contents-malloc : (fd n : ℕ) (w : S.World) → contents fd (S.malloc n w).1 ≡ contents fd w

module _ {S : Source} (L : IsStream S) (F : Files S) (files : IsFiles S L F) where
  -- The descriptor that the input is to be read from, and the world behind its opening.
  abbrev pub Opens : Option Bytes → S.World → ℕ → S.World → Type 0
  Opens none w fd w' = (fd ≡ 0) × (w' ≡ w)
  Opens (some name) w fd w' = F.open_file name w ≡ (some fd, w')

  abbrev input_of : Option Bytes → ℕ → Input
  input_of none fd = record { fd = none; use_stdin = true }
  input_of (some name) fd = record { fd = some fd; use_stdin = false }

  abbrev opening : Option Bytes → List Call
  opening none = set_block ∷ []
  opening (some name) = []

  at_stdin :
      (s : State S) (fd : ℕ) (w : S.World)
      → Opens none s.world fd w
      → done (input_of none fd) s ≡ done (input_of none fd) (record s { world = w })
  at_stdin s fd w h = ap (λ v. done (input_of none fd) (record s { world = v })) (sym h.1)

  choose_input-Opens :
      (argv : List Bytes) (s : State S) (fd : ℕ) (w : S.World)
      → Opens (named_file argv) s.world fd w
      → choose_input F argv s ≡ done (input_of (named_file argv) fd) (record s { world = w })
  unfolding choose_input named_file open_input
  choose_input-Opens [] s fd w h = at_stdin s fd w h
  choose_input-Opens (program ∷ []) s fd w h = at_stdin s fd w h
  choose_input-Opens (program ∷ (entry ∷ args)) s fd w h = go (strcmp_eq entry (codes "-")) h
    where
      go :
          (b : Bool)
          → Opens (if b then none else some entry) s.world fd w
          → (if b then done (record { fd = none; use_stdin = true }) s else open_input F entry s)
            ≡ done (input_of (if b then none else some entry) fd) (record s { world = w })
      go true h = at_stdin s fd w h
      go false h = rw (
        open_input,
        ap (λ (r : Option ℕ × S.World). r.0) h,
        ap (λ (r : Option ℕ × S.World). r.1) h,
      )

  use_input-opening :
      (name : Option Bytes) (s : State S) (fd : ℕ) (w w' : S.World)
      → Opens name w fd w'
      → use_input F (input_of name fd) s
        ≡ done (some fd) (record s { calls = s.calls ++ opening name })
  unfolding use_input
  use_input-opening none s fd w w' h =
      ap (λ n. done (some n) (record s { calls = s.calls ++ (set_block ∷ []) })) (sym h.0)
  use_input-opening (some name) s fd w w' h =
      ap (λ c. done (some fd) (record s { calls = c })) (sym (append-nil s.calls))

  prologue_lem :
      (name : Option Bytes) (calls : List Call)
      → (((calls ++ (pack_init ∷ [])) ++ (set_ignore_quota_error true ∷ []))
            ++ (set_nonblock 0 ∷ []))
          ++ opening name
        ≡ calls ++ prologue name
  prologue_lem none calls = simp append_assoc refl
  prologue_lem (some name) calls = simp append_assoc refl

  last_call :
      (calls before out : List Call)
      → ((calls ++ before) ++ out) ++ (notify_end ∷ [])
        ≡ calls ++ (before ++ (out ++ (notify_end ∷ [])))
  last_call calls before out = simp append_assoc refl

  module _ (seek : PipeOrFile S L) (memory : HasMemory S) where
    -- For every archive of members whose headers are accepted, hold their names within their fields
    -- and give the sizes of the contents, in the file that the first argument names, or at the
    -- standard input where there is no argument or it is `-`: where the file can be opened, the input
    -- is a pipe or a file, there is memory for every request, there are more rounds than members and
    -- empty blocks, and the program begins with room for the names in the buffer and with a table of
    -- directories that is not lost, the program returns with status 0. It has then set up the library,
    -- made the standard input block if it reads that, sent what the abstract view says for the filters
    -- behind the first argument, and told the end of the stream, in this order, and sent and reported
    -- nothing else.
    pub main-sent :
        (argv : List Bytes) (ms : List Member) (blocks fuel : ℕ) (s : State S) (fd : ℕ)
        (w : S.World)
        → All IsMember ms
        → HasRoom s
        → Opens (named_file argv) s.world fd w
        → files.contents fd w ≡ encode ms (empty_blocks blocks)
        → length ms + blocks < fuel
        → (t : State S) × (main F fuel argv s ≡ done 0 t)
          × (t.calls
              ≡ s.calls
                ++ (prologue (named_file argv)
                    ++ (sent
                          (record {
                            dirs = s.dirs_headers_sent;
                            filters = fresh_filters (requested argv);
                          })
                          ms
                        ++ (notify_end ∷ []))))
    unfolding main make_filters process
    main-sent argv ms blocks fuel s fd w members room opens input enough =
        let s₁ : State S = record s {
          calls =
              ((s.calls ++ (pack_init ∷ [])) ++ (set_ignore_quota_error true ∷ []))
              ++ (set_nonblock 0 ∷ []);
        } in
        let n = length (filters_of argv).filters * 4 in
        let s₂ : State S = record s₁ { world = w } in
        let s₃ : State S = record s₁ { world = (S.malloc n w).1; filters = filters_of argv } in
        let s₄ : State S = record s₃ { calls = s₁.calls ++ opening (named_file argv) } in
        let out =
          sent (record { dirs = s.dirs_headers_sent; filters = fresh_filters (requested argv) })
            ms in
        let s₅ : State S = record s₄ { world = F.read_from fd s₄.world } in
        let room' : HasRoom s₅ = record {
          no_hack = room.no_hack;
          wide = room.wide;
          small = room.small;
          intact = room.intact;
        } in
        let here : L.input s₅.world ≡ encode ms (empty_blocks blocks) =
          files.input-read_from fd s₄.world ∙ files.contents-malloc fd n w ∙ input in
        let (u, e, sends) =
          tar_file_processor-sent L seek memory ms blocks fuel s₅ members room' here enough in
        let made : make_filters F argv s₂ ≡ done tt s₃ =
          rw (make_filters, memory.malloc_succeeds n w) in
        (
          record u { calls = u.calls ++ (notify_end ∷ []) },
          bind_done (choose_input F argv)
                (λ i. make_filters F argv >> (use_input F i >>= process F fuel)) s₁
                (choose_input-Opens argv s₁ fd w opens)
              ∙ bind_done (make_filters F argv)
                  (λ _. use_input F (input_of (named_file argv) fd) >>= process F fuel) s₂ made
              ∙ bind_done (use_input F (input_of (named_file argv) fd)) (process F fuel) s₃
                  (use_input-opening (named_file argv) s₃ fd _ _ opens)
              ∙ bind_done (tar_file_processor fuel) (λ _. call notify_end >> pure 0) s₅ e,
          ap (λ c. c ++ (notify_end ∷ []))
                (sends
                  ∙ ap
                      (λ f.
                        s₄.calls ++ sent (record { dirs = s.dirs_headers_sent; filters = f }) ms)
                      (filters_of-requested argv)
                  ∙ ap (λ c. c ++ out) (prologue_lem (named_file argv) s.calls))
              ∙ last_call s.calls (prologue (named_file argv)) out,
        )
