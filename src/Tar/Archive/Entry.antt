-- ===== src/Tar/Archive/Entry.antt =====
-- What `ustar_rd` comes to on the header of a member: a skip, or the directories, the header and the
-- content of a file.
use qubes_core_agent_linux.Base.{
  ℕ, ◌^◌, ◌≤◌, ◌<◌, ◌≡◌, ap, ◌∙◌, true, false, not, ◌++◌, append_assoc, none, arith, length,
  replicate, ◌==◌, Bytes, c_str, if◌then◌else◌,
}
use qubes_core_agent_linux.Tar.Header.{typeflag, first_byte}
use qubes_core_agent_linux.Tar.Name.{assemble_name}
use qubes_core_agent_linux.Tar.Name.Clean.{assemble_name-full_name}
use qubes_core_agent_linux.Tar.Filter.{Decision, apply_filters}
use qubes_core_agent_linux.Tar.Filter.Text.{apply_filters-c_str}
use qubes_core_agent_linux.Tar.Source.{Source, IsStream, HasMemory}
use qubes_core_agent_linux.Tar.Machine.{State, done, allocate}
use qubes_core_agent_linux.Tar.Directory.{strtok_all, send_directories}
use qubes_core_agent_linux.Tar.Directory.Ordering.{parents}
use qubes_core_agent_linux.Tar.Entry.{
  need_skip, need_skip_file, need_sync_trail, type_flag, read_header, read_fields, wanted,
  send_file, extract_file, read_regular, by_type, ustar_rd,
}
use qubes_core_agent_linux.Tar.Archive.{
  Member, IsMember, padding, table, fresh, with_type, file_calls, name_of, header_of,
}
use qubes_core_agent_linux.Tar.Archive.Reaches.{bind_done, Reaches, Reaches-bind, allocate-Reaches}
use qubes_core_agent_linux.Tar.Archive.Directories.{behind, send_directories-Reaches}
use qubes_core_agent_linux.Tar.Archive.Content.{send_file-Reaches}

by_type_other :
    {S : Source} (c : ℕ) (s : State S)
    → (c == b'0') ≡ false
    → by_type (type_flag c) s ≡ done need_skip s
unfolding by_type type_flag
by_type_other c s h = ground arith

by_type_regular :
    {S : Source} (c : ℕ) (s : State S)
    → (c == b'0') ≡ true
    → by_type (type_flag c) s ≡ read_regular s
unfolding by_type type_flag
by_type_regular c s h = ground arith

-- A state in which the names of members fit the buffer, and no allocation for the table of directories
-- has failed.
pub record HasRoom {S : Source} (s : State S) : Type 0 where
  pub no_hack : s.gnu_hack_string ≡ none
  pub wide : 257 ≤ length s.untrusted_namebuf
  pub small : length s.untrusted_namebuf < 2 ^ 64
  pub intact : s.dirs_lost ≡ false

-- The state behind the fields of a header.
abbrev pub opened : {S : Source} → State S → Member → Bytes → State S
opened s m namebuf = record s {
  untrusted_namebuf = namebuf;
  gnu_hack_string = none;
  hdr = header_of m;
}

-- The name buffer behind a header.
pub record Names {S : Source} (s : State S) (m : Member) (namebuf : Bytes) : Type 0 where
  pub name : c_str namebuf ≡ name_of m
  pub same_size : length namebuf ≡ length s.untrusted_namebuf
  pub fields : read_fields m.block s ≡ done tt (opened s m namebuf)

pub read_fields-Names :
    {S : Source} (m : Member) (s : State S)
    → IsMember m
    → HasRoom s
    → (namebuf : Bytes) × Names s m namebuf
unfolding read_fields
read_fields-Names m s member room =
    let (r, e, name, len, size) =
      assemble_name-full_name m.block s.untrusted_namebuf member.clean room.wide room.small in
    (
      r.namebuf,
      record {
        name = name;
        same_size = size;
        fields =
            let found = ap (λ g. assemble_name m.block g s.untrusted_namebuf) room.no_hack ∙ e in
            rw (read_fields, found)
              (ap (λ n. done tt (record (opened s m r.namebuf) { hdr = read_header m.block n }))
                len);
      },
    )

-- A member of another type is skipped.
pub ustar_rd_other :
    {S : Source} (m : Member) (s : State S) (namebuf : Bytes)
    → IsMember m
    → Names s m namebuf
    → (first_byte typeflag m.block == b'0') ≡ false
    → ustar_rd m.block s ≡ done need_skip (opened s m namebuf)
unfolding ustar_rd
ustar_rd_other m s namebuf member names other =
    rw member.valid (bind_done (read_fields m.block) _ s names.fields ∙ by_type_other _ _ other)

-- What the filters decide on the name of a member.
abbrev pub decision : {S : Source} → State S → Member → Decision
decision s m = apply_filters (name_of m) s.filters

wanted_lem :
    {S : Source} (m : Member) (s : State S) (namebuf : Bytes)
    → Names s m namebuf
    → wanted (opened s m namebuf)
      ≡ done
          (decision s m).should_extract
          (record (opened s m namebuf) { filters = (decision s m).after })
unfolding wanted
wanted_lem m s namebuf names =
    ap (λ (d : Decision). done d.should_extract (record (opened s m namebuf) { filters = d.after }))
      (apply_filters-c_str namebuf s.filters ∙ ap (λ n. apply_filters n s.filters) names.name)

-- The run up to the decision.
pub ustar_rd-regular :
    {S : Source} (m : Member) (s : State S) (namebuf : Bytes)
    → IsMember m
    → Names s m namebuf
    → (first_byte typeflag m.block == b'0') ≡ true
    → ustar_rd m.block s ≡ (
        if not (decision s m).should_extract
        then done need_skip_file (record (opened s m namebuf) { filters = (decision s m).after })
        else extract_file (record (opened s m namebuf) { filters = (decision s m).after }))
unfolding ustar_rd read_regular
ustar_rd-regular m s namebuf member names regular = rw member.valid (
    bind_done (read_fields m.block) _ s names.fields
    ∙ by_type_regular _ _ regular
    ∙ bind_done wanted (λ extract t. if not extract then done need_skip_file t else extract_file t)
        (opened s m namebuf) (wanted_lem m s namebuf names))

-- The directories, the header and the content, for the name that the buffer holds.
pub extract_file-Reaches :
    {S : Source} (L : IsStream S) (memory : HasMemory S) (bytes rest : Bytes) (s : State S)
    → L.input s.world ≡ bytes ++ (replicate (padding (length bytes)) 0 ++ rest)
    → s.hdr.filelen ≡ length bytes
    → s.dirs_lost ≡ false
    → let name = c_str s.untrusted_namebuf in
      Reaches L (extract_file s) need_sync_trail rest (λ w. record s {
        world = w;
        hdr = with_type s.hdr;
        dirs_headers_sent = table s.dirs_headers_sent (parents name);
        calls =
            s.calls
            ++ (fresh s.hdr s.dirs_headers_sent (parents name) ++ file_calls s.hdr name bytes);
      })
unfolding extract_file
extract_file-Reaches L memory bytes rest s input size intact =
    let name = c_str s.untrusted_namebuf in
    let dirs = table s.dirs_headers_sent (parents name) in
    let first = fresh s.hdr s.dirs_headers_sent (parents name) in
    Reaches-bind L (allocate s.hdr.namelen) _ s tt need_sync_trail _ _ _ _
      (allocate-Reaches L memory _ s)
      λ w i.
        Reaches-bind L (send_directories s.hdr (strtok_all name)) _ _ tt need_sync_trail _ _ _ _
          (send_directories-Reaches L memory s.hdr name (record s { world = w }) intact)
          λ w' i'.
            Reaches-bind L send_file _ _ tt need_sync_trail _ _ _ _
              (send_file-Reaches L bytes rest (behind s dirs first w') (i' ∙ i ∙ input) size)
              λ w'' i''. (
                w'',
                i'',
                ap
                    (λ c. done need_sync_trail (record s {
                      world = w'';
                      hdr = with_type s.hdr;
                      dirs_headers_sent = dirs;
                      calls = c;
                    }))
                    (append_assoc s.calls first (file_calls s.hdr name bytes)),
              )
