-- ===== src/Tar/Directory.antt =====
-- The part of `ustar_rd` of qubes-rpc/tar2qfile.c that sends a header for every directory on the way
-- to a file, once.
pub mod Ordering
pub mod Mode
pub mod Announced
pub mod Parts
use qubes_core_agent_linux.Base.{
  ℕ, ◌+◌, ◌*◌, Bool, true, false, ◌||◌, List, [], ◌∷◌, ◌++◌, Option, none, some, length, ◌==◌,
  bit_or, Bytes, strcmp_eq, if◌then◌else◌,
}
use qubes_core_agent_linux.Tar.Source.{Source}
use qubes_core_agent_linux.Tar.Machine.{
  FileHeader, write_headers, done, no_memory, fault, M, pure, ◌>>◌, call, allocate,
}

-- `strtok` over a whole string with the delimiter "/": the parts between slashes that are not empty.
-- `token` is what was read of the next one.
unfoldable pub strtok_from : Bytes → Bytes → List Bytes
strtok_from [] [] = []
strtok_from (a ∷ token) [] = (a ∷ token) ∷ []
strtok_from [] (c ∷ s) =
    let skip = strtok_from [] s in
    let take = strtok_from (c ∷ []) s in if c == b'/' then skip else take
strtok_from (a ∷ token) (c ∷ s) =
    let next = strtok_from [] s in
    let longer = strtok_from (a ∷ (token ++ (c ∷ []))) s in
    if c == b'/' then (a ∷ token) ∷ next else longer

abbrev pub strtok_all : Bytes → List Bytes
strtok_all = strtok_from []

abbrev pub s_ifdir : ℕ
s_ifdir = 0x4000

-- `dir_found`: some entry of the table is the path.
unfoldable pub dir_found : List Bytes → Bytes → Bool
dir_found [] path = false
dir_found (d ∷ dirs) path = strcmp_eq d path || dir_found dirs path

-- `path` with the last directory put behind it; `none` is NULL.
unfoldable pub extend_path : Option Bytes → Bytes → Bytes
extend_path none last_token = last_token
extend_path (some path) last_token = path ++ (b'/' ∷ last_token)

-- `dir_header`
abbrev pub dir_header : FileHeader → Bytes → FileHeader
dir_header h path = record {
  namelen = length path + 1;
  mode = bit_or h.mode s_ifdir;
  filelen = 0;
  atime = h.atime;
  atime_nsec = h.atime_nsec;
  mtime = h.mtime;
  mtime_nsec = h.mtime_nsec;
}

module _ {S : Source} where
  -- The new last entry.
  abbrev note : Bytes → M S (Unit {0})
  note path s = done tt (record s { dirs_headers_sent = s.dirs_headers_sent ++ (path ∷ []) })

  -- `realloc` of the table or `malloc` of its last entry, with `n_dirs` already counted up.
  unfoldable pub grow : ℕ → M S (Unit {0})
  grow n s =
      let (enough, w) = S.malloc n s.world in
      if enough
      then done tt (record s { world = w })
      else no_memory (record s { world = w; dirs_lost = true })

  -- Register a path that is new, and send its header. A pointer has eight bytes. Where there is no
  -- memory for the table, it is lost.
  unfoldable pub register : FileHeader → Bytes → M S (Unit {0})
  register h path s =
      (do
        grow (8 * (length s.dirs_headers_sent + 1))
        grow (length path + 1)
        note path
        call (write_headers (dir_header h path) path))
        s

  -- The search reads every entry that `n_dirs` counts, which C leaves undefined where one is missing.
  unfoldable pub announce : FileHeader → Bytes → M S (Unit {0})
  unfolding dir_found register
  announce h path s =
      if s.dirs_lost
      then fault
      else if dir_found s.dirs_headers_sent path
      then done tt s
      else register h path s

  -- The loop: `path` and `last_token` as in the source, and the tokens that are still to come. The
  -- last token of all is the file's own and is not reached as `last_token`.
  unfoldable pub directories : FileHeader → Option Bytes → Bytes → List Bytes → M S (Unit {0})
  unfolding extend_path announce
  directories h path last_token [] s = done tt s
  directories h path last_token (token ∷ tokens) s =
      (do
        allocate (length (extend_path path last_token) + 1)
        announce h (extend_path path last_token)
        directories h (some (extend_path path last_token)) token tokens)
        s

  -- From the first `strtok` on.
  unfoldable pub send_directories : FileHeader → List Bytes → M S (Unit {0})
  unfolding directories
  send_directories h [] = pure tt
  send_directories h (token ∷ tokens) = directories h none token tokens
