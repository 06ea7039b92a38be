-- ===== src/Tar/Main.antt =====
-- `main` of qubes-rpc/tar2qfile.c: the input, the filters, and what comes before and behind the
-- archive.
pub mod Sound
pub mod Sent
use qubes_core_agent_linux.Base.{
  ℕ, ◌*◌, Bool, true, false, List, [], ◌∷◌, Option, none, some, length, drop, Bytes, codes,
  strcmp_eq, if◌then◌else◌,
}
use qubes_core_agent_linux.Tar.Filter.{Filter, Filters}
use qubes_core_agent_linux.Tar.Source.{Source}
use qubes_core_agent_linux.Tar.Machine.{
  pack_init, set_ignore_quota_error, set_nonblock, open_error, no_input, notify_end, set_block,
  perror, State, M, done, pure, ◌>>=◌, ◌>>◌, call, exit,
}
use qubes_core_agent_linux.Tar.Processor.{tar_file_processor}

-- `fd`, where `none` is -1, and `use_stdin`.
pub record Input : Type 0 where
  pub fd : Option ℕ
  pub use_stdin : Bool

abbrev stdin : Input
stdin = record { fd = none; use_stdin = true }

-- The arguments behind the first one, none of which has matched yet.
abbrev pub to_filters : List Bytes → List Filter
to_filters [] = []
to_filters (a ∷ args) = record { text = a; matches = 0 } ∷ to_filters args

abbrev pub filters_of : List Bytes → Filters
filters_of argv = record { filters = to_filters (drop 2 argv); matched_filters = 0 }

-- Files by descriptors: `open (entry, O_RDONLY)`, and the world in which a descriptor is the one that
-- the functions of `Source` read from.
pub record Files (S : Source) : Type 0 where
  pub open_file : Bytes → S.World → Option ℕ × S.World
  pub read_from : ℕ → S.World → S.World

module _ {S : Source} (F : Files S) where
  unfoldable pub open_input : Bytes → M S Input
  open_input entry s =
      let (fd, w) = F.open_file entry s.world in
      let next = record s { world = w } in
      elim fd [
        | none ↦ (do call (open_error entry); exit 2) next
        | some n ↦ done (record { fd = some n; use_stdin = false }) next
      ]

  unfoldable pub choose_input : List Bytes → M S Input
  choose_input (program ∷ (entry ∷ args)) s =
      if strcmp_eq entry (codes "-") then done stdin s else open_input entry s
  choose_input _ s = done stdin s

  -- The list of the filters stands in `argv`, and an array is made for the matches.
  unfoldable pub make_filters : List Bytes → M S (Unit {0})
  make_filters argv s =
      let filters = filters_of argv in
      let (enough, w) = S.malloc (length filters.filters * 4) s.world in
      if enough
      then done tt (record s { world = w; filters = filters })
      else (do call perror; exit 1) (record s { world = w })

  unfoldable pub use_input : Input → M S (Option ℕ)
  use_input i s = if i.use_stdin then (do call set_block; pure (some 0)) s else done i.fd s

  unfoldable pub process : ℕ → Option ℕ → M S ℕ
  process fuel none s = (do call no_input; exit 1) s
  process fuel (some fd) s =
      (do tar_file_processor fuel; call notify_end; pure 0)
        (record s { world = F.read_from fd s.world })

  unfoldable pub main : ℕ → List Bytes → M S ℕ
  main fuel argv = do
    call pack_init
    call (set_ignore_quota_error true)
    call (set_nonblock 0)
    i ← choose_input argv
    make_filters argv
    fd ← use_input i
    process fuel fd
