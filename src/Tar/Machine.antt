-- ===== src/Tar/Machine.antt =====
-- The state of a run of qubes-rpc/tar2qfile.c, the calls that leave the program, and the way one
-- statement follows another.
pub mod Ends
use qubes_core_agent_linux.Base.{ℕ, Bool, List, [], ◌∷◌, ◌++◌, Option, Bytes, if◌then◌else◌}
use qubes_core_agent_linux.Tar.Source.{Source, CopyStatus}
use qubes_core_agent_linux.Tar.Filter.{Filters}

-- `struct file_header` of libqubes-rpc-filecopy, as this program fills it.
pub record FileHeader : Type 0 where
  pub namelen : ℕ
  pub mode : ℕ
  pub filelen : ℕ
  pub atime : ℕ
  pub atime_nsec : ℕ
  pub mtime : ℕ
  pub mtime_nsec : ℕ

-- What the program sends or reports, in order.
pub data Call : Type 0 where
  write_headers : FileHeader → Bytes → Call
  content : CopyStatus → Bytes → Call
  set_block : Call
  wait_for_result : Call
  gui_fatal : Bytes → CopyStatus → Call
  perror : Call
  pack_init : Call
  set_ignore_quota_error : Bool → Call
  set_nonblock : ℕ → Call
  open_error : Bytes → Call
  no_input : Call
  notify_end : Call

module _ (S : Source) where
  pub record State : Type 0 where
    pub world : S.World
    pub untrusted_namebuf : Bytes
    pub gnu_hack_string : Option Bytes
    -- The entries of the table, and whether an allocation for one more has failed: `n_dirs` counts that
    -- one too, and the table is then NULL, or has NULL for its last entry.
    pub dirs_headers_sent : List Bytes
    pub dirs_lost : Bool
    pub filters : Filters
    pub use_seek : Bool
    pub hdr : FileHeader
    pub calls : List Call

  -- How a statement ends: it goes on with a value, it returns `MEMORY_ALLOC_FAILED` from `ustar_rd`,
  -- it ends the process with a status, it does what C leaves undefined, or it has no fuel left.
  pub data Run (A : Type 0) : Type 0 where
    done : A → State → Run A
    no_memory : State → Run A
    exits : ℕ → State → Run A
    fault : Run A
    no_fuel : Run A

  abbrev pub M : Type 0 → Type 0
  M A = State → Run A

module _ {S : Source} where
  abbrev pub pure : {A : Type 0} → A → M S A
  pure a s = done a s

  infixl 5 ◌>>=◌ ◌>>◌
  abbrev pub ◌>>=◌ : {A B : Type 0} → M S A → (A → M S B) → M S B
  ◌>>=◌ m f s = elim (m s) [
    | done a t ↦ f a t
    | no_memory t ↦ no_memory t
    | exits n t ↦ exits n t
    | fault ↦ fault
    | no_fuel ↦ no_fuel
  ]

  abbrev pub ◌>>◌ : {B : Type 0} → M S (Unit {0}) → M S B → M S B
  m >> k = m >>= λ _. k

  abbrev pub call : Call → M S (Unit {0})
  call c s = done tt (record s { calls = s.calls ++ (c ∷ []) })

  abbrev pub exit : {A : Type 0} → ℕ → M S A
  exit n s = exits n s

  -- `if (malloc (n) == NULL) return MEMORY_ALLOC_FAILED;`
  unfoldable pub allocate : ℕ → M S (Unit {0})
  allocate n s =
      let (enough, w) = S.malloc n s.world in
      if enough then done tt (record s { world = w }) else no_memory (record s { world = w })
