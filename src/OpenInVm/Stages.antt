-- ===== src/OpenInVm/Stages.antt =====
-- The protocol for what qubes-rpc/qopen-in-vm.c may do to the user's file.
use qubes_core_agent_linux.Base.{
  ℕ, ◌<◌, ◌≡◌, Bool, true, false, List, [], some, length, get_or, leb, Bytes, if◌then◌else◌,
}
use qubes_core_agent_linux.Process.{Protocol}
use qubes_core_agent_linux.OpenInVm.{
  Call, Reply, opener, Temp, Options, getopt_loop, mkstemp, unlink, write_all, copy_fd_all, fstat,
  rename, open_read, open_null, close, sendbuf,
}

-- How far the run is: with the arguments; with an unknown option; with no file behind the options;
-- with the file named, open at a descriptor, its name sent, it sent; with a descriptor of the null
-- device; and then a temporary file that is made, that has all that came, and whose size is known.
pub data Stage : Type 0 where
  over misused no_file : Stage
  begun : List Bytes → Stage
  named sent : Bytes → Bool → Stage
  opened announced : Bytes → Bool → ℕ → Stage
  discarding : ℕ → Stage
  made received : Bytes → Temp → Stage
  measured : Bytes → Temp → ℕ → Stage

abbrev IsHarmless : Call → Type 0
IsHarmless (getopt_loop _) = ⊥
IsHarmless (write_all _ _) = ⊥
IsHarmless (copy_fd_all _ _) = ⊥
IsHarmless (mkstemp _) = ⊥
IsHarmless (fstat _) = ⊥
IsHarmless (unlink _) = ⊥
IsHarmless (rename _ _) = ⊥
IsHarmless (open_read _) = ⊥
IsHarmless open_null = ⊥
IsHarmless (close _) = ⊥
IsHarmless _ = Unit

-- The copies are between descriptors that the program has, and none is closed before its copy is done.
-- A temporary file is made only where the file may be changed. It takes the file's place only when
-- all that came is in it and it is not empty, and is removed only when it is empty.
unfoldable pub Allowed : Stage → Call → Type 0
Allowed (begun argv) (getopt_loop args) = args ≡ argv
Allowed (named fname view_only) (open_read file) = file ≡ fname
Allowed (opened fname view_only fd) (write_all out bytes) =
    (out ≡ 1) × (bytes ≡ sendbuf fname view_only)
Allowed (announced fname view_only fd) (copy_fd_all out input) = (out ≡ 1) × (input ≡ fd)
Allowed (sent fname view_only) (close fd) = Unit
Allowed (sent fname view_only) (mkstemp template) = view_only ≡ false
Allowed (sent fname view_only) open_null = view_only ≡ true
Allowed (discarding fd) (copy_fd_all out input) = (out ≡ fd) × (input ≡ 0)
Allowed (made fname t) (copy_fd_all out input) = (out ≡ t.fd) × (input ≡ 0)
Allowed (received fname t) (fstat fd) = fd ≡ t.fd
Allowed (measured fname t size) (rename old new) = (old ≡ t.file) × (new ≡ fname) × (0 < size)
Allowed (measured fname t size) (unlink file) = (file ≡ t.file) × (size ≡ 0)
Allowed (measured fname t size) (close fd) = fd ≡ t.fd
Allowed over (close fd) = Unit
Allowed s c = IsHarmless c

-- What the options leave of the arguments.
abbrev pub chosen : List Bytes → Options → Stage
chosen argv o =
    if o.has_unknown
    then misused
    else if leb (length argv) o.optind
    then no_file
    else named (get_or argv o.optind []) o.view_only

unfoldable pub next : Stage → (c : Call) → Reply c → Stage
next (begun argv) (getopt_loop args) o = chosen argv o
next (named fname view_only) (open_read file) (some fd) = opened fname view_only fd
next (opened fname view_only fd) (write_all out bytes) true = announced fname view_only fd
next (announced fname view_only fd) (copy_fd_all out input) true = sent fname view_only
next (sent fname view_only) (mkstemp template) (some t) = made fname t
next (sent fname view_only) open_null fd = discarding fd
next (discarding fd) (copy_fd_all out input) r = over
next (made fname t) (copy_fd_all out input) true = received fname t
next (received fname t) (fstat fd) (some size) = measured fname t size
next (measured fname t size) (rename old new) r = over
next (measured fname t size) (unlink file) r = over
next s c r = s

-- Where the program returns, a file that was received is in place, or removed, or not empty and the
-- user was told of it.
abbrev pub Result : Stage → ℕ → Type 0
Result over n = n ≡ 0
Result (measured fname t size) n = (n ≡ 0) × (0 < size)
Result _ n = ⊥

-- An unknown option has its own status, and nothing ends the program before the options are known.
abbrev pub Exit : Stage → ℕ → Type 0
Exit misused n = n ≡ 2
Exit (begun argv) n = ⊥
Exit _ n = n ≡ 1

abbrev pub safe_return : Protocol opener ℕ
safe_return = record { Stage = Stage; Allowed = Allowed; next = next; Result = Result; Exit = Exit }
