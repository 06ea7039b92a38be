-- ===== src/Unpacker.antt =====
-- qubes-rpc/qfile-unpacker.c, which receives files: it enters the incoming directory, mounts it with
-- restrictions, and lets a child without privileges, confined to that directory, unpack the stream.
pub mod Stages
pub mod Confinement
use qubes_core_agent_linux.Base.{
  ℕ, ◌/◌, ◌%◌, ◌^◌, Bool, true, false, not, List, [], ◌∷◌, ◌++◌, Option, none, some, drop, get_or,
  ◌==◌, ◌+◌, String, Bytes, codes, strcmp_eq, if◌then◌else◌,
}
use qubes_core_agent_linux.Process.{
  Fork, fork_failed, child, parent, Interface, Program, returns, exits, calls, ◌>>=◌, ◌>>◌, request,
}

-- The fields of `struct passwd` that the program reads.
pub record Passwd : Type 0 where
  pub pw_name : Bytes
  pub pw_uid : ℕ
  pub pw_gid : ℕ
  pub pw_dir : Bytes

pub record Number : Type 0 where
  pub value : ℕ
  pub has_errno : Bool

-- The calls, with the arguments that matter. `open_fds` opens the directory /proc/<pid>/fd, and
-- `asprintf` allocates the text that it is given.
pub data Call : Type 0 where
  strtol atoi getenv asprintf perror gui_fatal chdir chroot umount2 : Bytes → Call
  getpwuid setgid setfsuid set_verbose set_wait_for_space setuid waitpid : ℕ → Call
  getuid fork getpid do_unpack : Call
  setenv : Bytes → Bytes → Call
  initgroups : Bytes → ℕ → Call
  mkdir : Bytes → ℕ → Call
  mount : Bytes → Bytes → ℕ → Call
  asprintf_fds open_fds set_procfs_fd : ℕ → Call

-- A Boolean is false where the test in the program takes the result for a failure.
abbrev pub Reply : Call → Type 0
Reply (strtol _) = Number
Reply (atoi _) = ℕ
Reply (getenv _) = Option Bytes
Reply (asprintf _) = Bool
Reply (chdir _) = Bool
Reply (chroot _) = Bool
Reply (umount2 _) = Bool
Reply (getpwuid _) = Option Passwd
Reply (setgid _) = Bool
Reply (setfsuid _) = Bool
Reply (setuid _) = Bool
Reply (waitpid _) = Option ℕ
Reply getuid = ℕ
Reply fork = Fork
Reply getpid = ℕ
Reply do_unpack = ℕ
Reply (initgroups _ _) = Bool
Reply (mkdir _ _) = Bool
Reply (mount _ _ _) = Bool
Reply (asprintf_fds _) = Bool
Reply (open_fds _) = Option ℕ
Reply (perror _) = Unit
Reply (gui_fatal _) = Unit
Reply (set_verbose _) = Unit
Reply (set_wait_for_space _) = Unit
Reply (setenv _ _) = Bool
Reply (set_procfs_fd _) = Unit

abbrev pub unpacker : Interface
unpacker = record { Call = Call; Reply = Reply }

abbrev pub fatal : {A : Type 0} → String → Program unpacker A
fatal message = calls (gui_fatal (codes message)) λ _. exits 1

-- `if (call (…) < 0) gui_fatal (…);`
abbrev pub check : Bool → String → Program unpacker (Unit {0})
check true message = returns tt
check false message = fatal message

unfoldable pub prepare_creds_return_dir : ℕ → Program unpacker Bytes
prepare_creds_return_dir uid = do
  pwd ← request (getpwuid uid)
  elim pwd [
    | none ↦ calls (perror (codes "getpwuid")) λ _. exits 1
    | some p ↦ (do
      request (setenv (codes "HOME") p.pw_dir)
      request (setenv (codes "USER") p.pw_name)
      group ← request (setgid p.pw_gid)
      check group "Error setting group permissions"
      groups ← request (initgroups p.pw_name p.pw_gid)
      check groups "Error initializing groups"
      fs ← request (setfsuid p.pw_uid)
      check fs "Error setting filesystem level permissions"
      returns p.pw_dir)
  ]

-- The user to run as, and the incoming directory.
pub record Target : Type 0 where
  pub uid : ℕ
  pub incoming_dir : Bytes

-- With the user and the directory given. A `long` is cut to an `int` of 32 bits.
unfoldable pub given_target : Bytes → Bytes → Program unpacker Target
given_target user dir = do
  n ← request (strtol user)
  check (not n.has_errno) "Invalid user ID argument"
  home_dir ← prepare_creds_return_dir (n.value % 2 ^ 32)
  returns (record { uid = n.value % 2 ^ 32; incoming_dir = dir })

abbrev pub subdir : Bytes → Bytes → Bytes
subdir dir name = dir ++ (b'/' ∷ name)

abbrev pub make_incoming : ℕ → Bytes → Bytes → Program unpacker Target
make_incoming uid root remote_domain = do
  made_root ← request (asprintf root)
  check made_root "Error allocating memory"
  request (mkdir root 0o700)
  made ← request (asprintf (subdir root remote_domain))
  check made "Error allocating memory"
  request (mkdir (subdir root remote_domain) 0o700)
  returns (record { uid = uid; incoming_dir = subdir root remote_domain })

unfoldable pub default_target : Program unpacker Target
default_target = do
  uid ← request getuid
  home_dir ← prepare_creds_return_dir uid
  remote_domain ← request (getenv (codes "QREXEC_REMOTE_DOMAIN"))
  elim remote_domain [
    | none ↦ fatal "Cannot get remote domain name"
    | some domain ↦ make_incoming uid (subdir home_dir (codes "QubesIncoming")) domain
  ]

-- `if (argc >= 3)`
unfoldable pub target : List Bytes → Program unpacker Target
target (program ∷ user ∷ dir ∷ options) = given_target user dir
target _ = default_target

abbrev pub invalid_option : Program unpacker (Unit {0})
invalid_option = fatal "Invalid option"

-- The loop over `argv[3]` and on.
unfoldable pub parse_options : List Bytes → Program unpacker (Unit {0})
parse_options [] = returns tt
parse_options (a ∷ []) =
    if strcmp_eq a (codes "-v")
    then (do request (set_verbose 1); returns tt)
    else if strcmp_eq a (codes "-w")
    then (do request (set_wait_for_space 1); returns tt)
    else invalid_option
parse_options (a ∷ b ∷ options) =
    let one = parse_options (b ∷ options) in
    let two = parse_options options in
    if strcmp_eq a (codes "-v")
    then (do request (set_verbose 1); one)
    else if strcmp_eq a (codes "-w")
    then (if not (get_or b 0 0 == b'-')
        then (do n ← request (atoi b); request (set_wait_for_space n); two)
        else (do request (set_wait_for_space 1); one))
    else invalid_option

-- `MS_BIND | MS_NODEV | MS_NOEXEC | MS_NOSUID`
abbrev pub mount_flags : ℕ
mount_flags = 4096 + (4 + (8 + 2))

-- `open` of the directory of descriptors; a failure is only reported.
abbrev pub keep_procfs : Option ℕ → Program unpacker (Unit {0})
keep_procfs none = request (perror (codes "Failed to open /proc"))
keep_procfs (some fd) = request (set_procfs_fd fd)

abbrev pub switched : Bool → Program unpacker (Unit {0})
switched true = returns tt
switched false = calls (perror (codes "setuid")) λ _. exits 1

unfoldable pub run_child : ℕ → Program unpacker ℕ
run_child uid = do
  pid ← request getpid
  made ← request (asprintf_fds pid)
  check made "Error allocating memory"
  fd ← request (open_fds pid)
  keep_procfs fd
  rooted ← request (chroot (codes "."))
  check rooted "Error chroot"
  set ← request (setuid uid)
  switched set
  request do_unpack

-- `WIFEXITED` and `WEXITSTATUS`
abbrev pub exited_status : ℕ → Program unpacker ℕ
exited_status ret =
    if not (ret % 128 == 0)
    then fatal "Child process exited abnormally"
    else returns (ret / 256 % 256)

unfoldable pub run_parent : ℕ → Program unpacker ℕ
run_parent pid = do
  waited ← request (waitpid pid)
  elim waited [
    | none ↦ fatal "Failed to wait for child process"
    | some ret ↦ (do
      gone ← request (umount2 (codes "."))
      check gone "Cannot umount incoming directory"
      exited_status ret)
  ]

abbrev pub after_fork : ℕ → Fork → Program unpacker ℕ
after_fork uid fork_failed = fatal "Failed to create new process"
after_fork uid child = run_child uid
after_fork uid (parent pid) = run_parent pid

-- From `chdir (incoming_dir)` on.
unfoldable pub enter : Target → Program unpacker ℕ
enter t = do
  inside ← request (chdir t.incoming_dir)
  check inside "Error chdir"
  mounted ← request (mount (codes ".") (codes ".") mount_flags)
  check mounted "Failed to mount a directory"
  pid ← request fork
  after_fork t.uid pid

unfoldable pub main : List Bytes → Program unpacker ℕ
main argv = do t ← target argv; parse_options (drop 3 argv); enter t
