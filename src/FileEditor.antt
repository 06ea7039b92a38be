-- ===== src/FileEditor.antt =====
-- qubes-rpc/vm-file-editor.c, which runs in the disposable VM: it takes a name and a file, opens the
-- file for the user, and sends it back if it was changed. The globals of the handler that `exit` runs
-- are passed on explicitly.
pub mod RoundTrip
pub mod Stages
pub mod Removal
pub mod Flow
pub mod Return
use qubes_core_agent_linux.Base.{
  ℕ, ◌+◌, ◌-◌, Bool, true, false, not, ◌||◌, List, [], ◌∷◌, ◌++◌, Option, none, some, length, drop,
  get_or, ◌==◌, String, Bytes, codes, c_str, strncmp_eq, strcmp_eq, occurs, put_nul, if◌then◌else◌,
}
use qubes_core_agent_linux.Process.{
  Fork, fork_failed, child, parent, Interface, Program, returns, exits, calls, ◌>>=◌, ◌>>◌, request,
}
use qubes_core_agent_linux.OpenInVm.{dvm_filename_size, dvm_view_only_prefix}

-- `open_new` creates a file and fails if there is one; `stat` gives the time of the last change.
pub data Call : Type 0 where
  getenv report mkdtemp strdup open_new open_read stat unlink rmdir execl : Bytes → Call
  malloc read_all close waitpid system : ℕ → Call
  copy_fd_all dup2 : ℕ → ℕ → Call
  chmod : Bytes → ℕ → Call
  setenv : Bytes → Bytes → Call
  fork open_null open_log : Call

-- A Boolean is false where a test of the result would take it for a failure.
abbrev pub Reply : Call → Type 0
Reply (getenv _) = Option Bytes
Reply (report _) = Unit
Reply (mkdtemp _) = Option Bytes
Reply (strdup _) = Option Bytes
Reply (open_new _) = Option ℕ
Reply (open_read _) = Option ℕ
Reply (stat _) = Option ℕ
Reply (unlink _) = Bool
Reply (rmdir _) = Bool
Reply (execl _) = Unit
Reply (malloc _) = Bool
Reply (read_all _) = Option Bytes
Reply (close _) = Bool
Reply (waitpid _) = ℕ
Reply (system _) = ℕ
Reply (copy_fd_all _ _) = Bool
Reply (dup2 _ _) = Bool
Reply (chmod _ _) = Bool
Reply (setenv _ _) = Bool
Reply fork = Fork
Reply open_null = ℕ
Reply open_log = Option ℕ

abbrev pub editor : Interface
editor = record { Call = Call; Reply = Reply }

-- `cleanup_filename`, `cleanup_dirname`, and whether `cleanup_file` is registered with `atexit`.
pub record Cleanup : Type 0 where
  pub filename : Option Bytes
  pub dirname : Option Bytes
  pub at_exit : Bool

abbrev pub no_cleanup : Cleanup
no_cleanup = record { filename = none; dirname = none; at_exit = false }

abbrev pub warn : Bool → String → Program editor (Unit {0})
warn true message = returns tt
warn false message = request (report (codes message))

abbrev pub remove_file : Option Bytes → Program editor (Unit {0})
remove_file none = returns tt
remove_file (some f) = do gone ← request (unlink f); warn gone "Failed to remove file at exit"

abbrev pub remove_directory : Option Bytes → Program editor (Unit {0})
remove_directory none = returns tt
remove_directory (some d) = do
  gone ← request (rmdir d)
  warn gone "Failed to remove directory at exit"

-- The handler runs once, so what it clears is not read again.
unfoldable pub cleanup_file : Cleanup → Program editor (Unit {0})
cleanup_file c = do remove_file c.filename; remove_directory c.dirname

-- `exit (n)`, with the handler if it is registered
unfoldable pub leave : {A : Type 0} → Cleanup → ℕ → Program editor A
leave c n = if c.at_exit then (do cleanup_file c; exits n) else exits n

abbrev pub fail : {A : Type 0} → Cleanup → String → Program editor A
fail c message = do request (report (codes message)); leave c 1

-- A result, or the message and the end.
abbrev pub need : {A : Type 0} → Cleanup → String → Option A → Program editor A
need c message none = fail c message
need c message (some a) = returns a

abbrev pub ensure : Cleanup → String → Bool → Program editor (Unit {0})
ensure c message true = returns tt
ensure c message false = fail c message

-- The tests on the name of the other domain.
unfoldable pub valid_domain : Bytes → Bool
valid_domain remote_domain =
    if get_or remote_domain 0 0 == 0 || occurs b'/' remote_domain
    then false
    else if strcmp_eq remote_domain (codes ".") || strcmp_eq remote_domain (codes "..")
    then false
    else true

abbrev pub template : Bytes → Bytes
template remote_domain = codes "/tmp/" ++ (remote_domain ++ codes "-XXXXXX")

pub record Directory : Type 0 where
  pub dir : Bytes
  pub cleanup : Cleanup

abbrev pub make_directory : Cleanup → Bytes → Program editor Directory
make_directory c remote_domain = do
  enough ← request (malloc (length (codes "/tmp/-XXXXXX") + length remote_domain + 1))
  ensure c "Cannot allocate memory" enough
  made ← request (mkdtemp (template remote_domain))
  ret ← need c "mkdtemp" made
  copied ← request (strdup ret)
  returns (record { dir = ret; cleanup = record c { dirname = copied } })

unfoldable pub get_directory : Cleanup → Program editor Directory
get_directory c = do
  domain ← request (getenv (codes "QREXEC_REMOTE_DOMAIN"))
  remote_domain ← need c "Cannot get remote domain name" domain
  if not (valid_domain remote_domain)
      then fail c "Invalid remote domain name"
      else make_directory c remote_domain

-- The characters that are replaced.
abbrev pub troublesome : Bytes
troublesome = codes " !?\"#$%^&*()[]<>;`~|"

abbrev pub clean_byte : ℕ → ℕ
clean_byte c = if occurs c troublesome then b'_' else c

unfoldable pub clean : Bytes → Bytes
clean [] = []
clean (c ∷ s) = clean_byte c ∷ clean s

-- What the name says.
pub record Request : Type 0 where
  pub view_only : Bool
  pub fname : Bytes

unfoldable pub split_prefix : Bytes → Request
split_prefix s =
    if strncmp_eq s dvm_view_only_prefix (length dvm_view_only_prefix)
    then record { view_only = true; fname = drop (length dvm_view_only_prefix) s }
    else record { view_only = false; fname = s }

-- What `get_filename` makes of the buffer; `none` is its refusal of a name with a slash.
unfoldable pub read_name : Bytes → Option Request
unfolding clean split_prefix
read_name buf =
    let s = c_str (put_nul (dvm_filename_size - 1) buf) in
    if occurs b'/' s then none else some (split_prefix (clean s))

pub record Received : Type 0 where
  pub path : Bytes
  pub view_only : Bool
  pub cleanup : Cleanup

abbrev pub make_name : Directory → Request → Program editor Received
make_name d r = do
  enough ← request (malloc (length d.dir + 1 + length r.fname + 1))
  ensure d.cleanup "Cannot allocate memory" enough
  returns
      (record { path = d.dir ++ (b'/' ∷ r.fname); view_only = r.view_only; cleanup = d.cleanup })

abbrev pub got : {A : Type 0} → Cleanup → Option A → Program editor A
got c none = leave c 1
got c (some a) = returns a

-- Behind `get_directory`.
unfoldable pub take_name : Directory → Program editor Received
take_name d = do
  read ← request (read_all dvm_filename_size)
  buf ← got d.cleanup read
  r ← need d.cleanup "filename contains /" (read_name buf)
  make_name d r

unfoldable pub get_filename : Cleanup → Program editor Received
get_filename c = do d ← get_directory c; take_name d

abbrev pub copied : Cleanup → Bool → Program editor (Unit {0})
copied c true = returns tt
copied c false = leave c 1

-- The globals behind it.
unfoldable pub copy_file_by_name : Cleanup → Bytes → Program editor Cleanup
copy_file_by_name c filename = do
  made ← request (open_new filename)
  fd ← need c "open file" made
  name ← request (strdup filename)
  whole ← request (copy_fd_all fd 0)
  copied (record c { filename = name; at_exit = true }) whole
  request (close fd)
  returns (record c { filename = name; at_exit = true })

unfoldable pub send_file_back : Cleanup → Bytes → Program editor (Unit {0})
send_file_back c filename = do
  file ← request (open_read filename)
  fd ← need c "open file" file
  whole ← request (copy_fd_all 1 fd)
  copied c whole
  request (close fd)
  request (close 1)
  returns tt

-- The child: a successful `execl` does not come back.
unfoldable pub run_child : Cleanup → Bytes → Program editor (Unit {0})
run_child c filename = do
  null_fd ← request open_null
  request (dup2 null_fd 0)
  request (close null_fd)
  log ← request open_log
  log_fd ← need c "open /tmp/mimeopen.log" log
  request (dup2 log_fd 1)
  request (close log_fd)
  request (setenv (codes "HOME") (codes "/home/user"))
  request (setenv (codes "DISPLAY") (codes ":0"))
  request (execl filename)
  fail c "execl"

-- The parent waits, and tells the user of a failure. `system` runs a dialog with the status.
abbrev pub after_fork : Cleanup → Bytes → Fork → Program editor (Unit {0})
after_fork c filename fork_failed = fail c "fork"
after_fork c filename child = run_child c filename
after_fork c filename (parent pid) = do
  status ← request (waitpid pid)
  if not (status == 0) then (do request (system status); returns tt) else returns tt

abbrev pub mark_read_only : Received → Program editor (Unit {0})
mark_read_only r = if r.view_only then (do request (chmod r.path 0o400); returns tt) else returns tt

-- From the first `stat` to the end. The handler also runs behind `return 0`.
unfoldable pub edit : Cleanup → Bytes → Program editor (Unit {0})
edit c filename = do
  pre ← request (stat filename)
  stat_pre ← need c "stat pre" pre
  pid ← request fork
  after_fork c filename pid
  post ← request (stat filename)
  stat_post ← need c "stat post" post
  if not (stat_pre == stat_post) then send_file_back c filename else returns tt
  leave c 0

unfoldable pub main : Program editor (Unit {0})
main = do
  r ← get_filename no_cleanup
  c ← copy_file_by_name r.cleanup r.path
  mark_read_only r
  edit c r.path
