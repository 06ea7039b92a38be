-- ===== src/GuiFatal.antt =====
-- qubes-rpc/gui-fatal.c, which shows the other programs' messages in a dialog, in a process of its own
-- that does not run as root if that can be helped. A message is the text that its format stands for.
pub mod Dialog
use qubes_core_agent_linux.Base.{
  ℕ, Bool, true, false, ◌∷◌, [], ◌++◌, take, ◌==◌, String, Bytes, codes, if◌then◌else◌,
}
use qubes_core_agent_linux.Process.{
  Fork, fork_failed, child, parent, Interface, Program, returns, exits, calls, ◌>>=◌, ◌>>◌, request,
}

pub data Call : Type 0 where
  program_name strerror fork geteuid getuid : Call
  asprintf print_stderr perror execlp : Bytes → Call
  setuid : ℕ → Call
  setenv : Bytes → Bytes → Call

abbrev pub Reply : Call → Type 0
Reply program_name = Bytes
Reply strerror = Bytes
Reply fork = Fork
Reply geteuid = ℕ
Reply getuid = ℕ
Reply (asprintf _) = Bool
Reply (print_stderr _) = Unit
Reply (perror _) = Unit
Reply (execlp _) = Unit
Reply (setuid _) = Bool
Reply (setenv _ _) = Bool

abbrev pub messenger : Interface
messenger = record { Call = Call; Reply = Reply }

abbrev pub fix_display : Program messenger Bool
fix_display = request (setenv (codes "DISPLAY") (codes ":0"))

-- Where the user is root.
abbrev pub drop_root : Bool → Program messenger (Unit {0})
drop_root false = returns tt
drop_root true = do
  uid ← request getuid
  dropped ← request (setuid uid)
  if dropped
      then returns tt
      else request (perror (codes "setuid failed, calling kdialog/zenity as root"))

-- A successful `execlp` does not come back.
unfoldable pub run_child : {A : Type 0} → Bytes → Program messenger A
run_child dialog_msg = do
  euid ← request geteuid
  drop_root (euid == 0)
  fix_display
  request (execlp dialog_msg)
  exits 1

abbrev pub after_fork : Bytes → Fork → Program messenger (Unit {0})
after_fork dialog_msg fork_failed = exits 1
after_fork dialog_msg child = run_child dialog_msg
after_fork dialog_msg (parent pid) = returns tt

-- "%s: %s: %s (error type: %s)", with the message as the buffer of 1024 bytes holds it.
abbrev pub dialog_text : Bytes → Bytes → Bytes → Bytes → Bytes
dialog_text name kind message error =
    name
    ++ (codes ": "
        ++ (kind
            ++ (codes ": "
                ++ (take 1023 message ++ (codes " (error type: " ++ (error ++ codes ")"))))))

abbrev pub show_message : Bytes → Bool → Program messenger (Unit {0})
show_message text false =
    request (print_stderr (codes "Failed to allocate memory for error message :("))
show_message text true = do request (print_stderr text); pid ← request fork; after_fork text pid

unfoldable pub produce_message : Bytes → Bytes → Program messenger (Unit {0})
produce_message kind message = do
  name ← request program_name
  error ← request strerror
  made ← request (asprintf (dialog_text name kind message error))
  show_message (dialog_text name kind message error) made

abbrev pub gui_fatal : Bytes → Program messenger (Unit {0})
gui_fatal message = do produce_message (codes "Fatal error") message; exits 1

abbrev pub gui_nonfatal : Bytes → Program messenger (Unit {0})
gui_nonfatal message = produce_message (codes "Information") message
