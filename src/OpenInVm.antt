-- ===== src/OpenInVm.antt =====
-- qubes-rpc/qopen-in-vm.c, which sends a file to a disposable VM, with its name in a buffer of fixed
-- size, and takes the edited file back.
pub mod Name
pub mod Stages
pub mod Received
use qubes_core_agent_linux.Base.{
  ℕ, ◌+◌, ◌-◌, Bool, true, false, not, List, [], ◌∷◌, ◌++◌, Option, none, some, length, take, drop,
  replicate, get_or, ltb, leb, String, Bytes, codes, strncpy, strncat, put_nul, after_last,
  if◌then◌else◌,
}
use qubes_core_agent_linux.Process.{Interface, Program, returns, exits, calls, ◌>>=◌, ◌>>◌, request}

-- `DVM_FILENAME_SIZE` and `DVM_VIEW_ONLY_PREFIX` of dvm2.h
abbrev pub dvm_filename_size : ℕ
dvm_filename_size = 256

abbrev pub dvm_view_only_prefix : Bytes
dvm_view_only_prefix = codes "view-only-"

-- What follows the last slash, or all.
unfoldable pub base_name : Bytes → Bytes
base_name fname = elim (after_last b'/' fname) [ none ↦ fname | some base ↦ base ]

-- `if (strlen (base) >= sendbuf_size) base += …`
unfoldable pub shorten : ℕ → Bytes → Bytes
shorten sendbuf_size base =
    if leb sendbuf_size (length base) then drop (length base - sendbuf_size + 1) base else base

abbrev pub sendbuf_start : Bool → Bytes
sendbuf_start true = strncpy dvm_filename_size dvm_view_only_prefix
sendbuf_start false = replicate dvm_filename_size 0

abbrev pub sendbuf_size : Bool → ℕ
sendbuf_size true = dvm_filename_size - length dvm_view_only_prefix
sendbuf_size false = dvm_filename_size

-- The buffer that `send_file` writes.
unfoldable pub sendbuf : Bytes → Bool → Bytes
unfolding base_name shorten
sendbuf fname view_only =
    let base = shorten (sendbuf_size view_only) (base_name fname) in
    let named = strncat (sendbuf_start view_only) base (sendbuf_size view_only - 1) in
    put_nul (dvm_filename_size - 1) named

pub record Temp : Type 0 where
  pub fd : ℕ
  pub file : Bytes

-- What the loop over `getopt_long` finds.
pub record Options : Type 0 where
  pub has_unknown : Bool
  pub view_only : Bool
  pub optind : ℕ

pub data Call : Type 0 where
  getopt_loop : List Bytes → Call
  open_read asprintf mkstemp unlink gui_fatal gui_nonfatal : Bytes → Call
  write_all : ℕ → Bytes → Call
  copy_fd_all : ℕ → ℕ → Call
  close fstat : ℕ → Call
  rename : Bytes → Bytes → Call
  open_null ignore_sigpipe : Call

-- A Boolean is false where a test of the result would take it for a failure. `fstat` gives the size.
abbrev pub Reply : Call → Type 0
Reply (getopt_loop _) = Options
Reply (open_read _) = Option ℕ
Reply (asprintf _) = Bool
Reply (mkstemp _) = Option Temp
Reply (unlink _) = Bool
Reply (gui_fatal _) = Unit
Reply (gui_nonfatal _) = Unit
Reply (write_all _ _) = Bool
Reply (copy_fd_all _ _) = Bool
Reply (close _) = Bool
Reply (fstat _) = Option ℕ
Reply (rename _ _) = Bool
Reply open_null = ℕ
Reply ignore_sigpipe = Unit

abbrev pub opener : Interface
opener = record { Call = Call; Reply = Reply }

abbrev pub fatal : {A : Type 0} → String → Program opener A
fatal message = calls (gui_fatal (codes message)) λ _. exits 1

abbrev pub check : Bool → String → Program opener (Unit {0})
check true message = returns tt
check false message = fatal message

-- The steps on a descriptor that was opened, or the end of the program.
abbrev pub opened : String → Option ℕ → Program opener ℕ
opened message none = fatal message
opened message (some fd) = returns fd

unfoldable pub send_file : Bytes → Bool → Program opener (Unit {0})
send_file fname view_only = do
  file ← request (open_read fname)
  fd ← opened "open" file
  named ← request (write_all 1 (sendbuf fname view_only))
  check named "send filename to dispVM"
  sent ← request (copy_fd_all 1 fd)
  check sent "send file to dispVM"
  request (close 1)
  request (close fd)
  returns tt

unfoldable pub copy_and_return_nonemptiness : ℕ → Program opener Bool
copy_and_return_nonemptiness tmpfd = do
  copied ← request (copy_fd_all tmpfd 0)
  check copied "receiving file from dispVM"
  st ← request (fstat tmpfd)
  size ← opened "fstat" st
  request (close tmpfd)
  returns (ltb 0 size)

-- `asprintf` of the template, then `mkstemp`; `none` is a descriptor of -1.
abbrev pub make_temp : Bytes → Program opener (Option Temp)
make_temp template = do
  made ← request (asprintf template)
  if made then request (mkstemp template) else returns none

abbrev pub saved_message : Bytes → Bytes → Bytes
saved_message fname tempfile =
    codes "The file "
    ++ (fname
        ++ (codes
              " has been edited in Disposable VM and the modified content has been received, but this file is in nonwritable directory and thus cannot be modified safely. The edited file has been saved to "
            ++ tempfile))

abbrev pub tell_saved : Bytes → Bytes → Program opener (Unit {0})
tell_saved fname tempfile = do
  made ← request (asprintf (saved_message fname tempfile))
  if made then request (gui_nonfatal (saved_message fname tempfile)) else returns tt

abbrev pub drop_temp : Temp → Program opener (Unit {0})
drop_temp t = do request (unlink t.file); returns tt

abbrev pub saved_or_fatal : Bytes → Option Temp → Program opener (Unit {0})
saved_or_fatal fname none = fatal "unable to create any temporary file, aborting"
saved_or_fatal fname (some t) = do
  nonempty ← copy_and_return_nonemptiness t.fd
  if not nonempty then drop_temp t else tell_saved fname t.file

unfoldable pub recv_file_nowrite : Bytes → Program opener (Unit {0})
recv_file_nowrite fname = do
  t ← make_temp (codes "/tmp/file_edited_in_dvm.XXXXXX")
  saved_or_fatal fname t

abbrev pub replace : Bytes → Temp → Program opener (Unit {0})
replace fname t = do renamed ← request (rename t.file fname); check renamed "rename"

unfoldable pub actually_recv_file : Bytes → Temp → Program opener (Unit {0})
actually_recv_file fname t = do
  nonempty ← copy_and_return_nonemptiness t.fd
  if not nonempty then drop_temp t else replace fname t

abbrev pub recv_file_with : Bytes → Option Temp → Program opener (Unit {0})
recv_file_with fname none = recv_file_nowrite fname
recv_file_with fname (some t) = actually_recv_file fname t

unfoldable pub recv_file : Bytes → Program opener (Unit {0})
recv_file fname = do t ← make_temp (fname ++ codes ".XXXXXX"); recv_file_with fname t

-- "discard received data"
unfoldable pub discard : Program opener (Unit {0})
discard = do
  null_fd ← request open_null
  request (copy_fd_all null_fd 0)
  request (close null_fd)
  returns tt

abbrev pub open_in_vm : Bytes → Bool → Program opener ℕ
open_in_vm fname view_only = do
  send_file fname view_only
  if not view_only then recv_file fname else discard
  returns 0

-- Behind the options.
unfoldable pub with_options : List Bytes → Options → Program opener ℕ
with_options argv o = if o.has_unknown then exits 2 else (do
  request ignore_sigpipe
  if leb (length argv) o.optind
      then fatal "OpenInVM - no file given?"
      else open_in_vm (get_or argv o.optind []) o.view_only)

unfoldable pub main : List Bytes → Program opener ℕ
main argv = do o ← request (getopt_loop argv); with_options argv o
