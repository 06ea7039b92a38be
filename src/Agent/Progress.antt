-- ===== src/Agent/Progress.antt =====
-- The progress reports of qubes-rpc/qfile-agent.c: `notify_progress`, which the library calls with
-- what it has sent, and `do_notify_progress`. A size is a number of bytes, and the total stays below
-- 2 ^ 63.
pub mod Text
pub mod Stages
pub mod Reports
pub mod Totals
use qubes_core_agent_linux.Base.{
  ℕ, zero, suc, ◌+◌, ◌-◌, ◌/◌, ◌%◌, ◌^◌, Bool, true, false, not, ◌||◌, List, [], ◌∷◌, ◌++◌, Option,
  none, some, ltb, Bytes, take, codes, strcmp_eq, if◌then◌else◌,
}
use qubes_core_agent_linux.Process.{Interface, Program, returns, exits, ◌>>=◌, ◌>>◌, request}
use qubes_core_agent_linux.Agent.Walk.{
  Flag, progress_flag_normal, progress_flag_init, progress_flag_done,
}

-- What `write` comes to: bytes, or -1 with `EPIPE` or another `errno`.
pub data Written : Type 0 where
  written broken_pipe failed : Written

-- `FILECOPY_TOTAL_SIZE`, `PROGRESS_TYPE` and `SAVED_FD_1` in the environment.
pub data Variable : Type 0 where
  filecopy_total_size progress_type saved_fd_1 : Variable

-- `wait_for_result` ends the process where the receiver has told an error; else it returns.
pub data Call : Type 0 where
  getenv : Variable → Call
  write : ℕ → Bytes → Call
  wait_for_result : Call

abbrev pub Reply : Call → Type 0
Reply (getenv _) = Option Bytes
Reply (write _ _) = Written
Reply wait_for_result = Unit

abbrev pub progress : Interface
progress = record { Call = Call; Reply = Reply }

-- `%lld` of the C library, as its documentation has it: a number of 64 bits, which has at most 20
-- decimal digits, taken with its sign and written with no zero in front.
unfoldable pub digits : ℕ → ℕ → Bytes
digits zero n = []
digits (suc k) n =
    let rest = digits k (n / 10) in
    if ltb n 10 then (b'0' + n) ∷ [] else rest ++ ((b'0' + n % 10) ∷ [])

unfoldable pub lld : ℕ → Bytes
lld n = if ltb n (2 ^ 63) then digits 20 n else b'-' ∷ digits 20 (2 ^ 64 - n)

-- The two messages, in a buffer of 256 bytes with a NUL.
unfoldable pub console_message : ℕ → ℕ → Bytes
console_message total size =
    take 255 (codes "sent " ++ (lld (total / 1024) ++ (b'/' ∷ (lld size ++ codes " KB\r"))))

unfoldable pub gui_message : ℕ → Bytes
gui_message total = take 255 (lld total ++ codes "\n")

abbrev pub is_done : Flag → Bool
is_done progress_flag_done = true
is_done _ = false

abbrev pub is_normal : Flag → Bool
is_normal progress_flag_normal = true
is_normal _ = false

-- The static variables of `notify_progress`.
pub record Counters : Type 0 where
  pub total : ℕ
  pub prev_total : ℕ

-- `strtoull` and `strtoul` with base 0, and `PROGRESS_NOTIFY_DELTA` of the library.
module _ (strtoull strtoul : Bytes → ℕ) (delta : ℕ) where
  unfoldable pub to_console : Bytes → Option Bytes → ℕ → Flag → Program progress (Unit {0})
  to_console kind none total flag = returns tt
  to_console kind (some size) total flag =
      if strcmp_eq kind (codes "console")
      then (do
        request (write 2 (console_message total (strtoull size)))
        if is_done flag then (request (write 2 (codes "\n")) >> returns tt) else returns tt)
      else returns tt

  abbrev pub after_write : Written → Program progress (Unit {0})
  after_write broken_pipe = exits 32
  after_write _ = returns tt

  unfoldable pub to_gui : Bytes → Option Bytes → ℕ → Program progress (Unit {0})
  to_gui kind none total = returns tt
  to_gui kind (some fd) total =
      if strcmp_eq kind (codes "gui")
      then request (write (strtoul fd) (gui_message total)) >>= after_write
      else returns tt

  abbrev pub of_kind :
      Option Bytes → Option Bytes → Option Bytes → ℕ → Flag → Program progress (Unit {0})
  of_kind none size fd total flag = returns tt
  of_kind (some kind) size fd total flag = to_console kind size total flag >> to_gui kind fd total

  unfoldable pub do_notify_progress : ℕ → Flag → Program progress (Unit {0})
  do_notify_progress total flag = do
    du_size ← request (getenv filecopy_total_size)
    kind ← request (getenv progress_type)
    saved_stdout ← request (getenv saved_fd_1)
    of_kind kind du_size saved_stdout total flag

  -- A report, with a look for an error of the receiver before it.
  abbrev pub report : ℕ → Flag → Program progress (Unit {0})
  report total flag =
      (if is_normal flag then request wait_for_result else returns tt)
      >> do_notify_progress total flag

  unfoldable pub notify_progress : Counters → ℕ → Flag → Program progress Counters
  notify_progress c size flag =
      let total = c.total + size in
      if ltb (c.prev_total + delta) total || not (is_normal flag)
      then report total flag >> returns (record { total = total; prev_total = total })
      else returns (record { total = total; prev_total = c.prev_total })

  -- The reports of a whole run, one after the other.
  unfoldable pub notify_all : Counters → List (ℕ × Flag) → Program progress Counters
  notify_all c [] = returns c
  notify_all c ((size, flag) ∷ reports) = do d ← notify_progress c size flag; notify_all d reports
