-- ===== src/Agent/Progress/Stages.antt =====
-- What is found out on the way to a report of qubes-rpc/qfile-agent.c.
use qubes_core_agent_linux.Base.{◌≡◌, Bool, true, false, Option, none, some, Bytes, strcmp_eq}
use qubes_core_agent_linux.Agent.Progress.{
  Written, broken_pipe, Variable, filecopy_total_size, progress_type, saved_fd_1, Call, getenv,
  write, wait_for_result, Reply,
}

-- What a report has found out: whether the receiver was looked at, whether the environment was, what
-- stood there, and whether the last text met a broken pipe.
pub record Stage : Type 0 where
  pub waited : Bool
  pub asked : Bool
  pub size : Option Bytes
  pub kind : Option Bytes
  pub saved : Option Bytes
  pub broken : Bool

abbrev pub silent : Stage
silent = record {
  waited = false;
  asked = false;
  size = none;
  kind = none;
  saved = none;
  broken = false;
}

abbrev pub is_broken : Written → Bool
is_broken broken_pipe = true
is_broken _ = false

abbrev heard : Variable → Option Bytes → Stage → Stage
heard filecopy_total_size v s = record s { asked = true; size = v }
heard progress_type v s = record s { asked = true; kind = v }
heard saved_fd_1 v s = record s { asked = true; saved = v }

abbrev pub next : Stage → (c : Call) → Reply c → Stage
next s (getenv v) r = heard v r s
next s (write fd text) r = record s { broken = is_broken r }
next s wait_for_result r = record s { waited = true }

-- `PROGRESS_TYPE` is this text.
abbrev pub IsKind : Bytes → Stage → Type 0
IsKind text s = (kind : Bytes) × (s.kind ≡ some kind) × (strcmp_eq kind text ≡ true)
