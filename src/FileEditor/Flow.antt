-- ===== src/FileEditor/Flow.antt =====
-- The protocol for the content of the file in qubes-rpc/vm-file-editor.c: where it comes from, who
-- opens it, and when it goes back.
use qubes_core_agent_linux.Base.{ℕ, ◌≡◌, true, false, some, ◌==◌, Bytes, if◌then◌else◌}
use qubes_core_agent_linux.Process.{Fork, child, parent, Protocol}
use qubes_core_agent_linux.FileEditor.{
  Call, Reply, editor, open_new, open_read, copy_fd_all, stat, chmod, fork, execl, waitpid, unlink,
  rmdir,
}

-- With no file; with an empty file, its path and its descriptor; with the whole content in the
-- file; with the time of its last change; in the child; in the parent, with the number of the
-- child; behind the end of the child; with a file that did not change, or did; with that open
-- again; with all of it sent; with a copy that failed; and with the handler of the exit at work,
-- for a status.
pub data Stage : Type 0 where
  nothing same sent cut : Stage
  created : Bytes → ℕ → Stage
  filled in_child changed : Bytes → Stage
  measured edited : Bytes → ℕ → Stage
  watching : Bytes → ℕ → ℕ → Stage
  sending leaving : ℕ → Stage

-- Where a copy from one descriptor to another is due: descriptor 0 is the sender's content, 1 the way
-- back.
abbrev pub IsDue : ℕ → ℕ → Stage → Type 0
IsDue to from (created path fd) = (to ≡ fd) × (from ≡ 0)
IsDue to from (sending fd) = (to ≡ 1) × (from ≡ fd)
IsDue to from _ = ⊥

abbrev pub HasPath : Bytes → Stage → Type 0
HasPath name (filled path) = name ≡ path
HasPath name (edited path time) = name ≡ path
HasPath name _ = ⊥

abbrev pub IsParent : ℕ → Stage → Type 0
IsParent pid (watching path time number) = pid ≡ number
IsParent pid _ = ⊥

abbrev pub IsMeasured : Stage → Type 0
IsMeasured (measured path time) = Unit
IsMeasured _ = ⊥

-- The handler may begin to remove, with no copy that is due left out.
abbrev pub CanLeave : Stage → Type 0
CanLeave (created path fd) = ⊥
CanLeave (sending fd) = ⊥
CanLeave _ = Unit

abbrev pub Guard : Call → Stage → Type 0
Guard (open_new name) s = s ≡ nothing
Guard (copy_fd_all to from) s = IsDue to from s
Guard (chmod name mode) s = (s ≡ filled name) × (mode ≡ 0o400)
Guard (stat name) s = HasPath name s
Guard fork s = IsMeasured s
Guard (execl name) s = s ≡ in_child name
Guard (waitpid pid) s = IsParent pid s
Guard (open_read name) s = s ≡ changed name
Guard (unlink name) s = CanLeave s
Guard (rmdir name) s = CanLeave s
Guard _ s = Unit

abbrev pub copied_all : Stage → Stage
copied_all (created path fd) = filled path
copied_all (sending fd) = sent
copied_all s = s

abbrev pub status : Stage → ℕ
status same = 0
status sent = 0
status (leaving n) = n
status _ = 1

abbrev pub timed : ℕ → Stage → Stage
timed time (filled path) = measured path time
timed time (edited path before) = if before == time then same else changed path
timed time s = s

abbrev pub forked : Fork → Stage → Stage
forked child (measured path time) = in_child path
forked (parent pid) (measured path time) = watching path time pid
forked _ s = s

abbrev pub ended : Stage → Stage
ended (watching path time pid) = edited path time
ended s = s

abbrev pub step : (c : Call) → Reply c → Stage → Stage
step (open_new name) (some fd) s = created name fd
step (copy_fd_all to from) true s = copied_all s
step (copy_fd_all to from) false s = cut
step (unlink name) r s = leaving (status s)
step (rmdir name) r s = leaving (status s)
step (stat name) (some time) s = timed time s
step fork r s = forked r s
step (waitpid pid) r s = ended s
step (open_read name) (some fd) s = sending fd
step c r s = s

abbrev pub flow : Protocol editor (Unit {0})
flow = record {
  Stage = Stage;
  Allowed = λ s c. Guard c s;
  next = λ s c r. step c r s;
  Result = λ _ _. ⊥;
  Exit = λ s n. n ≡ status s;
}
