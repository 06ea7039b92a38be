-- ===== src/GuiFatal/Dialog.antt =====
-- Who shows the dialog of qubes-rpc/gui-fatal.c, and how the processes end.
use qubes_core_agent_linux.Base.{ℕ, zero, suc, ◌≡◌, refl, true, false, arith, ◌==◌, Bytes, codes}
use qubes_core_agent_linux.Process.{
  Fork, fork_failed, child, parent, Protocol, Obeys, up_to, Obeys-bind, either_reply, any_number,
}
use qubes_core_agent_linux.GuiFatal.{
  Call, Reply, messenger, fork, geteuid, getuid, setuid, perror, execlp, asprintf, run_child,
  after_fork, produce_message, gui_fatal, gui_nonfatal,
}

-- The process before the fork, the child, what it knows of its user, the parent, and the process that
-- has no memory for the message.
pub data Stage : Type 0 where
  begun in_child in_parent no_text : Stage
  root plain refused : Stage
  as_user : ℕ → Stage

abbrev IsHarmless : Call → Type 0
IsHarmless fork = ⊥
IsHarmless geteuid = ⊥
IsHarmless getuid = ⊥
IsHarmless (setuid _) = ⊥
IsHarmless (execlp _) = ⊥
IsHarmless _ = Unit

-- The dialog is started only by the child, only if it is not root or has tried not to be, with the
-- user that started the program.
unfoldable pub Allowed : Stage → Call → Type 0
Allowed begun fork = Unit
Allowed in_child geteuid = Unit
Allowed root getuid = Unit
Allowed (as_user uid) (setuid u) = u ≡ uid
Allowed plain (execlp text) = Unit
Allowed s c = IsHarmless c

unfoldable pub next : Stage → (c : Call) → Reply c → Stage
next begun fork child = in_child
next begun fork (parent pid) = in_parent
next begun (asprintf text) false = no_text
next in_child geteuid zero = root
next in_child geteuid (suc n) = plain
next root getuid uid = as_user uid
next (as_user uid) (setuid u) true = plain
next (as_user uid) (setuid u) false = refused
next refused (perror text) r = plain
next s c r = s

abbrev HasReturned : Stage → Type 0
HasReturned in_parent = Unit
HasReturned no_text = Unit
HasReturned _ = ⊥

-- A message that is not fatal lets only the process that asked for it go on.
abbrev pub dialog : Protocol messenger (Unit {0})
dialog = record {
  Stage = Stage;
  Allowed = Allowed;
  next = next;
  Result = λ s _. HasReturned s;
  Exit = λ _ n. n ≡ 1;
}

-- A fatal one lets none.
abbrev pub fatal_dialog : Protocol messenger (Unit {0})
fatal_dialog = up_to dialog (λ _ _. ⊥)

run_child-IsDialog :
    {A : Type 0} (R : Stage → A → Type 0) (text : Bytes)
    → Obeys (up_to dialog R) in_child (run_child text)
unfolding run_child Allowed next
run_child-IsDialog R text = (
  tt,
  any_number _
      (
        tt,
        λ uid.
            (refl, either_reply _ (tt, λ _. (tt, λ _. (tt, λ _. refl))) (tt, λ _. (tt, λ _. refl))),
      )
      (λ n. let user : (suc n == 0) ≡ false = ground arith in rw user (tt, λ _. (tt, λ _. refl))),
)

after_fork-IsDialog :
    (text : Bytes) (r : Fork) → Obeys dialog (next begun fork r) (after_fork text r)
unfolding Allowed next
after_fork-IsDialog text fork_failed = refl
after_fork-IsDialog text child = run_child-IsDialog (λ s _. HasReturned s) text
after_fork-IsDialog text (parent pid) = tt

produce_message-IsDialog :
    (kind message : Bytes) → Obeys dialog begun (produce_message kind message)
unfolding produce_message Allowed next
produce_message-IsDialog kind message = (
  tt,
  λ name. (tt, λ error. (tt, either_reply _ (tt, λ _. tt) (tt, λ _. (tt, after_fork-IsDialog _)))),
)

-- For every message and all replies: the dialog is started only by the child, and only if it is not
-- root, or has changed to the user that started the program, or has reported that it could not. A
-- message that is not fatal returns in the process that asked for it alone, and a fatal one in none.
-- Every end is with status 1.
pub gui_message-dialog :
    (message : Bytes)
    → Obeys dialog begun (gui_nonfatal message) × Obeys fatal_dialog begun (gui_fatal message)
unfolding Allowed next
gui_message-dialog message = (
  produce_message-IsDialog (codes "Information") message,
  Obeys-bind fatal_dialog (λ s _. HasReturned s) begun
      (produce_message (codes "Fatal error") message) _
      (produce_message-IsDialog (codes "Fatal error") message) λ s _ h. refl,
)
