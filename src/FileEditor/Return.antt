-- ===== src/FileEditor/Return.antt =====
-- `main` of qubes-rpc/vm-file-editor.c keeps to the protocol for the content of the file.
use qubes_core_agent_linux.Base.{
  ℕ, ◌≡◌, inl, inr, refl, sym, Bool, true, false, not, Option, none, some, ◌==◌, Bool-cases,
  Option-cases, Bytes, if◌then◌else◌,
}
use qubes_core_agent_linux.Process.{
  Fork, fork_failed, child, parent, Program, returns, exits, Obeys, up_to, Obeys-bind, ◌>>=◌,
  either_reply, any_option,
}
use qubes_core_agent_linux.FileEditor.{
  editor, Cleanup, Directory, no_cleanup, valid_domain, read_name, take_name, get_filename,
  get_directory, copy_file_by_name, remove_file, remove_directory, cleanup_file, leave,
  send_file_back, run_child, after_fork, edit, main, fork,
}
use qubes_core_agent_linux.FileEditor.Flow.{
  Stage, nothing, same, filled, in_child, changed, measured, edited, cut, CanLeave, status, flow,
}

-- The handler does nothing to the content.
leaves :
    {A : Type 0} (R : Stage → A → Type 0) (c : Cleanup) (s : Stage) (n : ℕ)
    → n ≡ status s
    → CanLeave s
    → Obeys (up_to flow R) s (leave c n)
unfolding leave cleanup_file
leaves R c s n e can = elim (Bool-cases c.at_exit) [
  | inr b ↦ rw b e
  | inl b ↦ rw b (files c.filename c.dirname)
]
  where
    dirs : (d : Option Bytes) → Obeys (up_to flow R) s (remove_directory d >>= λ _. exits n)
    dirs none = e
    dirs (some d) = (can, either_reply _ (tt, λ _. e) e)

    files :
        (f d : Option Bytes)
        → Obeys (up_to flow R) s (((remove_file f) >>= λ _. remove_directory d) >>= λ _. exits n)
    files none d = dirs d
    files (some f) none = (can, either_reply _ (tt, λ _. e) e)
    files (some f) (some d) = (
      can,
      either_reply _ (tt, λ _. (tt, either_reply _ (tt, λ _. e) e))
          (tt, either_reply _ (tt, λ _. e) e),
    )

leaves_then :
    {A B : Type 0} (R : Stage → B → Type 0) (c : Cleanup) (s : Stage) (n : ℕ)
    (k : A → Program editor B)
    → n ≡ status s
    → CanLeave s
    → Obeys (up_to flow R) s (leave c n >>= k)
leaves_then R c s n k e can =
    Obeys-bind (up_to flow R) (λ _ _. ⊥) s (leave c n) k (leaves (λ _ _. ⊥) c s n e can)
      λ t b h. absurd h

-- No content is touched before the file is made.
abbrev Untouched : {A : Type 0} → Stage → A → Type 0
Untouched s _ = s ≡ nothing

get_directory-Untouched : Obeys (up_to flow Untouched) nothing (get_directory no_cleanup)
unfolding get_directory leave
get_directory-Untouched = (
  tt,
  any_option _ (tt, λ _. refl)
      (λ domain. elim (Bool-cases (valid_domain domain)) [
        | inl e ↦ rw e (
          tt,
          either_reply _ (tt, λ _. refl)
              (tt, any_option _ (tt, λ _. refl) (λ dir. (tt, λ copy. refl))),
        )
        | inr e ↦ rw e (tt, λ _. refl)
      ]),
)

take_name-Untouched : (d : Directory) → Obeys (up_to flow Untouched) nothing (take_name d)
unfolding take_name
take_name-Untouched d = (
  tt,
  any_option _ (leaves_then _ d.cleanup nothing 1 _ refl tt) (λ buf.
      elim (Option-cases (read_name buf)) [
        | inl g ↦ rw g (tt, λ _. leaves_then _ d.cleanup nothing 1 _ refl tt)
        | inr (n, g) ↦
            rw g (tt, either_reply _ (tt, λ _. leaves_then _ d.cleanup nothing 1 _ refl tt) refl)
      ]),
)

copy-filled :
    (c : Cleanup) (path : Bytes)
    → Obeys (up_to flow (λ s (_ : Cleanup). s ≡ filled path)) nothing (copy_file_by_name c path)
unfolding copy_file_by_name
copy-filled c path = (
  refl,
  any_option _ (tt, λ _. leaves_then _ c nothing 1 _ refl tt)
      (λ fd. (
        tt,
        λ f. ((refl, refl), either_reply _ (leaves_then _ _ cut 1 _ refl tt) (tt, λ _. refl)),
      )),
)

-- Behind the two measurements.
abbrev Done : Stage → Unit {0} → Type 0
Done s _ = (status s ≡ 0) × CanLeave s

send_file_back-Done :
    (c : Cleanup) (path : Bytes) → Obeys (up_to flow Done) (changed path) (send_file_back c path)
unfolding send_file_back
send_file_back-Done c path = (
  refl,
  any_option _ (tt, λ _. leaves_then _ c (changed path) 1 _ refl tt)
      (λ fd. (
        (refl, refl),
        either_reply _ (leaves_then _ c cut 1 _ refl tt) (tt, λ _. (tt, λ _. (refl, tt))),
      )),
)

after_fork-edited :
    (c : Cleanup) (path : Bytes) (time : ℕ) (r : Fork)
    → Obeys
        (up_to flow (λ s (_ : Unit {0}). s ≡ edited path time))
        (flow.next (measured path time) fork r)
        (after_fork c path r)
unfolding run_child
after_fork-edited c path time fork_failed = (tt, λ _. leaves _ c (measured path time) 1 refl tt)
after_fork-edited c path time child = (
  tt,
  λ _. (
    tt,
    λ _. (
      tt,
      λ _. (
        tt,
        any_option _ (tt, λ _. leaves_then _ c (in_child path) 1 _ refl tt)
            (λ fd. (
              tt,
              λ _. (
                tt,
                λ _. (
                  tt,
                  λ _. (tt, λ _. (refl, λ _. (tt, λ _. leaves _ c (in_child path) 1 refl tt))),
                ),
              ),
            )),
      ),
    ),
  ),
)
after_fork-edited c path time (parent pid) = (
  refl,
  λ status. elim (Bool-cases (status == 0)) [ inl e ↦ rw e refl | inr e ↦ rw e (tt, λ _. refl) ],
)

edit-flow : (c : Cleanup) (path : Bytes) → Obeys flow (filled path) (edit c path)
unfolding edit
edit-flow c path = (
  refl,
  any_option _ (tt, λ _. leaves_then _ c (filled path) 1 _ refl tt)
      (λ pre. (
        tt,
        λ pid.
            Obeys-bind flow (λ s _. s ≡ edited path pre) (flow.next (measured path pre) fork pid)
              (after_fork c path pid) _ (after_fork-edited c path pre pid)
              λ s _ e. rw e (
                refl,
                any_option _ (tt, λ _. leaves_then _ c (edited path pre) 1 _ refl tt)
                    (λ post. compared pre post (pre == post)),
              ),
      )),
)
  where
    compared :
        (pre post : ℕ) (b : Bool)
        → Obeys flow
            (if b then same else changed path)
            ((if not b then send_file_back c path else returns tt) >>= λ _. leave c 0)
    compared pre post true = leaves _ c same 0 refl tt
    compared pre post false =
        Obeys-bind flow Done (changed path) (send_file_back c path) _ (send_file_back-Done c path)
          λ t _ (e, can). leaves _ c t 0 (sym e) can

-- Whatever each call replies: what the sender gives goes only to the file that was just created, and
-- nothing is done to that file until the copy has ended; where the copy failed, nothing is done but what
-- the handler of the exit removes. That file alone is given to the program that opens it for the user,
-- by the child alone; it is measured before the fork and behind the end of the child; the parent opens
-- it only where the two times of its last change differ, and sends back what it reads there. It is made
-- read-only only before the first measurement. Once the handler removes, there is no further use of the
-- content. The program ends with status 0 just where the times are the same or the whole file was sent,
-- else with status 1.
pub main-flow : Obeys flow nothing main
unfolding main get_filename
main-flow =
    Obeys-bind flow Untouched nothing (get_filename no_cleanup) _
      (Obeys-bind (up_to flow Untouched) Untouched nothing (get_directory no_cleanup) take_name
        get_directory-Untouched λ s d e. rw e (take_name-Untouched d))
      λ s r e. rw e (
        Obeys-bind flow (λ t (_ : Cleanup). t ≡ filled r.path) nothing
          (copy_file_by_name r.cleanup r.path) _ (copy-filled r.cleanup r.path)
          λ t c g. rw g (elim (Bool-cases r.view_only) [
            | inl v ↦ rw v ((refl, refl), λ _. edit-flow c r.path)
            | inr v ↦ rw v (edit-flow c r.path)
          ]))
