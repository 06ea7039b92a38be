-- ===== src/FileEditor/Removal.antt =====
-- What qubes-rpc/vm-file-editor.c leaves behind, as a protocol.
use qubes_core_agent_linux.Base.{
  ℕ, ◌≡◌, inl, inr, refl, Bool, true, false, not, Option, none, some, ◌==◌, Bool-cases,
  Option-cases, Bytes, if◌then◌else◌,
}
use qubes_core_agent_linux.Process.{
  Fork, fork_failed, child, parent, Program, returns, Obeys, up_to, Obeys-bind, ◌>>=◌, either_reply,
  any_option,
}
use qubes_core_agent_linux.FileEditor.{
  editor, Cleanup, Directory, no_cleanup, Received, valid_domain, read_name, take_name,
  get_filename, get_directory, copy_file_by_name, cleanup_file, leave, send_file_back, run_child,
  after_fork, edit, main,
}
use qubes_core_agent_linux.FileEditor.Stages.{Stage, outside, pending, Allowed, next, removal}

abbrev early : Option Bytes → Cleanup
early d = record { filename = none; dirname = d; at_exit = false }

abbrev late : Option Bytes → Option Bytes → Cleanup
late f d = record { filename = f; dirname = d; at_exit = true }

-- The handler removes what is pending, whether or not it succeeds.
leave-IsClean :
    {A : Type 0} (R : Stage → A → Type 0) (f d : Option Bytes) (n : ℕ)
    → Obeys (up_to removal R) (pending f d) (leave (late f d) n)
unfolding leave cleanup_file Allowed next
leave-IsClean R none none n = (refl, refl)
leave-IsClean R none (some d) n =
    ((refl, refl), either_reply _ (tt, λ _. (refl, refl)) (refl, refl))
leave-IsClean R (some f) none n = (refl, either_reply _ (tt, λ _. (refl, refl)) (refl, refl))
leave-IsClean R (some f) (some d) n = (
  refl,
  either_reply _ (tt, λ _. ((refl, refl), either_reply _ (tt, λ _. (refl, refl)) (refl, refl)))
      ((refl, refl), either_reply _ (tt, λ _. (refl, refl)) (refl, refl)),
)

-- Whatever would follow.
leave-then :
    {A B : Type 0} (R : Stage → B → Type 0) (f d : Option Bytes) (n : ℕ) (k : A → Program editor B)
    → Obeys (up_to removal R) (pending f d) (leave (late f d) n >>= k)
leave-then R f d n k =
    Obeys-bind (up_to removal R) (λ _ _. ⊥) (pending f d) (leave (late f d) n) k
      (leave-IsClean (λ _ _. ⊥) f d n) λ t b h. absurd h

abbrev IsEarly : Stage → Directory → Type 0
IsEarly s r =
    (d : Option Bytes) × (dir : Bytes) × (s ≡ outside d)
    × (r ≡ record { dir = dir; cleanup = early d })

get_directory-IsEarly : Obeys (up_to removal IsEarly) (outside none) (get_directory no_cleanup)
unfolding get_directory leave Allowed next
get_directory-IsEarly = (
  tt,
  any_option _ (tt, λ _. refl)
      (λ domain. elim (Bool-cases (valid_domain domain)) [
        | inl e ↦ rw e (
          tt,
          either_reply _ (tt, λ _. refl)
              (tt, any_option _ (tt, λ _. refl) (λ dir. (refl, λ copy. (copy, dir, refl, refl)))),
        )
        | inr e ↦ rw e (tt, λ _. refl)
      ]),
)

abbrev IsNamed : Stage → Received → Type 0
IsNamed s r = (d : Option Bytes) × (s ≡ outside d) × (r.cleanup ≡ early d)

take_name-IsNamed :
    (dir : Bytes) (d : Option Bytes)
    → Obeys
        (up_to removal IsNamed)
        (outside d)
        (take_name (record { dir = dir; cleanup = early d }))
unfolding take_name leave Allowed next
take_name-IsNamed dir d = (
  tt,
  any_option _ refl (λ buf. elim (Option-cases (read_name buf)) [
    | inl g ↦ rw g (tt, λ _. refl)
    | inr (n, g) ↦ rw g (tt, either_reply _ (tt, λ _. refl) (d, refl, refl))
  ]),
)

get_filename-IsNamed : Obeys (up_to removal IsNamed) (outside none) (get_filename no_cleanup)
unfolding get_filename
get_filename-IsNamed =
    Obeys-bind (up_to removal IsNamed) IsEarly (outside none) (get_directory no_cleanup) take_name
      get_directory-IsEarly λ s r (d, dir, e, f). rw (e, f) (take_name-IsNamed dir d)

abbrev IsLate : Stage → Cleanup → Type 0
IsLate s c = (f d : Option Bytes) × (s ≡ pending f d) × (c ≡ late f d)

copy-IsLate :
    (d : Option Bytes) (path : Bytes)
    → Obeys (up_to removal IsLate) (outside d) (copy_file_by_name (early d) path)
unfolding copy_file_by_name Allowed next leave
copy-IsLate d path = (
  tt,
  any_option _ (tt, λ _. refl)
      (λ fd. (
        refl,
        λ f. (tt, either_reply _ (leave-then IsLate f d 1 _) (tt, λ _. (f, d, refl, refl))),
      )),
)

abbrev Same : Option Bytes → Option Bytes → Stage → Unit {0} → Type 0
Same f d s _ = s ≡ pending f d

send_file_back-Same :
    (f d : Option Bytes) (path : Bytes)
    → Obeys (up_to removal (Same f d)) (pending f d) (send_file_back (late f d) path)
unfolding send_file_back Allowed next
send_file_back-Same f d path = (
  tt,
  any_option _ ((tt, λ _. leave-then (Same f d) f d 1 _))
      (λ fd. (tt, either_reply _ (leave-then (Same f d) f d 1 _) (tt, λ _. (tt, λ _. refl)))),
)

after_fork-Same :
    (f d : Option Bytes) (path : Bytes) (r : Fork)
    → Obeys (up_to removal (Same f d)) (pending f d) (after_fork (late f d) path r)
unfolding run_child Allowed next
after_fork-Same f d path fork_failed = (tt, λ _. leave-IsClean (Same f d) f d 1)
after_fork-Same f d path child = (
  tt,
  λ _. (
    tt,
    λ _. (
      tt,
      λ _. (
        tt,
        any_option _ ((tt, λ _. leave-then (Same f d) f d 1 _)) (λ fd. (
          tt,
          λ _.
              (tt, λ _. (tt, λ _. (tt, λ _. (tt, λ _. (tt, λ _. leave-IsClean (Same f d) f d 1))))),
        )),
      ),
    ),
  ),
)
after_fork-Same f d path (parent pid) = (
  tt,
  λ status. elim (Bool-cases (status == 0)) [ inl e ↦ rw e refl | inr e ↦ rw e (tt, λ _. refl) ],
)

sent-Same :
    (changed : Bool) (f d : Option Bytes) (path : Bytes)
    → Obeys
        (up_to removal (Same f d))
        (pending f d)
        (if changed then send_file_back (late f d) path else returns tt)
sent-Same true f d path = send_file_back-Same f d path
sent-Same false f d path = refl

edit-IsClean :
    (f d : Option Bytes) (path : Bytes) → Obeys removal (pending f d) (edit (late f d) path)
unfolding edit Allowed next
edit-IsClean f d path = (
  tt,
  any_option _ (tt, λ _. leave-then (λ _ _. ⊥) f d 1 _)
      (λ pre. (
        tt,
        λ pid.
            Obeys-bind removal (Same f d) (pending f d) (after_fork (late f d) path pid) _
              (after_fork-Same f d path pid)
              λ s _ e. rw e (
                tt,
                any_option _ (tt, λ _. leave-then (λ _ _. ⊥) f d 1 _)
                    (λ post.
                      Obeys-bind removal (Same f d) (pending f d)
                        (if not (pre == post) then send_file_back (late f d) path else returns tt) _
                        (sent-Same (not (pre == post)) f d path)
                        λ t _ g. rw g (leave-IsClean (λ _ _. ⊥) f d 0)),
              ),
      )),
)

-- Whatever each call replies: the program removes nothing but the file it created and the directory
-- it made, and each process that ends behind the creation of the file has first tried to remove the
-- file, then the directory, as far as there was memory for a copy of their names. A process that ends
-- before that ends with status 1. The program ends in no other way than by `exit`.
pub main-removal : Obeys removal (outside none) main
unfolding main Allowed next
main-removal =
    Obeys-bind removal IsNamed (outside none) (get_filename no_cleanup) _ get_filename-IsNamed
      λ s r (d, e, h). rw e (
        Obeys-bind removal IsLate (outside d) (copy_file_by_name r.cleanup r.path) _
          (rw h (copy-IsLate d r.path))
          λ t c (f, d', g, k). rw g (elim (Bool-cases r.view_only) [
            | inl v ↦ rw v (tt, λ _. rw k (edit-IsClean f d' r.path))
            | inr v ↦ rw v (rw k (edit-IsClean f d' r.path))
          ]))
