-- ===== src/Unpacker/Confinement.antt =====
-- What the parts of qubes-rpc/qfile-unpacker.c must do before the stream is unpacked, as a protocol.
use qubes_core_agent_linux.Base.{
  ℕ, ◌^◌, ◌%◌, ◌≡◌, refl, sym, ap, append_assoc, Option, none, some, List, [], ◌∷◌, arith, drop,
  get_or, ◌==◌, Bool-cases, inl, inr, Bytes, codes, strcmp_eq,
}
use qubes_core_agent_linux.Process.{
  Fork, fork_failed, child, parent, Obeys, up_to, Obeys-bind, either_reply, any_option,
}
use qubes_core_agent_linux.Unpacker.{
  Target, fork, exited_status, after_fork, prepare_creds_return_dir, given_target, default_target,
  subdir, target, parse_options, run_child, run_parent, enter, main,
}
use qubes_core_agent_linux.Unpacker.Stages.{
  Stage, begun, given, unknown, known, homed, settled, incoming, ready, mounted, confined, waiting,
  released, Allowed, next, confinement,
}

prepare-IsReady :
    (uid : ℕ) (d : Option Bytes)
    → Obeys
        (up_to confinement (λ s (home : Bytes). s ≡ settled uid d home))
        (known uid d)
        (prepare_creds_return_dir uid)
unfolding prepare_creds_return_dir Allowed next
prepare-IsReady uid d = (
  refl,
  any_option _ (tt, λ _. refl)
      (λ p. (
        tt,
        λ _. (
          tt,
          λ _. (
            refl,
            either_reply _ (tt, λ _. refl)
                (
                  (refl, refl),
                  either_reply _ (tt, λ _. refl) (refl, either_reply _ (tt, λ _. refl) refl),
                ),
          ),
        ),
      )),
)

run_child-IsConfined : (uid : ℕ) → Obeys confinement (confined uid) (run_child uid)
unfolding run_child Allowed next
run_child-IsConfined uid = (
  tt,
  λ pid. (
    tt,
    either_reply _ (tt, λ _. refl)
        (
          tt,
          any_option _
              (
                tt,
                λ _. (
                  refl,
                  either_reply _ (tt, λ _. refl)
                      (refl, either_reply _ (tt, λ _. refl) (tt, λ _. refl)),
                ),
              )
              (λ fd. (
                tt,
                λ _. (
                  refl,
                  either_reply _ (tt, λ _. refl)
                      (refl, either_reply _ (tt, λ _. refl) (tt, λ _. refl)),
                ),
              )),
        ),
  ),
)

exited_status-Result : (ret : ℕ) → Obeys confinement (released ret) (exited_status ret)
unfolding Allowed
exited_status-Result ret = elim (Bool-cases (ret % 128 == 0)) [
  | inl e ↦ rw e (ground arith, refl)
  | inr e ↦ rw e (tt, λ _. refl)
]

run_parent-IsWaiting : (pid : ℕ) → Obeys confinement (waiting pid) (run_parent pid)
unfolding run_parent Allowed next
run_parent-IsWaiting pid = (
  refl,
  any_option _ (tt, λ _. refl)
      (λ ret. (refl, either_reply _ (tt, λ _. refl) (exited_status-Result ret))),
)

after_fork-IsConfined :
    (uid : ℕ) (f : Fork) → Obeys confinement (next (mounted uid) fork f) (after_fork uid f)
unfolding Allowed next
after_fork-IsConfined uid fork_failed = (tt, λ _. refl)
after_fork-IsConfined uid child = run_child-IsConfined uid
after_fork-IsConfined uid (parent pid) = run_parent-IsWaiting pid

enter-IsConfined : (t : Target) → Obeys confinement (ready t.uid t.incoming_dir) (enter t)
unfolding enter Allowed next
enter-IsConfined t = (
  refl,
  either_reply _ (tt, λ _. refl)
      ((refl, refl, refl), either_reply _ (tt, λ _. refl) (tt, after_fork-IsConfined t.uid)),
)

-- What the options leave: the stage as it was.
parse_options-Same :
    (uid : ℕ) (dir : Bytes) (args : List Bytes)
    → Obeys
        (up_to confinement (λ s (_ : Unit {0}). s ≡ ready uid dir))
        (ready uid dir)
        (parse_options args)
unfolding parse_options Allowed next
parse_options-Same uid dir [] = refl
parse_options-Same uid dir (a ∷ []) = elim (Bool-cases (strcmp_eq a (codes "-v"))) [
  | inl e ↦ rw e (tt, λ _. refl)
  | inr e ↦ elim (Bool-cases (strcmp_eq a (codes "-w"))) [
    | inl f ↦ rw (e, f) (tt, λ _. refl)
    | inr f ↦ rw (e, f) (tt, λ _. refl)
  ]
]
parse_options-Same uid dir (a ∷ b ∷ args) = elim (Bool-cases (strcmp_eq a (codes "-v"))) [
  | inl e ↦ rw e (tt, λ _. parse_options-Same uid dir (b ∷ args))
  | inr e ↦ elim (Bool-cases (strcmp_eq a (codes "-w"))) [
    | inl f ↦ elim (Bool-cases (get_or b 0 0 == b'-')) [
      | inl g ↦ rw (e, f, g) (tt, λ _. parse_options-Same uid dir (b ∷ args))
      | inr g ↦ rw (e, f, g) (tt, λ n. (tt, λ _. parse_options-Same uid dir args))
    ]
    | inr f ↦ rw (e, f) (tt, λ _. refl)
  ]
]

abbrev IsFor : Stage → Target → Type 0
IsFor s t = s ≡ ready t.uid t.incoming_dir

found :
    (uid : ℕ) (home domain : Bytes)
    → ready uid (incoming home domain)
      ≡ ready uid (subdir (subdir home (codes "QubesIncoming")) domain)
found uid home domain =
    ap (ready uid) (sym (append_assoc home (b'/' ∷ codes "QubesIncoming") (b'/' ∷ domain)))

default_target-IsReady : Obeys (up_to confinement IsFor) unknown default_target
unfolding default_target Allowed next
default_target-IsReady = (
  tt,
  λ uid.
      Obeys-bind (up_to confinement IsFor) (λ s (home : Bytes). s ≡ homed uid home) (known uid none)
        (prepare_creds_return_dir uid) _ (prepare-IsReady uid none)
        λ s home e. rw e (
          refl,
          any_option _ (tt, λ _. refl)
              (λ domain. (
                tt,
                either_reply _ (tt, λ _. refl)
                    (
                      tt,
                      λ _. (tt, either_reply _ (tt, λ _. refl) (tt, λ _. found uid home domain)),
                    ),
              )),
        ),
)

given_target-IsReady :
    (user dir : Bytes) → Obeys (up_to confinement IsFor) (given user dir) (given_target user dir)
unfolding given_target Allowed next
given_target-IsReady user dir = (
  refl,
  λ n. elim (Bool-cases n.has_errno) [
    | inl e ↦ rw e (tt, λ _. refl)
    | inr e ↦ rw e (
        Obeys-bind (up_to confinement IsFor) (λ s (_ : Bytes). s ≡ ready (n.value % 2 ^ 32) dir)
          (known (n.value % 2 ^ 32) (some dir)) (prepare_creds_return_dir (n.value % 2 ^ 32)) _
          (prepare-IsReady (n.value % 2 ^ 32) (some dir)) λ s home f. f)
  ],
)

target-IsReady : (argv : List Bytes) → Obeys (up_to confinement IsFor) (begun argv) (target argv)
unfolding target
target-IsReady (program ∷ user ∷ dir ∷ options) = given_target-IsReady user dir
target-IsReady [] = default_target-IsReady
target-IsReady (program ∷ []) = default_target-IsReady
target-IsReady (program ∷ user ∷ []) = default_target-IsReady

-- Whatever the arguments are and whatever each call replies, the program keeps to the protocol. With
-- a user and a directory in the arguments, the user is the number that `strtol` reads in the first
-- where it tells no error, cut to 32 bits, and the directory is the second; else the user is that of
-- the process, and the directory is the one of the remote domain below QubesIncoming in the home
-- directory of the account. The stream is unpacked only by the child, behind the lookup of the account
-- of just that user, the calls that set its groups and its file-system user, the entry of just that
-- directory and its restricted mount, the change of root to it and the change to that user; the
-- parent unmounts only behind the end of the child. The child returns the result of the unpacking, the
-- parent the status of a child that exited, and every other end is with status 1.
pub main-confinement : (argv : List Bytes) → Obeys confinement (begun argv) (main argv)
unfolding main
main-confinement argv =
    Obeys-bind confinement IsFor (begun argv) (target argv) _ (target-IsReady argv) λ s t e. rw e (
      Obeys-bind confinement (λ s (_ : Unit {0}). s ≡ ready t.uid t.incoming_dir)
        (ready t.uid t.incoming_dir) (parse_options (drop 3 argv)) _
        (parse_options-Same t.uid t.incoming_dir (drop 3 argv)) λ s _ f. rw f (enter-IsConfined t))
