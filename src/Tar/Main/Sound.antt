-- ===== src/Tar/Main/Sound.antt =====
-- The order of the headers over whole runs of the program, with every way to end.
use qubes_core_agent_linux.Base.{
  ℕ, ◌≡◌, refl, sym, true, List, [], ◌∷◌, ◌++◌, append-nil, Option, none, some, length, Bytes,
  codes, strcmp_eq, ◌*◌,
}
use qubes_core_agent_linux.Tar.Source.{Source}
use qubes_core_agent_linux.Tar.Machine.{
  Call, pack_init, set_ignore_quota_error, set_nonblock, open_error, no_input, notify_end,
  set_block, perror, State, Run,
}
use qubes_core_agent_linux.Tar.Machine.Ends.{Ends, Ends-bind, Ends-if, Ends-elim}
use qubes_core_agent_linux.Tar.Directory.Ordering.{new_dirs, Fits, IsSound, IsSound-call}
use qubes_core_agent_linux.Tar.Processor.{start, tar_file_processor}
use qubes_core_agent_linux.Tar.Processor.Sound.{tar_file_processor-IsSound}
use qubes_core_agent_linux.Tar.Main.{
  Input, Files, filters_of, open_input, choose_input, make_filters, use_input, process, main,
}

-- The end of the stream has been told, and nothing is sent behind it.
abbrev pub IsEnded : {S : Source} → State S → Type 0
IsEnded s = (before : List Call) × (s.calls ≡ before ++ (notify_end ∷ []))

-- Status 0, behind the end of the stream.
abbrev pub Ended : {S : Source} → ℕ → State S → Type 0
Ended status t = (status ≡ 0) × IsEnded t × IsSound t

module _ {S : Source} (F : Files S) where
  abbrev KeptBy : {A : Type 0} → Run S A → Type 0
  KeptBy r = Ends (Unit {0}) (λ _ t. IsSound t) IsSound r

  plain :
      (c : Call) (s : State S)
      → new_dirs c ≡ []
      → Fits s.dirs_headers_sent c
      → IsSound s
      → IsSound (record s { calls = s.calls ++ (c ∷ []) })
  plain c s none_new fits h =
      IsSound-call s c s.dirs_headers_sent h fits
        (rw none_new (sym (append-nil s.dirs_headers_sent)))

  open_input-IsSound : (entry : Bytes) (s : State S) → IsSound s → KeptBy (open_input F entry s)
  unfolding open_input
  open_input-IsSound entry s h =
      let (fd, w) = F.open_file entry s.world in
      let h' : IsSound (record s { world = w }) = record { table = h.table; ordered = h.ordered } in
      Ends-elim (Unit {0}) (λ _ t. IsSound t) IsSound fd _ _ (plain (open_error entry) _ refl tt h')
        λ n. h'

  choose_input-IsSound :
      (argv : List Bytes) (s : State S) → IsSound s → KeptBy (choose_input F argv s)
  unfolding choose_input
  choose_input-IsSound [] s h = h
  choose_input-IsSound (program ∷ []) s h = h
  choose_input-IsSound (program ∷ (entry ∷ args)) s h =
      Ends-if (Unit {0}) (λ _ t. IsSound t) IsSound (strcmp_eq entry (codes "-")) _ _ h
        (open_input-IsSound entry s h)

  make_filters-IsSound :
      (argv : List Bytes) (s : State S) → IsSound s → KeptBy (make_filters F argv s)
  unfolding make_filters
  make_filters-IsSound argv s h =
      let (enough, w) = S.malloc (length (filters_of argv).filters * 4) s.world in
      let h' : IsSound (record s { world = w }) = record { table = h.table; ordered = h.ordered } in
      Ends-if (Unit {0}) (λ _ t. IsSound t) IsSound enough _ _
        (record { table = h.table; ordered = h.ordered }) (plain perror _ refl tt h')

  use_input-IsSound : (i : Input) (s : State S) → IsSound s → KeptBy (use_input F i s)
  unfolding use_input
  use_input-IsSound i s h =
      Ends-if (Unit {0}) (λ _ t. IsSound t) IsSound i.use_stdin _ _ (plain set_block s refl tt h) h

  process-IsSound :
      (fuel : ℕ) (fd : Option ℕ) (s : State S)
      → IsSound s
      → Ends (Unit {0}) Ended IsSound (process F fuel fd s)
  unfolding process
  process-IsSound fuel none s h = plain no_input s refl tt h
  process-IsSound fuel (some fd) s h =
      Ends-bind (Unit {0}) (λ _ t. IsSound t) Ended IsSound (tar_file_processor fuel) _ _
        (tar_file_processor-IsSound fuel start _ (record { table = h.table; ordered = h.ordered }))
        λ _ t k. (refl, (t.calls, refl), plain notify_end t refl tt k)

  -- Whatever the arguments are, whatever the input is and whatever fails: each directory is announced
  -- at most once, the header of every file comes behind the headers of all directories on its way,
  -- and where the program returns, its status is 0, and it has told the end of the stream and sent
  -- nothing behind it.
  pub main-IsSound :
      (fuel : ℕ) (argv : List Bytes) (s : State S)
      → IsSound s
      → Ends (Unit {0}) Ended IsSound (main F fuel argv s)
  unfolding main
  main-IsSound fuel argv s h =
      let h₁ =
        plain (set_nonblock 0) _ refl tt
          (plain (set_ignore_quota_error true) _ refl tt (plain pack_init s refl tt h)) in
      Ends-bind (Unit {0}) (λ _ t. IsSound t) Ended IsSound (choose_input F argv) _ _
        (choose_input-IsSound argv _ h₁)
        λ i t h₂.
          Ends-bind (Unit {0}) (λ _ u. IsSound u) Ended IsSound (make_filters F argv) _ t
            (make_filters-IsSound argv t h₂)
            λ _ u h₃.
              Ends-bind (Unit {0}) (λ _ v. IsSound v) Ended IsSound (use_input F i) _ u
                (use_input-IsSound i u h₃) (λ fd v h₄. process-IsSound fuel fd v h₄)
