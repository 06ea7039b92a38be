-- ===== src/Tar/Processor/Sound.antt =====
-- `tar_file_processor` keeps the order of the headers right, for every input and whatever fails.
use native.Mathlib.Nat.{le_refl}
use qubes_core_agent_linux.Base.{
  ℕ, zero, suc, ◌-◌, ◌≤◌, min, ◌≡◌, refl, true, not, Bool-cases, inl, inr, some, arith, ◌==◌, Bytes,
}
use qubes_core_agent_linux.Tar.Header.{block_size}
use qubes_core_agent_linux.Tar.Filter.{all_matched}
use qubes_core_agent_linux.Tar.Source.{Source, Seek, moved, espipe, eagain, failed}
use qubes_core_agent_linux.Tar.Source.Closed.{IsClosed}
use qubes_core_agent_linux.Tar.Machine.{
  perror, State, Run, done, no_memory, exits, fault, no_fuel, pure, ◌>>◌,
}
use qubes_core_agent_linux.Tar.Machine.Ends.{Ends, Ends-bind, Ends-if, Ends-elim, Ends-map}
use qubes_core_agent_linux.Tar.Directory.Ordering.{IsSound}
use qubes_core_agent_linux.Tar.Directory.Announced.{Keeps-world}
use qubes_core_agent_linux.Tar.Entry.{
  Current, need_read, need_skip, need_skip_file, need_sync_trail, ustar_rd,
}
use qubes_core_agent_linux.Tar.Entry.Sound.{Kept, Kept-call, Kept-fields, ustar_rd-Kept}
use qubes_core_agent_linux.Tar.Processor.{
  Locals, round_up, sync_trail, give_up, seek_result, seek_loop, read_loop, seek_content,
  read_content, skip_content, caught, run_entry, read_current, skip_current, round, processor_loop,
}

module _ {S : Source} (W : S.World → Type 0) (closed : IsClosed S W) where
  abbrev KeptBy : {A : Type 0} → Run S A → Type 0
  KeptBy r = Ends ⊥ (λ _ t. Kept W closed t) (Kept W closed) r

  give_up-Kept : (s : State S) → Kept W closed s → KeptBy (give_up s)
  give_up-Kept s k = Kept-call W closed s perror k tt refl

  after_seek :
      (to_skip : ℕ) (s : State S)
      → Kept W closed s
      → Kept W closed (record s { world = (S.lseek to_skip s.world).1 })
  after_seek to_skip s k = Keeps-world W closed s _ k (closed.lseek to_skip s.world k.world)

  seek_result-Kept :
      (again : Run S (Unit {0})) (r : Seek) (s : State S)
      → KeptBy again
      → Kept W closed s
      → KeptBy (seek_result again r s)
  unfolding seek_result
  seek_result-Kept again moved s h k = k
  seek_result-Kept again espipe s h k = Kept-fields W closed s _ k refl refl refl
  seek_result-Kept again eagain s h k = h
  seek_result-Kept again failed s h k = give_up-Kept s k

  seek_loop-Kept :
      (tries to_skip : ℕ) (s : State S) → Kept W closed s → KeptBy (seek_loop tries to_skip s)
  unfolding seek_loop
  seek_loop-Kept zero to_skip s k =
      let k' = after_seek to_skip s k in
      seek_result-Kept _ (S.lseek to_skip s.world).0 _ (give_up-Kept _ k') k'
  seek_loop-Kept (suc tries) to_skip s k =
      let k' = after_seek to_skip s k in
      seek_result-Kept _ (S.lseek to_skip s.world).0 _ (seek_loop-Kept tries to_skip _ k') k'

  read_loop-Kept :
      (fuel to_skip : ℕ) (s : State S)
      → to_skip ≤ fuel
      → Kept W closed s
      → KeptBy (read_loop fuel to_skip s)
  unfolding read_loop
  read_loop-Kept zero to_skip s enough k =
      let done : (to_skip == 0) ≡ true = ground arith in rw done k
  read_loop-Kept (suc fuel) to_skip s enough k = elim (Bool-cases (to_skip == 0)) [
    | inl end ↦ rw end k
    | inr more ↦
        let n = min to_skip block_size in
        let k' = Keeps-world W closed s _ k (closed.read_all n s.world k.world) in
        let left : to_skip - n ≤ fuel = ground arith in
        rw more (
          Ends-elim ⊥ (λ _ t. Kept W closed t) (Kept W closed) (S.read_all n s.world).0 _ _ k'
            (λ _. read_loop-Kept fuel (to_skip - n) _ left k'))
  ]

  seek_content-Kept :
      (to_skip : ℕ) (s : State S) → Kept W closed s → KeptBy (seek_content to_skip s)
  unfolding seek_content
  seek_content-Kept to_skip s k =
      Ends-if ⊥ (λ _ t. Kept W closed t) (Kept W closed) s.use_seek _ _
        (seek_loop-Kept 3 to_skip s k) k

  read_content-Kept :
      (to_skip : ℕ) (s : State S) → Kept W closed s → KeptBy (read_content to_skip s)
  unfolding read_content
  read_content-Kept to_skip s k =
      Ends-if ⊥ (λ _ t. Kept W closed t) (Kept W closed) (not s.use_seek) _ _
        (read_loop-Kept to_skip to_skip s (le_refl to_skip) k) k

  skip_content-Kept : (s : State S) → Kept W closed s → KeptBy (skip_content s)
  unfolding skip_content
  skip_content-Kept s k =
      let n = round_up s.hdr.filelen in
      Ends-bind ⊥ (λ _ t. Kept W closed t) _ (Kept W closed) (seek_content n) _ s
        (seek_content-Kept n s k) (λ _ t h. read_content-Kept n t h)

  run_entry-Kept : (buf : Bytes) (s : State S) → Kept W closed s → KeptBy (run_entry buf s)
  unfolding run_entry
  run_entry-Kept buf s k = go (ustar_rd buf s) (ustar_rd-Kept W closed buf s k)
    where
      go : (r : Run S Current) → KeptBy r → KeptBy (caught r)
      go (done c t) h = h
      go (no_memory t) h = h
      go (exits n t) h = h
      go fault h = h
      go no_fuel h = h

  read_current-Kept :
      (buf : Bytes) (c : Current) (s : State S) → Kept W closed s → KeptBy (read_current buf c s)
  unfolding read_current
  read_current-Kept buf need_read s k = run_entry-Kept buf s k
  read_current-Kept buf _ s k = k

  then_sync-Kept :
      (s : State S) → Kept W closed s → KeptBy ((skip_content >> pure (some need_sync_trail)) s)
  then_sync-Kept s k =
      Ends-bind ⊥ (λ _ t. Kept W closed t) _ (Kept W closed) skip_content _ s
        (skip_content-Kept s k) (λ _ t h. h)

  skip_current-Kept : (c : Current) (s : State S) → Kept W closed s → KeptBy (skip_current c s)
  unfolding skip_current
  skip_current-Kept need_skip s k = then_sync-Kept s k
  skip_current-Kept need_skip_file s k =
      Ends-if ⊥ (λ _ t. Kept W closed t) (Kept W closed) (all_matched s.filters) _ _ k
        (then_sync-Kept s k)
  skip_current-Kept _ s k = k

  pub round-Kept :
      (buf : Bytes) (l : Locals) (s : State S) → Kept W closed s → KeptBy (round buf l s)
  unfolding round
  round-Kept buf l s k =
      let c = (sync_trail buf l).current in
      Ends-bind ⊥ (λ _ t. Kept W closed t) _ (Kept W closed) (read_current buf c) _ s
        (read_current-Kept buf c s k)
        (λ d t h.
          Ends-bind ⊥ (λ _ u. Kept W closed u) _ (Kept W closed) (skip_current d) _ t
            (skip_current-Kept d t h) (λ _ u j. j))

anything : {S : Source} → IsClosed S (λ _. Unit {0})
anything = record {
  read_all = λ _ _ _. tt;
  copy_file_with_crc = λ _ _ _. tt;
  lseek = λ _ _ _. tt;
  malloc = λ _ _ _. tt;
}

round-IsSound :
    {S : Source} (buf : Bytes) (l : Locals) (s : State S)
    → IsSound s
    → Ends (Unit {0}) (λ _ t. IsSound t) IsSound (round buf l s)
round-IsSound buf l s h =
    Ends-map ⊥ (Unit {0}) _ (λ _ t. IsSound t) _ IsSound (round buf l s) (λ _. tt)
      (λ _ _ k. k.sound) (λ _ k. k.sound)
      (round-Kept (λ _. Unit {0}) anything buf l s (record { world = tt; sound = h }))

-- A state in which the order of the headers is right leads to such states only.
pub tar_file_processor-IsSound :
    {S : Source} (fuel : ℕ) (l : Locals) (s : State S)
    → IsSound s
    → Ends (Unit {0}) (λ _ t. IsSound t) IsSound (processor_loop fuel l s)
unfolding processor_loop
tar_file_processor-IsSound zero l s h = tt
tar_file_processor-IsSound {S} (suc fuel) l s h =
    let next : State S = record s { world = (S.read_all block_size s.world).1 } in
    let sound : IsSound next = record { table = h.table; ordered = h.ordered } in
    Ends-elim (Unit {0}) (λ _ t. IsSound t) IsSound (S.read_all block_size s.world).0 _ _ sound
      λ buf.
        Ends-bind (Unit {0}) (λ _ t. IsSound t) (λ _ t. IsSound t) IsSound (round buf l) _ next
          (round-IsSound buf l next sound)
          λ again t h'.
            Ends-elim (Unit {0}) (λ _ t. IsSound t) IsSound again _ _ h'
              λ m. tar_file_processor-IsSound fuel m t h'
