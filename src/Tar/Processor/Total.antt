-- ===== src/Tar/Processor/Total.antt =====
-- Over an input of finitely many bytes the loop of `tar_file_processor` ends.
use native.Mathlib.Nat.{le_refl}
use qubes_core_agent_linux.Base.{
  ℕ, zero, suc, ◌+◌, ◌*◌, ◌≤◌, ◌<◌, ◌≡◌, ap, inl, inr, Bool-cases, some, arith, length, length-drop,
  leb, leb→le, Bytes,
}
use qubes_core_agent_linux.Tar.Header.{block_size}
use qubes_core_agent_linux.Tar.Source.{Source, IsStream}
use qubes_core_agent_linux.Tar.Source.Closed.{IsClosed}
use qubes_core_agent_linux.Tar.Machine.{State}
use qubes_core_agent_linux.Tar.Machine.Ends.{Ends, Ends-bind, Ends-elim, Ends-elim_eq, Ends-map}
use qubes_core_agent_linux.Tar.Directory.Ordering.{IsSound}
use qubes_core_agent_linux.Tar.Processor.{Locals, round, processor_loop}
use qubes_core_agent_linux.Tar.Processor.Sound.{round-Kept}

module _ {S : Source} (L : IsStream S) where
  -- No call gives input back.
  at_most : (k : ℕ) → IsClosed S (λ w. length (L.input w) ≤ k)
  at_most k = record {
    read_all = λ n w h. omega (arith, h, L.read_all_shrinks n w);
    copy_file_with_crc = λ n w h. omega (arith, h, L.copy_shrinks n w);
    lseek = λ n w h. omega (arith, h, L.lseek_shrinks n w);
    malloc = λ n w h. omega (arith, h, ap length (L.malloc_input n w));
  }

  -- A block that was read leaves a block less.
  read_block :
      (w : S.World) {buf : Bytes}
      → (S.read_all block_size w).0 ≡ some buf
      → length (L.input (S.read_all block_size w).1) + block_size ≤ length (L.input w)
  read_block w {buf} e = elim (Bool-cases (leb block_size (length (L.input w)))) [
    | inl enough ↦
        let h = leb→le _ _ enough in
        let rest = ap length ((L.read_all_enough block_size w h).1) in
        omega (arith, rest, length-drop block_size (L.input w), h)
    | inr short ↦
        let failed = L.read_all_short block_size w (ground arith) in absurd (cc (failed, e))
  ]

  -- With more fuel than there are whole blocks in the input, the loop does not run out of fuel: the
  -- run returns, or ends the process, or meets what C leaves undefined. It also keeps the order of
  -- the headers right.
  pub tar_file_processor_total :
      (fuel : ℕ) (l : Locals) (s : State S)
      → length (L.input s.world) < block_size * fuel
      → IsSound s
      → Ends ⊥ (λ _ t. IsSound t) IsSound (processor_loop fuel l s)
  unfolding processor_loop
  tar_file_processor_total zero l s enough h = absurd (omega arith)
  tar_file_processor_total (suc fuel) l s enough h =
      let next : State S = record s { world = (S.read_all block_size s.world).1 } in
      let sound : IsSound next = record { table = h.table; ordered = h.ordered } in
      let left = length (L.input next.world) in
      Ends-elim_eq ⊥ (λ _ t. IsSound t) IsSound (S.read_all block_size s.world).0 _ _ sound
        λ buf read.
          Ends-bind ⊥ (λ _ t. IsSound t × (length (L.input t.world) ≤ left)) (λ _ t. IsSound t)
            IsSound (round buf l) _ next
            (Ends-map ⊥ ⊥ _ _ _ IsSound (round buf l next) (λ f. f) (λ _ _ k. (k.sound, k.world))
              (λ _ k. k.sound)
              (round-Kept (λ w. length (L.input w) ≤ left) (at_most left) buf l next
                (record { world = le_refl left; sound = sound })))
            λ again t (h', less).
              Ends-elim ⊥ (λ _ t. IsSound t) IsSound again _ _ h'
                λ m. tar_file_processor_total fuel m t (omega (arith, read_block s.world read)) h'
