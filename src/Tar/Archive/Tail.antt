-- ===== src/Tar/Archive/Tail.antt =====
-- What the loop makes of the rest of an input: of empty blocks, and of anything behind a block that
-- it refuses for a header.
use qubes_core_agent_linux.Base.{
  ℕ, zero, suc, ◌*◌, ◌≤◌, ◌<◌, ◌≡◌, refl, ap, ◌∙◌, false, Bool-cases, inl, inr, ◌++◌, Option, none,
  some, arith, length, length-drop, length-append, take, drop, take-append_eq, drop-append_eq,
  take_all, leb, leb→le, Bytes,
}
use qubes_core_agent_linux.Tar.Header.{block_size, all_zero, tar_trail, ustar_id}
use qubes_core_agent_linux.Tar.Source.{Source, IsStream}
use qubes_core_agent_linux.Tar.Machine.{State, Run, done, ◌>>=◌, M}
use qubes_core_agent_linux.Tar.Entry.{Current, need_read, need_sync_trail, invalid_header}
use qubes_core_agent_linux.Tar.Processor.{Locals, sync_trail, round, processor_loop}
use qubes_core_agent_linux.Tar.Archive.{empty_blocks}
use qubes_core_agent_linux.Tar.Archive.Reaches.{bind_done}
use qubes_core_agent_linux.Tar.Archive.Round.{IsDue}
use qubes_core_agent_linux.Tar.Archive.Blank.{
  IsStuck, stuck, zeros, length-zeros, empty_blocks-suc, empty_not_header, round-refused,
  round_behind, round_empty,
}

module _ {S : Source} (L : IsStream S) where
  -- What follows on a block that was read.
  abbrev pub then_loop : ℕ → Option Locals → M S (Unit {0})
  then_loop fuel again t = elim again [ none ↦ done tt t | some m ↦ processor_loop fuel m t ]

  abbrev pub Quiet : Run S (Unit {0}) → State S → Type 0
  Quiet r s = (t : State S) × (r ≡ done tt t) × (t.calls ≡ s.calls)

  -- The loop after a round that did not end it.
  pub then_round :
      (fuel : ℕ) (block : Bytes) (l : Locals) (s : State S) {m : Locals} {t : State S}
      → round block l s ≡ done (some m) t
      → (round block l >>= then_loop fuel) s ≡ processor_loop fuel m t
  then_round fuel block l s e = bind_done (round block l) (then_loop fuel) s e

  -- The loop reads a block where there is one, and else ends.
  pub loop_read :
      (fuel : ℕ) (l : Locals) (s : State S)
      → block_size ≤ length (L.input s.world)
      → (w : S.World) × (L.input w ≡ drop block_size (L.input s.world))
        × (processor_loop (suc fuel) l s
            ≡ (round (take block_size (L.input s.world)) l >>= then_loop fuel)
                (record s { world = w }))
  unfolding processor_loop
  loop_read fuel l s enough =
      let (read, left) = L.read_all_enough block_size s.world enough in
      ((S.read_all block_size s.world).1, left, rw (processor_loop, read))

  loop_end :
      (fuel : ℕ) (l : Locals) (s : State S)
      → length (L.input s.world) < block_size
      → Quiet (processor_loop (suc fuel) l s) s
  unfolding processor_loop
  loop_end fuel l s short = (
    record s { world = (S.read_all block_size s.world).1 },
    rw (processor_loop, L.read_all_short block_size s.world short),
    refl,
  )

  pub loop_read_eq :
      (fuel : ℕ) (l : Locals) (s : State S) (block rest : Bytes)
      → length block ≡ block_size
      → L.input s.world ≡ block ++ rest
      → (w : S.World) × (L.input w ≡ rest)
        × (processor_loop (suc fuel) l s
            ≡ (round block l >>= then_loop fuel) (record s { world = w }))
  loop_read_eq fuel l s block rest whole input =
      let size = ap length input ∙ length-append block rest in
      let (w, left, run) = loop_read fuel l s (omega (arith, size, whole)) in
      (
        w,
        left ∙ ap (drop block_size) input ∙ drop-append_eq block_size block rest whole,
        run
            ∙ ap (λ b. (round b l >>= then_loop fuel) (record s { world = w }))
                (ap (take block_size) input ∙ take-append_eq block_size block rest whole),
      )

  -- Nothing comes of what stands behind such a result.
  pub loop_stuck :
      (fuel : ℕ) (c : Current) (n : ℕ) (s : State S)
      → IsStuck c
      → length (L.input s.world) < block_size * fuel
      → Quiet (processor_loop fuel (stuck c n) s) s
  loop_stuck zero c n s h enough = absurd (omega arith)
  loop_stuck (suc fuel) c n s h enough =
      elim (Bool-cases (leb block_size (length (L.input s.world)))) [
        | inl more ↦
            let (w, left, run) = loop_read fuel (stuck c n) s (leb→le _ _ more) in
            let enough' = leb→le _ _ more in
            let (t, e, quiet) =
              loop_stuck fuel c n (record s { world = w }) h
                (omega
                  (arith, enough', ap length left, length-drop block_size (L.input s.world))) in
            (t, run ∙ then_round fuel _ (stuck c n) _ (round_behind _ c n _ h) ∙ e, quiet)
        | inr short ↦ loop_end fuel (stuck c n) s (ground arith)
      ]

  loop_refuses :
      (fuel : ℕ) (l : Locals) (s : State S) (block rest : Bytes)
      → length block ≡ block_size
      → L.input s.world ≡ block ++ rest
      → (sync_trail block l).current ≡ need_read
      → ustar_id block block_size ≡ false
      → length rest < block_size * fuel
      → Quiet (processor_loop (suc fuel) l s) s
  loop_refuses fuel l s block rest whole input due other enough =
      let (w, left, run) = loop_read_eq fuel l s block rest whole input in
      let (t, e, quiet) =
        loop_stuck fuel invalid_header (sync_trail block l).sync_count (record s { world = w }) tt
          (omega (arith, ap length left)) in
      (t, run ∙ then_round fuel block l _ (round-refused block l _ due other) ∙ e, quiet)

  -- A block that is neither empty nor a header ends the work where a header is due.
  pub loop_junk :
      (fuel : ℕ) (l : Locals) (s : State S) (block rest : Bytes)
      → length block ≡ block_size
      → L.input s.world ≡ block ++ rest
      → IsDue l
      → all_zero block ≡ false
      → ustar_id block block_size ≡ false
      → length rest < block_size * fuel
      → Quiet (processor_loop (suc fuel) l s) s
  unfolding sync_trail tar_trail
  loop_junk fuel l s block rest whole input (inl e) junk other enough =
      loop_refuses fuel l s block rest whole input (rw (sync_trail, e) e) other enough
  loop_junk fuel l s block rest whole input (inr e) junk other enough =
      let whole_block = take_all block_size block (omega (arith, whole)) in
      loop_refuses fuel l s block rest whole input (rw (sync_trail, e, whole_block, junk)) other
        enough

  loop_synced :
      (fuel n blocks : ℕ) (s : State S)
      → L.input s.world ≡ empty_blocks blocks
      → blocks < fuel
      → Quiet (processor_loop fuel (record { current = need_sync_trail; sync_count = n }) s) s
  loop_synced zero n blocks s input enough = absurd (omega arith)
  loop_synced (suc fuel) n zero s input enough = loop_end fuel _ s (rw input (omega arith))
  loop_synced (suc fuel) n (suc blocks) s input enough =
      let l : Locals = record { current = need_sync_trail; sync_count = n } in
      let (w, left, run) =
        loop_read_eq fuel l s (zeros block_size) (empty_blocks blocks) (length-zeros block_size)
          (input ∙ empty_blocks-suc blocks) in
      let (t, e, quiet) = loop_synced fuel n blocks (record s { world = w }) left (omega arith) in
      (t, run ∙ then_round fuel _ l _ (round_empty n _) ∙ e, quiet)

  -- Empty blocks end the archive.
  pub loop_empty :
      (fuel blocks : ℕ) (l : Locals) (s : State S)
      → L.input s.world ≡ empty_blocks blocks
      → IsDue l
      → blocks < fuel
      → Quiet (processor_loop fuel l s) s
  unfolding sync_trail
  loop_empty zero blocks l s input due enough = absurd (omega arith)
  loop_empty (suc fuel) zero l s input due enough = loop_end fuel l s (rw input (omega arith))
  loop_empty (suc fuel) (suc blocks) l s input (inl e) enough =
      loop_refuses fuel l s (zeros block_size) (empty_blocks blocks) (length-zeros block_size)
        (input ∙ empty_blocks-suc blocks) (rw (sync_trail, e) e) empty_not_header
        (omega (arith, length-zeros (block_size * blocks)))
  loop_empty (suc fuel) (suc blocks) l s input (inr e) enough =
      let same : l ≡ record { current = need_sync_trail; sync_count = l.sync_count } =
        ap (λ (c : Current). record { current = c; sync_count = l.sync_count }) e in
      rw same (loop_synced (suc fuel) l.sync_count (suc blocks) s input enough)
