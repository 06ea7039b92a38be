-- ===== src/Tar/Archive/NoMemory.antt =====
-- What the loop of qubes-rpc/tar2qfile.c makes of an entry for which there was no memory.
use qubes_core_agent_linux.Base.{
  ℕ, suc, ◌*◌, ◌<◌, ◌≡◌, ap, ◌∙◌, ◌++◌, some, arith, length, length-append, take, take-append_eq,
  Bytes,
}
use qubes_core_agent_linux.Tar.Header.{block_size}
use qubes_core_agent_linux.Tar.Source.{Source, IsStream}
use qubes_core_agent_linux.Tar.Machine.{State, done, no_memory, ◌>>=◌}
use qubes_core_agent_linux.Tar.Entry.{need_read, memory_alloc_failed, ustar_rd}
use qubes_core_agent_linux.Tar.Processor.{
  Locals, sync_trail, caught, run_entry, read_current, skip_current, round, processor_loop,
}
use qubes_core_agent_linux.Tar.Archive.Reaches.{bind_done}
use qubes_core_agent_linux.Tar.Archive.Blank.{stuck}
use qubes_core_agent_linux.Tar.Archive.Tail.{then_loop, Quiet, then_round, loop_stuck}

round_no_memory :
    {S : Source} (block : Bytes) (l : Locals) (s t : State S)
    → (sync_trail block l).current ≡ need_read
    → ustar_rd block s ≡ no_memory t
    → round block l s ≡ done (some (stuck memory_alloc_failed (sync_trail block l).sync_count)) t
unfolding round read_current run_entry skip_current
round_no_memory block l s t due e =
    let step : read_current block (sync_trail block l).current s ≡ done memory_alloc_failed t =
      rw due (ap caught e) in
    bind_done (read_current block (sync_trail block l).current) _ s step

module _ {S : Source} (L : IsStream S) where
  -- The state behind the read of a block.
  abbrev pub behind_read : State S → State S
  behind_read s = record s { world = (S.read_all block_size s.world).1 }

  -- Where an entry that is due ends for lack of memory, whatever was sent for it by then and whatever
  -- stands behind its header: with more rounds than whole blocks in the input that is left, the run
  -- returns as it does for a whole archive, and sends and reports nothing more.
  pub tar_file_processor_no_memory :
      (fuel : ℕ) (l : Locals) (s t : State S) (block rest : Bytes)
      → length block ≡ block_size
      → L.input s.world ≡ block ++ rest
      → (sync_trail block l).current ≡ need_read
      → ustar_rd block (behind_read s) ≡ no_memory t
      → length (L.input t.world) < block_size * fuel
      → Quiet L (processor_loop (suc fuel) l s) t
  unfolding processor_loop
  tar_file_processor_no_memory fuel l s t block rest whole input due failed enough =
      let size = ap length input ∙ length-append block rest in
      let (read, _) = L.read_all_enough block_size s.world (omega (arith, size, whole)) in
      let got =
        read
        ∙ ap (λ i. some (take block_size i)) input
        ∙ ap some (take-append_eq block_size block rest whole) in
      let (u, e, quiet) =
        loop_stuck L fuel memory_alloc_failed (sync_trail block l).sync_count t tt enough in
      let step : processor_loop (suc fuel) l s
          ≡ (round block l >>= then_loop L fuel) (behind_read s) =
        rw (processor_loop, got) in
      (
        u,
        step
            ∙ then_round L fuel block l (behind_read s)
                (round_no_memory block l (behind_read s) t due failed)
            ∙ e,
        quiet,
      )
