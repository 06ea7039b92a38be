-- ===== src/Tar/Archive/Blank.antt =====
-- Rounds of the loop of qubes-rpc/tar2qfile.c that send nothing: on an empty block, on a block that is
-- no header, and behind a result that no test looks for.
use qubes_core_agent_linux.Base.{
  ℕ, zero, suc, ◌+◌, ◌*◌, ◌≡◌, refl, ap, ◌∙◌, false, Bool-cases, inl, inr, ◌∷◌, ◌++◌, some, arith,
  length, length-replicate, replicate, take_all, Bytes,
}
use qubes_core_agent_linux.Tar.Header.{block_size, tar_trail, ustar_id}
use qubes_core_agent_linux.Tar.Source.{Source}
use qubes_core_agent_linux.Tar.Machine.{State, done}
use qubes_core_agent_linux.Tar.Entry.{
  Current, need_nothing, need_skip, need_skip_file, need_read, need_sync_trail, invalid_header,
  memory_alloc_failed, ustar_rd,
}
use qubes_core_agent_linux.Tar.Processor.{
  Locals, sync_trail, run_entry, read_current, skip_current, round,
}
use qubes_core_agent_linux.Tar.Archive.{empty_blocks}
use qubes_core_agent_linux.Tar.Archive.Round.{named}

-- The results that no test of a round looks for, and the variables behind one.
abbrev pub IsStuck : Current → Type 0
IsStuck invalid_header = Unit
IsStuck memory_alloc_failed = Unit
IsStuck _ = ⊥

abbrev pub stuck : Current → ℕ → Locals
stuck c n = record { current = c; sync_count = n }

abbrev pub zeros : ℕ → Bytes
zeros n = replicate n 0

pub length-zeros : (n : ℕ) → length (zeros n) ≡ n
length-zeros n = length-replicate n 0

zeros_add : (m n : ℕ) → zeros (m + n) ≡ zeros m ++ zeros n
zeros_add zero n = ap zeros (omega arith)
zeros_add (suc m) n =
    let e : suc m + n ≡ suc (m + n) = omega arith in ap zeros e ∙ ap (◌∷◌ 0) (zeros_add m n)

pub empty_blocks-suc :
    (blocks : ℕ) → empty_blocks (suc blocks) ≡ zeros block_size ++ empty_blocks blocks
empty_blocks-suc blocks = ap zeros (omega arith) ∙ zeros_add block_size (block_size * blocks)

-- An empty block is no header.
pub empty_not_header : ustar_id (zeros block_size) block_size ≡ false
empty_not_header = elim (Bool-cases (ustar_id (zeros block_size) block_size)) [
  | inl valid ↦ absurd (named (zeros block_size) valid refl)
  | inr other ↦ other
]

module _ {S : Source} where
  -- A block that is no header, where one is to be read.
  pub round-refused :
      (block : Bytes) (l : Locals) (s : State S)
      → (sync_trail block l).current ≡ need_read
      → ustar_id block block_size ≡ false
      → round block l s ≡ done (some (stuck invalid_header (sync_trail block l).sync_count)) s
  unfolding round read_current run_entry ustar_rd skip_current
  round-refused block l s due other = rw (round, due, read_current, run_entry, ustar_rd, other)

  pub round_behind :
      (block : Bytes) (c : Current) (n : ℕ) (s : State S)
      → IsStuck c
      → round block (stuck c n) s ≡ done (some (stuck c n)) s
  unfolding round sync_trail read_current skip_current
  round_behind block invalid_header n s h = refl
  round_behind block memory_alloc_failed n s h = refl
  round_behind block need_nothing n s h = absurd h
  round_behind block need_skip n s h = absurd h
  round_behind block need_skip_file n s h = absurd h
  round_behind block need_read n s h = absurd h
  round_behind block need_sync_trail n s h = absurd h

  pub round_empty :
      (n : ℕ) (s : State S)
      → let l : Locals = record { current = need_sync_trail; sync_count = n } in
        round (zeros block_size) l s ≡ done (some l) s
  unfolding round sync_trail tar_trail read_current skip_current
  round_empty n s =
      let whole = take_all block_size (zeros block_size) (omega (arith, length-zeros block_size)) in
      rw whole refl
