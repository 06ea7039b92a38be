-- ===== src/Tar/Processor.antt =====
-- `tar_file_processor` of qubes-rpc/tar2qfile.c: the loop over the blocks of the archive.
pub mod Sound
pub mod Total
use mathlib.Core.Option
use qubes_core_agent_linux.Base.{
  ℕ, zero, suc, ◌+◌, ◌-◌, ◌%◌, ◌^◌, min, Bool, true, false, not, Option, none, some, ltb, ◌==◌,
  Bytes, if◌then◌else◌,
}
use qubes_core_agent_linux.Tar.Header.{block_size, Trail, never_header, tar_trail}
use qubes_core_agent_linux.Tar.Filter.{all_matched}
use qubes_core_agent_linux.Tar.Source.{Source, Seek, moved, espipe, eagain, failed}
use qubes_core_agent_linux.Tar.Machine.{
  perror, Run, done, no_memory, exits, fault, no_fuel, M, pure, ◌>>=◌, ◌>>◌, call, exit,
}
use qubes_core_agent_linux.Tar.Entry.{
  Current, need_skip, need_skip_file, need_read, need_sync_trail, memory_alloc_failed, ustar_rd,
}

-- The local variables that live from one round to the next.
pub record Locals : Type 0 where
  pub current : Current
  pub sync_count : ℕ

abbrev pub start : Locals
start = record { current = need_read; sync_count = 0 }

-- `hdr.filelen` rounded up to whole blocks, in a `size_t`.
unfoldable pub round_up : ℕ → ℕ
round_up n = if ltb 0 (n % block_size) then (n + (block_size - n % block_size)) % 2 ^ 64 else n

abbrev is_never : Trail → Bool
is_never never_header = true
is_never _ = false

-- The first test of a round. In step with `ret != 1`: any block but an empty one.
unfoldable pub sync_trail : Bytes → Locals → Locals
sync_trail buf l = elim l.current [
  | need_sync_trail ↦
      let t = tar_trail buf true l.sync_count in
      if not (is_never t.ret)
      then start
      else record { current = need_sync_trail; sync_count = t.cnt }
  | _ ↦ l
]

module _ {S : Source} where
  abbrev give_up : M S (Unit {0})
  give_up = do call perror; exit 1

  -- What follows on one call of `lseek`; `again` is what `EAGAIN` leads to.
  unfoldable pub seek_result : Run S (Unit {0}) → Seek → M S (Unit {0})
  seek_result again moved s = done tt s
  seek_result again espipe s = done tt (record s { use_seek = false })
  seek_result again eagain s = again
  seek_result again failed s = give_up s

  -- `while (lseek (fd, to_skip, SEEK_CUR) < 0)`, with `tries` tries left.
  unfoldable pub seek_loop : ℕ → ℕ → M S (Unit {0})
  unfolding seek_result
  seek_loop zero to_skip s =
      let (r, w) = S.lseek to_skip s.world in
      let next = record s { world = w } in seek_result (give_up next) r next
  seek_loop (suc tries) to_skip s =
      let (r, w) = S.lseek to_skip s.world in
      let next = record s { world = w } in seek_result (seek_loop tries to_skip next) r next

  -- `while (to_skip > 0)`. Each round takes at least one byte off, so `to_skip` rounds are enough.
  unfoldable pub read_loop : ℕ → ℕ → M S (Unit {0})
  read_loop zero to_skip s = if to_skip == 0 then done tt s else no_fuel
  read_loop (suc fuel) to_skip s =
      let (r, w) = S.read_all (min to_skip block_size) s.world in
      let next = record s { world = w } in
      let rest = read_loop fuel (to_skip - min to_skip block_size) next in
      if to_skip == 0 then done tt s else elim r [ none ↦ exits 1 next | some _ ↦ rest ]

  -- `if (use_seek)` and `if (!use_seek)`, over the content of an entry that is not wanted.
  unfoldable pub seek_content : ℕ → M S (Unit {0})
  seek_content to_skip s = if s.use_seek then seek_loop 3 to_skip s else done tt s

  unfoldable pub read_content : ℕ → M S (Unit {0})
  read_content to_skip s = if not s.use_seek then read_loop to_skip to_skip s else done tt s

  unfoldable pub skip_content : M S (Unit {0})
  skip_content s =
      let to_skip = round_up s.hdr.filelen in (do seek_content to_skip; read_content to_skip) s

  -- A lack of memory is one of the results of `ustar_rd`.
  abbrev pub caught : Run S Current → Run S Current
  caught (no_memory t) = done memory_alloc_failed t
  caught (done c t) = done c t
  caught (exits n t) = exits n t
  caught fault = fault
  caught no_fuel = no_fuel

  -- `current = ustar_rd (…)`
  unfoldable pub run_entry : Bytes → M S Current
  run_entry buf s = caught (ustar_rd buf s)

  -- The second test of a round.
  unfoldable pub read_current : Bytes → Current → M S Current
  read_current buf need_read s = run_entry buf s
  read_current buf c s = done c s

  -- The last test of a round. `none` is the early return, when all filters have matched.
  unfoldable pub skip_current : Current → M S (Option Current)
  skip_current need_skip s = (do skip_content; pure (some need_sync_trail)) s
  skip_current need_skip_file s =
      if all_matched s.filters
      then done none s
      else (do skip_content; pure (some need_sync_trail)) s
  skip_current c s = done (some c) s

  -- One round of the loop, on the block that was read.
  unfoldable pub round : Bytes → Locals → M S (Option Locals)
  round buf l s =
      let l' = sync_trail buf l in
      (do
        c ← read_current buf l'.current
        next ← skip_current c
        pure (Option.map (λ d. record { current = d; sync_count = l'.sync_count }) next))
        s

  -- The loop, with fuel for its rounds.
  unfoldable pub processor_loop : ℕ → Locals → M S (Unit {0})
  processor_loop zero l s = no_fuel
  processor_loop (suc fuel) l s =
      let (r, w) = S.read_all block_size s.world in
      let next = record s { world = w } in
      elim r [
        | none ↦ done tt next
        | some buf ↦
            (do
              again ← round buf l
              λ t. elim again [ none ↦ done tt t | some m ↦ processor_loop fuel m t ])
              next
      ]

  abbrev pub tar_file_processor : ℕ → M S (Unit {0})
  tar_file_processor fuel = processor_loop fuel start
