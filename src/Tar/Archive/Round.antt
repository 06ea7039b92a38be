-- ===== src/Tar/Archive/Round.antt =====
-- One round of the loop takes one member, and does with it what the abstract view says.
use mathlib.Core.Option
use native.Mathlib.Nat.{pow-le-pow_right}
use qubes_core_agent_linux.Base.{
  ℕ, ◌+◌, ◌^◌, ◌≤◌, ◌<◌, ◌≡◌, ◌≢◌, ◌⊎◌, refl, ap, true, false, Bool-cases, inl, inr, List, [], ◌∷◌,
  ◌++◌, Option, none, some, arith, length, take, drop, length-take, get_or, Bytes,
}
use qubes_core_agent_linux.Tar.Octal.{oct}
use qubes_core_agent_linux.Tar.Octal.Value.{asc_ul-digits_value}
use qubes_core_agent_linux.Tar.Header.{block_size, Field, field, at, all_zero, tar_trail, ustar_id}
use qubes_core_agent_linux.Tar.Source.{Source, IsStream}
use qubes_core_agent_linux.Tar.Machine.{Call, State, Run, done, pure, ◌>>=◌}
use qubes_core_agent_linux.Tar.Entry.{Current, need_read, need_sync_trail, ustar_rd}
use qubes_core_agent_linux.Tar.Processor.{
  Locals, sync_trail, caught, run_entry, read_current, skip_current, round,
}
use qubes_core_agent_linux.Tar.Archive.{
  Member, IsMember, Seen, Outcome, skipped, extracted, finished,
}
use qubes_core_agent_linux.Tar.Archive.Reaches.{bind_done}
use qubes_core_agent_linux.Tar.Archive.Entry.{HasRoom}

-- The next block is to be a header.
abbrev pub IsDue : Locals → Type 0
IsDue l = (l.current ≡ need_read) ⊎ (l.current ≡ need_sync_trail)

pub named : (block : Bytes) → ustar_id block block_size ≡ true → get_or block 0 0 ≢ 0
unfolding ustar_id drop
named block valid = ground arith

zero_first : (block : Bytes) → all_zero (take block_size block) ≡ true → get_or block 0 0 ≡ 0
unfolding all_zero take
zero_first [] h = refl
zero_first (c ∷ block) h = ground arith

-- A header is not taken for an empty block.
header_not_empty :
    (block : Bytes) → ustar_id block block_size ≡ true → all_zero (take block_size block) ≡ false
header_not_empty block valid = elim (Bool-cases (all_zero (take block_size block))) [
  | inl e ↦ absurd (named block valid (zero_first block e))
  | inr e ↦ e
]

pub sync_trail-header :
    (block : Bytes) (l : Locals)
    → ustar_id block block_size ≡ true
    → IsDue l
    → (sync_trail block l).current ≡ need_read
unfolding sync_trail tar_trail
sync_trail-header block l valid (inl e) = rw (sync_trail, e) e
sync_trail-header block l valid (inr e) = rw (sync_trail, e, header_not_empty block valid)

-- A size field of twelve digits stays far below the top of a `size_t`.
pub content_small : (m : Member) → IsMember m → length m.content + 512 < 2 ^ 64
content_small m member =
    let width : length (field Field.size m.block) ≤ 12 =
      omega (arith, length-take 12 (at Field.size m.block)) in
    let power = pow-le-pow_right {n = 8} (omega arith) width in
    let (_, below) = asc_ul-digits_value oct (field Field.size m.block) (omega (arith, power)) in
    omega (arith, member.sized, below, power)

-- What is remembered in a state.
abbrev pub seen : {S : Source} → State S → Seen
seen s = record { dirs = s.dirs_headers_sent; filters = s.filters }

module _ {S : Source} (L : IsStream S) where
  -- A state behind some calls, with the input that is left.
  pub record After (s t : State S) (v : Seen) (calls : List Call) (rest : Bytes) : Type 0 where
    pub input : L.input t.world ≡ rest
    pub sends : t.calls ≡ s.calls ++ calls
    pub remembers : seen t ≡ v
    pub room : HasRoom t

  abbrev Synced : State S → Seen → List Call → Bytes → Run S (Option Locals) → Type 0
  Synced s v calls rest r =
      (n : ℕ) × (t : State S) × (r
        ≡ done (some (record { current = need_sync_trail; sync_count = n })) t)
      × After s t v calls rest

  -- What a round is to come to for an outcome.
  abbrev pub Comes : State S → Bytes → Outcome → Run S (Option Locals) → Type 0
  Comes s rest (skipped v) r = Synced s v [] rest r
  Comes s rest (extracted v calls) r = Synced s v calls rest r
  Comes s rest finished r = (t : State S) × (r ≡ done none t) × (t.calls ≡ s.calls)

  run_entry_done :
      (buf : Bytes) (s : State S) {c : Current} {t : State S}
      → ustar_rd buf s ≡ done c t
      → run_entry buf s ≡ done c t
  unfolding run_entry
  run_entry_done buf s e = ap caught e

  -- A round on a header is the entry, then what its result asks for.
  pub round-header :
      (block : Bytes) (l : Locals) (s : State S) {c : Current} {t : State S}
      → ustar_id block block_size ≡ true
      → IsDue l
      → ustar_rd block s ≡ done c t
      → round block l s
        ≡ (do
          next ← skip_current c
          pure (
              Option.map
                (λ d. record { current = d; sync_count = (sync_trail block l).sync_count })
                next))
            t
  unfolding round read_current
  round-header block l s valid due e =
      let step : read_current block (sync_trail block l).current s ≡ done _ _ =
        rw (sync_trail-header block l valid due) (run_entry_done block s e) in
      bind_done (read_current block (sync_trail block l).current) _ s step
