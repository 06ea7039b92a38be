-- ===== src/Tar/Archive/Extraction.antt =====
-- The loop of `tar_file_processor` does what the abstract view says of an archive.
use qubes_core_agent_linux.Base.{
  ℕ, zero, suc, ◌+◌, ◌≤◌, ◌<◌, ◌≡◌, refl, sym, ap, ◌∙◌, false, inl, inr, List, [], ◌∷◌, ◌++◌,
  append_assoc, append-nil, some, arith, length, All, Bytes,
}
use qubes_core_agent_linux.Tar.Header.{block_size, all_zero, ustar_id}
use qubes_core_agent_linux.Tar.Source.{Source, IsStream, PipeOrFile, HasMemory}
use qubes_core_agent_linux.Tar.Machine.{Call, State, Run, done, ◌>>=◌}
use qubes_core_agent_linux.Tar.Entry.{need_sync_trail}
use qubes_core_agent_linux.Tar.Processor.{Locals, start, round, processor_loop, tar_file_processor}
use qubes_core_agent_linux.Tar.Archive.{
  Member, IsMember, encode, empty_blocks, Seen, Outcome, skipped, extracted, finished, outcome,
  sent,
}
use qubes_core_agent_linux.Tar.Archive.Reaches.{bind_done}
use qubes_core_agent_linux.Tar.Archive.Entry.{HasRoom}
use qubes_core_agent_linux.Tar.Archive.Round.{IsDue, seen, After, Comes}
use qubes_core_agent_linux.Tar.Archive.Taken.{member_round}
use qubes_core_agent_linux.Tar.Archive.Tail.{Quiet, then_loop, loop_read_eq, loop_junk, loop_empty}

-- A run that returns, behind some more calls.
abbrev pub Sends : {S : Source} → Run S (Unit {0}) → State S → List Call → Type 0
Sends {S} r s calls = (t : State S) × (r ≡ done tt t) × (t.calls ≡ s.calls ++ calls)

module _ {S : Source} (L : IsStream S) (seek : PipeOrFile S L) (memory : HasMemory S) where
  -- What is said of the tail, in any state that the members can lead to.
  abbrev EndsQuietly : ℕ → Bytes → Type 0
  EndsQuietly need tail =
      (fuel : ℕ) (l : Locals) (s : State S)
      → need ≤ fuel
      → IsDue l
      → L.input s.world ≡ tail
      → Quiet L (processor_loop fuel l s) s

  -- What is said of the rest, behind a member that did not end the work.
  abbrev Goes : ℕ → Bytes → (Seen → List Call) → Type 0
  Goes fuel rest later =
      (l : Locals) (s : State S)
      → IsDue l
      → HasRoom s
      → L.input s.world ≡ rest
      → Sends (processor_loop fuel l s) s (later (seen s))

  synced :
      (fuel : ℕ) (s : State S) (v : Seen) (calls : List Call) (rest : Bytes)
      (later : Seen → List Call) (n : ℕ) (t : State S)
      → After L s t v calls rest
      → Goes fuel rest later
      → Sends
          (then_loop L fuel (some (record { current = need_sync_trail; sync_count = n })) t)
          s
          (calls ++ later v)
  synced fuel s v calls rest later n t after goes =
      let l : Locals = record { current = need_sync_trail; sync_count = n } in
      let (u, e, sends) = goes l t (inr refl) after.room after.input in
      let calls-eq : u.calls ≡ s.calls ++ (calls ++ later v) =
        sends ∙ rw (after.sends, after.remembers) (append_assoc s.calls calls (later v)) in
      (u, e, calls-eq)

  -- What goes out from a member on, for its outcome and what is sent behind it.
  abbrev from_outcome : (Seen → List Call) → Outcome → List Call
  from_outcome later (skipped v) = later v
  from_outcome later (extracted v calls) = calls ++ later v
  from_outcome later finished = []

  outcome_sent :
      (fuel : ℕ) (block : Bytes) (l : Locals) (s : State S) (rest : Bytes)
      (later : Seen → List Call) (o : Outcome)
      → Comes L s rest o (round block l s)
      → Goes fuel rest later
      → Sends ((round block l >>= then_loop L fuel) s) s (from_outcome later o)
  outcome_sent fuel block l s rest later (skipped v) (n, t, e, after) goes =
      let (u, run, sends) = synced fuel s v [] rest later n t after goes in
      (u, bind_done (round block l) (then_loop L fuel) s e ∙ run, sends)
  outcome_sent fuel block l s rest later (extracted v calls) (n, t, e, after) goes =
      let (u, run, sends) = synced fuel s v calls rest later n t after goes in
      (u, bind_done (round block l) (then_loop L fuel) s e ∙ run, sends)
  outcome_sent fuel block l s rest later finished (t, e, same) goes =
      (t, bind_done (round block l) (then_loop L fuel) s e, same ∙ sym (append-nil s.calls))

  sent-from_outcome :
      (v : Seen) (m : Member) (ms : List Member)
      → sent v (m ∷ ms) ≡ from_outcome (λ v'. sent v' ms) (outcome v m)
  unfolding sent
  sent-from_outcome v m ms = go (outcome v m)
    where
      go :
          (o : Outcome)
          → elim o [
            | skipped v' ↦ sent v' ms
            | extracted v' calls ↦ calls ++ sent v' ms
            | finished ↦ []
          ]
            ≡ from_outcome (λ v'. sent v' ms) o
      go (skipped v') = refl
      go (extracted v' calls) = refl
      go finished = refl

  -- The members are sent one by one, whatever quiet tail follows.
  members_sent :
      (ms : List Member) (need : ℕ) (tail : Bytes)
      → EndsQuietly need tail
      → All IsMember ms
      → (fuel : ℕ) (l : Locals) (s : State S) → length ms + need ≤ fuel
      → IsDue l
      → HasRoom s
      → L.input s.world ≡ encode ms tail
      → Sends (processor_loop fuel l s) s (sent (seen s) ms)
  unfolding sent encode
  members_sent [] need tail quiet members fuel l s enough due room input =
      let (t, e, calls) = quiet fuel l s (omega arith) due input in
      (t, e, calls ∙ sym (append-nil s.calls))
  members_sent (m ∷ ms) need tail quiet members zero l s enough due room input =
      absurd (omega arith)
  members_sent (m ∷ ms) need tail quiet members (suc fuel) l s enough due room input =
      let (w, left, run) = loop_read_eq L fuel l s m.block _ members.0.whole input in
      let next : State S = record s { world = w } in
      let room' : HasRoom next = record {
        no_hack = room.no_hack;
        wide = room.wide;
        small = room.small;
        intact = room.intact;
      } in
      let goes : Goes fuel (encode ms tail) (λ v. sent v ms) = λ l' t' due' room'' input'.
        members_sent ms need tail quiet members.1 fuel l' t' (omega arith) due' room'' input' in
      let (t, e, sends) =
        outcome_sent fuel m.block l next (encode ms tail) (λ v. sent v ms) (outcome (seen s) m)
          (member_round L seek memory m l next (encode ms tail) members.0 due room' left) goes in
      (t, run ∙ e, sends ∙ ap (λ c. s.calls ++ c) (sym (sent-from_outcome (seen s) m ms)))

  -- For every archive of members, whatever their types, names, sizes and contents are, and whatever
  -- filters are in force, where each header is accepted, holds its name within its fields and gives
  -- the size of the content, the input is a pipe or a file, there is memory for every request, and the
  -- run begins with room for the names in the buffer and with a table of directories that is not lost:
  -- with more rounds than members and empty blocks behind them the program returns, and what it has
  -- sent then is what the abstract view says, no more and in that order: nothing for a member that is no
  -- regular file, with the type '0', or that no filter selects; for any other one a header for each
  -- directory above it that was not sent yet, then its own header and its content as it stands in the
  -- archive, without the padding; and nothing from the first unselected file on that is met when every
  -- filter has matched.
  pub tar_file_processor-sent :
      (ms : List Member) (blocks fuel : ℕ) (s : State S)
      → All IsMember ms
      → HasRoom s
      → L.input s.world ≡ encode ms (empty_blocks blocks)
      → length ms + blocks < fuel
      → Sends (tar_file_processor fuel s) s (sent (seen s) ms)
  tar_file_processor-sent ms blocks fuel s members room input enough =
      members_sent ms (suc blocks) (empty_blocks blocks)
        (λ k l t more due here. loop_empty L k blocks l t here due (omega arith)) members fuel start
        s (omega arith) (inl refl) room input

  -- Where a block that is neither empty nor a header the program accepts stands behind the members
  -- of such an archive, whatever bytes follow on it, and the run begins as there: with two rounds more than members and bytes that
  -- follow, the run returns as it does for a whole archive, what is sent is what the members alone
  -- lead to, and nothing is reported.
  pub tar_file_processor_junk :
      (ms : List Member) (block rest : Bytes) (fuel : ℕ) (s : State S)
      → All IsMember ms
      → HasRoom s
      → length block ≡ block_size
      → all_zero block ≡ false
      → ustar_id block block_size ≡ false
      → L.input s.world ≡ encode ms (block ++ rest)
      → length ms + (2 + length rest) ≤ fuel
      → Sends (tar_file_processor fuel s) s (sent (seen s) ms)
  tar_file_processor_junk ms block rest fuel s members room whole junk refused input enough =
      members_sent ms (2 + length rest) (block ++ rest) quiet members fuel start s enough (inl refl)
        room input
    where
      quiet : EndsQuietly (2 + length rest) (block ++ rest)
      quiet zero l t more due here = absurd (omega arith)
      quiet (suc k) l t more due here =
          loop_junk L k l t block rest whole here due junk refused (omega arith)
