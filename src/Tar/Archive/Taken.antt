-- ===== src/Tar/Archive/Taken.antt =====
-- A round on the header of a member comes to the outcome of the abstract view.
use mathlib.Core.Option
use qubes_core_agent_linux.Base.{
  ℕ, ◌+◌, ◌^◌, ◌<◌, ◌≡◌, refl, sym, ◌∙◌, true, false, Bool-cases, inl, inr, ◌++◌, append-nil, none,
  some, arith, length, replicate, ◌==◌, Bytes, c_str,
}
use qubes_core_agent_linux.Tar.Header.{typeflag, first_byte}
use qubes_core_agent_linux.Tar.Filter.{all_matched}
use qubes_core_agent_linux.Tar.Source.{Source, IsStream, PipeOrFile, HasMemory}
use qubes_core_agent_linux.Tar.Machine.{State, done, pure, ◌>>=◌, ◌>>◌}
use qubes_core_agent_linux.Tar.Directory.Ordering.{parents}
use qubes_core_agent_linux.Tar.Entry.{
  Current, need_skip, need_skip_file, need_sync_trail, read_header, extract_file, ustar_rd,
}
use qubes_core_agent_linux.Tar.Processor.{Locals, sync_trail, skip_content, skip_current, round}
use qubes_core_agent_linux.Tar.Archive.{
  Member, IsMember, padding, regular, outcome, skipped, table, fresh, with_type, file_calls,
  header_of,
}
use qubes_core_agent_linux.Tar.Archive.Reaches.{bind_done}
use qubes_core_agent_linux.Tar.Archive.Skip.{Skips, skip_content-Skips}
use qubes_core_agent_linux.Tar.Archive.Entry.{
  HasRoom, opened, Names, read_fields-Names, ustar_rd_other, decision, ustar_rd-regular,
  extract_file-Reaches,
}
use qubes_core_agent_linux.Tar.Archive.Round.{IsDue, seen, Comes, round-header, content_small}

header_size : (m : Member) → IsMember m → (header_of m).filelen ≡ length m.content
unfolding read_header
header_size m member = member.sized

opened-HasRoom :
    {S : Source} (m : Member) (s : State S) (namebuf : Bytes)
    → HasRoom s
    → Names s m namebuf
    → HasRoom (opened s m namebuf)
opened-HasRoom m s namebuf room names = record {
  no_hack = refl;
  wide = omega (arith, names.same_size, room.wide);
  small = omega (arith, names.same_size, room.small);
  intact = room.intact;
}

module _ {S : Source} (L : IsStream S) (seek : PipeOrFile S L) where
  -- What is left of a round whose content is skipped.
  then_skip :
      (c : Current) (g : Current → Locals) (u : State S) (bytes rest : Bytes)
      → skip_current c u ≡ (skip_content >> pure (some need_sync_trail)) u
      → L.input u.world ≡ bytes ++ (replicate (padding (length bytes)) 0 ++ rest)
      → u.hdr.filelen ≡ length bytes
      → length bytes + 512 < 2 ^ 64
      → Skips L
          ((do next ← skip_current c; pure (Option.map g next)) u)
          (some (g need_sync_trail))
          rest
          u
  then_skip c g u bytes rest skips input size small =
      let (w, b, i, e) = skip_content-Skips L seek bytes rest u input size small in
      let skipped = skips ∙ bind_done skip_content (λ _. pure (some need_sync_trail)) u e in
      (w, b, i, bind_done (skip_current c) (λ next. pure (Option.map g next)) u skipped)

  module _ (memory : HasMemory S) (m : Member) (l : Locals) (s : State S) (rest : Bytes)
      (member : IsMember m) (due : IsDue l) (room : HasRoom s)
      (input : L.input s.world
        ≡ m.content ++ (replicate (padding (length m.content)) 0 ++ rest)) where
    abbrev count : ℕ
    count = (sync_trail m.block l).sync_count

    abbrev locals : Current → Locals
    locals d = record { current = d; sync_count = count }

    other_round :
        (namebuf : Bytes)
        → Names s m namebuf
        → (first_byte typeflag m.block == b'0') ≡ false
        → Comes L s rest (skipped (seen s)) (round m.block l s)
    unfolding skip_current
    other_round namebuf names other =
        let (w, b, i, e) =
          then_skip need_skip locals (opened s m namebuf) m.content rest refl input
            (header_size m member) (content_small m member) in
        (
          count,
          record (opened s m namebuf) { world = w; use_seek = b },
          round-header L m.block l s member.valid due
                (ustar_rd_other m s namebuf member names other)
              ∙ e,
          record {
            input = i;
            sends = sym (append-nil s.calls);
            remembers = refl;
            room = record {
              no_hack = refl;
              wide = (opened-HasRoom m s namebuf room names).wide;
              small = (opened-HasRoom m s namebuf room names).small;
              intact = room.intact;
            };
          },
        )

    -- The state behind the decision of the filters.
    abbrev decided : Bytes → State S
    decided namebuf = record (opened s m namebuf) { filters = (decision s m).after }

    regular-round :
        (namebuf : Bytes)
        → Names s m namebuf
        → (first_byte typeflag m.block == b'0') ≡ true
        → Comes L s rest (regular (seen s) m) (round m.block l s)
    unfolding skip_current regular
    regular-round namebuf names is_file = elim (Bool-cases (decision s m).should_extract) [
      | inl wants ↦
          let room' = opened-HasRoom m s namebuf room names in
          let (w, i, e) =
            extract_file-Reaches L memory m.content rest (decided namebuf) input
              (header_size m member) room.intact in
          let run : ustar_rd m.block s ≡ extract_file (decided namebuf) =
            ustar_rd-regular m s namebuf member names is_file ∙ rw wants in
          let run = run ∙ e in
          rw (regular, wants)
            (
              count,
              record (decided namebuf) {
                world = w;
                hdr = with_type (header_of m);
                dirs_headers_sent = table s.dirs_headers_sent (parents (c_str namebuf));
                calls =
                    s.calls
                    ++ (fresh (header_of m) s.dirs_headers_sent (parents (c_str namebuf))
                        ++ file_calls (header_of m) (c_str namebuf) m.content);
              },
              round-header L m.block l s member.valid due run,
              record {
                input = i;
                sends = rw names.name;
                remembers = rw names.name;
                room = record {
                  no_hack = refl;
                  wide = room'.wide;
                  small = room'.small;
                  intact = room.intact;
                };
              },
            )
      | inr unwanted ↦
          let run : ustar_rd m.block s ≡ done need_skip_file (decided namebuf) =
            ustar_rd-regular m s namebuf member names is_file ∙ rw unwanted in
          elim (Bool-cases (all_matched (decision s m).after)) [
            | inl all ↦
                let ends : skip_current need_skip_file (decided namebuf)
                    ≡ done none (decided namebuf) =
                  rw all in
                rw (regular, unwanted, all)
                  (
                    decided namebuf,
                    round-header L m.block l s member.valid due run
                        ∙ bind_done (skip_current need_skip_file)
                            (λ next. pure (Option.map locals next)) (decided namebuf) ends,
                    refl,
                  )
            | inr more ↦
                let (w, b, i, e) =
                  then_skip need_skip_file locals (decided namebuf) m.content rest (rw more) input
                    (header_size m member) (content_small m member) in
                let room' = opened-HasRoom m s namebuf room names in
                rw (regular, unwanted, more)
                  (
                    count,
                    record (decided namebuf) { world = w; use_seek = b },
                    round-header L m.block l s member.valid due run ∙ e,
                    record {
                      input = i;
                      sends = sym (append-nil s.calls);
                      remembers = refl;
                      room = record {
                        no_hack = refl;
                        wide = room'.wide;
                        small = room'.small;
                        intact = room.intact;
                      };
                    },
                  )
          ]
    ]

    -- One round takes one member.
    pub member_round : Comes L s rest (outcome (seen s) m) (round m.block l s)
    unfolding outcome
    member_round =
        let (namebuf, names) = read_fields-Names m s member room in
        elim (Bool-cases (first_byte typeflag m.block == b'0')) [
          | inl is_file ↦ rw (outcome, is_file) (regular-round namebuf names is_file)
          | inr other ↦ rw (outcome, other) (other_round namebuf names other)
        ]
