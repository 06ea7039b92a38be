-- ===== src/Tests/TarMain.antt =====
-- `main` of tar2qfile over files in memory, by number.
use qubes_core_agent_linux.Base.{
  ℕ, ◌≡◌, ◌++◌, refl, List, [], ◌∷◌, none, some, arith, Bytes, codes, strcmp_eq, if◌then◌else◌,
}
use qubes_core_agent_linux.Tar.Source.Memory.{
  memory_source, memory_source-IsStream, memory_source-PipeOrFile, memory_source-HasMemory,
}
use qubes_core_agent_linux.Tar.Machine.{State, notify_end, done}
use qubes_core_agent_linux.Tar.Machine.Ends.{Ends}
use qubes_core_agent_linux.Tar.Directory.Ordering.{IsSound}
use qubes_core_agent_linux.Tar.Archive.{encode, empty_blocks, sent}
use qubes_core_agent_linux.Tar.Main.{Files, main}
use qubes_core_agent_linux.Tar.Main.Sound.{Ended, main-IsSound}
use qubes_core_agent_linux.Tar.Main.Sent.{
  named_file, requested, fresh_filters, prologue, IsFiles, main-sent,
}
use qubes_core_agent_linux.Tests.TarArchive.{members, members-IsMember, run_of, run_of-HasRoom}

-- One file, which is also the standard input.
abbrev one_file : Files memory_source
one_file = record {
  open_file = λ name w. if strcmp_eq name (codes "a.tar") then (some 3, w) else (none, w);
  read_from = λ fd w. w;
}

one_file-IsFiles : IsFiles memory_source memory_source-IsStream one_file
unfolding memory_source-IsStream
one_file-IsFiles = record {
  contents = λ fd w. w;
  input-read_from = λ fd w. refl;
  contents-malloc = λ fd n w. refl;
}

abbrev argv : List Bytes
argv = codes "tar2qfile" ∷ codes "a.tar" ∷ codes "d" ∷ []

abbrev archive : State memory_source
archive = run_of (encode members (empty_blocks 2))

contents-one_file : (fd : ℕ) (w : Bytes) → one_file-IsFiles.contents fd w ≡ w
unfolding one_file-IsFiles
contents-one_file fd w = refl

main-sent_example :
    (t : State memory_source) × (main one_file 9 argv archive ≡ done 0 t)
    × (t.calls
        ≡ []
          ++ (prologue (named_file argv)
              ++ (sent (record { dirs = []; filters = fresh_filters (requested argv) }) members
                  ++ (notify_end ∷ []))))
unfolding named_file requested strcmp_eq
main-sent_example =
    main-sent memory_source-IsStream one_file one_file-IsFiles memory_source-PipeOrFile
      memory_source-HasMemory argv members 2 9 archive 3 archive.world members-IsMember
      (run_of-HasRoom _) refl (contents-one_file 3 _) (omega arith)

main-IsSound_example : Ends (Unit {0}) Ended IsSound (main one_file 9 argv archive)
main-IsSound_example = main-IsSound one_file 9 argv archive (record { table = refl; ordered = tt })
