-- ===== src/Tests/TarRuns.antt =====
-- Whole runs of tar2qfile over an archive in memory.
use qubes_core_agent_linux.Base.{
  false, ◌≡◌, refl, true, List, [], ◌∷◌, ◌++◌, none, arith, length, take, drop, replicate, Bytes,
  codes, c_str, strlen, strncpy, strncmp_eq, strcmp_eq,
}
use qubes_core_agent_linux.Tar.Octal.{asc_ul}
use qubes_core_agent_linux.Tar.Header.{tar_chksm, ustar_id, tar_trail}
use qubes_core_agent_linux.Tar.Name.{assemble_name, copy_prefix, put_prefix, copy_name, write_at}
use qubes_core_agent_linux.Tar.Filter.{Filter, apply_filters, all_matched}
use qubes_core_agent_linux.Tar.Source.Memory.{memory_source, memory_source-IsStream}
use qubes_core_agent_linux.Tar.Machine.{
  FileHeader, Call, write_headers, content, State, Run, done, allocate,
}
use qubes_core_agent_linux.Tar.Machine.Ends.{Ends}
use qubes_core_agent_linux.Tar.Directory.{
  grow, strtok_from, send_directories, extend_path, announce,
}
use qubes_core_agent_linux.Tar.Directory.Ordering.{IsSound}
use qubes_core_agent_linux.Tar.Entry.{
  ustar_rd, read_fields, by_type, type_flag, read_regular, extract_file, send_file, copy_content,
  copied_or_exit, drop_padding,
}
use qubes_core_agent_linux.Tar.Processor.{
  start, round, sync_trail, read_current, skip_current, run_entry, skip_content, seek_content,
  read_content, seek_loop, read_loop, round_up, processor_loop, tar_file_processor,
}
use qubes_core_agent_linux.Tar.Processor.Total.{tar_file_processor_total}
use qubes_core_agent_linux.Tests.Archive.{block_of, file_of}

-- Two files in one directory, a symbolic link between them, and the trailer.
abbrev archive : Bytes
archive =
    file_of "d/a" "hello" ++ (block_of "link" b'2' 0 ++ (file_of "d/b" "" ++ replicate 1024 0))

abbrev pub no_header : FileHeader
no_header = record {
  namelen = 0;
  mode = 0;
  filelen = 0;
  atime = 0;
  atime_nsec = 0;
  mtime = 0;
  mtime_nsec = 0;
}

abbrev pub initial : Bytes → List Filter → State memory_source
initial input filters = record {
  world = input;
  untrusted_namebuf = replicate 400 0;
  gnu_hack_string = none;
  dirs_headers_sent = [];
  dirs_lost = false;
  filters = record { filters = filters; matched_filters = 0 };
  use_seek = true;
  hdr = no_header;
  calls = [];
}

initial-IsSound : IsSound (initial archive [])
initial-IsSound = record { table = refl; ordered = tt }

sent : Run memory_source (Unit {0}) → List Bytes
sent (done _ t) = names t.calls
  where
    names : List Call → List Bytes
    names [] = []
    names (write_headers h path ∷ cs) = path ∷ names cs
    names (content _ bytes ∷ cs) = bytes ∷ names cs
    names (_ ∷ cs) = names cs
sent _ = []

sent_of_archive :
    sent (tar_file_processor 9 (initial archive []))
    ≡ codes "d" ∷ codes "d/a" ∷ codes "hello" ∷ codes "d/b" ∷ [] ∷ []
unfolding sent file_of processor_loop round sync_trail tar_trail read_current run_entry ustar_rd
    ustar_id asc_ul tar_chksm strncmp_eq read_fields assemble_name copy_prefix put_prefix copy_name
    write_at strlen strncpy c_str by_type type_flag read_regular apply_filters extract_file allocate
    send_directories strtok_from announce grow extend_path strcmp_eq send_file copy_content
    copied_or_exit drop_padding skip_current skip_content seek_content read_content seek_loop
    read_loop round_up all_matched take drop
sent_of_archive = refl

archive-length : length archive ≡ 3072
unfolding file_of
archive-length = refl

tar_file_processor_total_example :
    Ends ⊥ (λ _ t. IsSound t) IsSound (processor_loop 9 start (initial archive []))
unfolding memory_source-IsStream
tar_file_processor_total_example =
    tar_file_processor_total memory_source-IsStream 9 start (initial archive [])
      (omega (arith, archive-length)) initial-IsSound
