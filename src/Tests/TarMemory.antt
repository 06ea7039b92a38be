-- ===== src/Tests/TarMemory.antt =====
-- tar2qfile without memory.
use qubes_core_agent_linux.Base.{
  ◌≡◌, refl, ap, true, false, none, [], ◌++◌, arith, length, take, drop, replicate, Bytes, codes,
  c_str, strlen, strncpy, strncmp_eq,
}
use qubes_core_agent_linux.Tar.Octal.{asc_ul}
use qubes_core_agent_linux.Tar.Octal.RoundTrip.{octal_field}
use qubes_core_agent_linux.Tar.Header.{block_size, tar_chksm, ustar_id}
use qubes_core_agent_linux.Tar.Header.Checksum.{sum, blanked}
use qubes_core_agent_linux.Tar.Header.Seal.{seal}
use qubes_core_agent_linux.Tar.Name.{assemble_name, copy_prefix, put_prefix, copy_name, write_at}
use qubes_core_agent_linux.Tar.Filter.{apply_filters}
use qubes_core_agent_linux.Tar.Source.{Source, IsStream}
use qubes_core_agent_linux.Tar.Source.Memory.{memory_source, memory_source-IsStream}
use qubes_core_agent_linux.Tar.Machine.{State, Run, no_memory, allocate}
use qubes_core_agent_linux.Tar.Entry.{
  Current, ustar_rd, read_fields, by_type, type_flag, read_regular, extract_file,
}
use qubes_core_agent_linux.Tar.Processor.{start, processor_loop, sync_trail}
use qubes_core_agent_linux.Tar.Archive.Tail.{Quiet}
use qubes_core_agent_linux.Tar.Archive.NoMemory.{behind_read, tar_file_processor_no_memory}
use qubes_core_agent_linux.Tests.Archive.{raw_block, block_of}
use qubes_core_agent_linux.Tests.TarRuns.{no_header}

abbrev poor_source : Source
poor_source = record memory_source { malloc = λ _ w. (false, w) }

poor_source-IsStream : IsStream poor_source
unfolding memory_source-IsStream
poor_source-IsStream = record {
  input = λ w. w;
  read_all_enough = memory_source-IsStream.read_all_enough;
  read_all_short = memory_source-IsStream.read_all_short;
  copy_enough = memory_source-IsStream.copy_enough;
  read_all_shrinks = memory_source-IsStream.read_all_shrinks;
  copy_shrinks = memory_source-IsStream.copy_shrinks;
  lseek_shrinks = memory_source-IsStream.lseek_shrinks;
  malloc_input = λ n w. refl;
}

abbrev header : Bytes
header = block_of "d/a" b'0' 5

abbrev begun : State poor_source
begun = record {
  world = header ++ codes "hello";
  untrusted_namebuf = replicate 400 0;
  gnu_hack_string = none;
  dirs_headers_sent = [];
  dirs_lost = false;
  filters = record { filters = []; matched_filters = 0 };
  use_seek = true;
  hdr = no_header;
  calls = [];
}

-- The state in which the run ended, where it ended for lack of memory.
abbrev left_by : Run poor_source Current → State poor_source
left_by (no_memory t) = t
left_by _ = begun

abbrev left : State poor_source
left = left_by (ustar_rd header (behind_read poor_source-IsStream begun))

left_lem :
    (ustar_rd header (behind_read poor_source-IsStream begun) ≡ no_memory left)
    × (poor_source-IsStream.input left.world ≡ codes "hello")
    × (length header ≡ block_size)
unfolding poor_source-IsStream block_of raw_block seal sum blanked octal_field take drop tar_chksm
    ustar_id asc_ul strncmp_eq strncpy read_fields assemble_name copy_prefix put_prefix copy_name
    write_at strlen c_str by_type type_flag read_regular apply_filters extract_file allocate
    ustar_rd
left_lem = (refl, refl, refl)

input-begun : poor_source-IsStream.input begun.world ≡ header ++ codes "hello"
unfolding poor_source-IsStream
input-begun = refl

tar_file_processor_no_memory_example :
    Quiet poor_source-IsStream (processor_loop 2 start begun) left
unfolding sync_trail
tar_file_processor_no_memory_example =
    tar_file_processor_no_memory poor_source-IsStream 1 start begun left header (codes "hello")
      left_lem.2 input-begun refl left_lem.0 (omega (arith, ap length left_lem.1))
