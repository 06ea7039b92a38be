-- ===== src/Tests/TarArchive.antt =====
-- The abstract view of tar2qfile at concrete archives.
use qubes_core_agent_linux.Base.{
  bit_or, ◌≡◌, refl, false, List, [], ◌∷◌, ◌++◌, arith, length, take, drop, replicate, Bytes, codes,
  c_str, strncpy, strncmp_eq, All,
}
use qubes_core_agent_linux.Tar.Octal.{asc_ul}
use qubes_core_agent_linux.Tar.Octal.RoundTrip.{octal_field}
use qubes_core_agent_linux.Tar.Header.{tar_chksm, ustar_id, all_zero}
use qubes_core_agent_linux.Tar.Header.Checksum.{sum, blanked}
use qubes_core_agent_linux.Tar.Header.Seal.{seal}
use qubes_core_agent_linux.Tar.Source.Memory.{
  memory_source, memory_source-IsStream, memory_source-PipeOrFile, memory_source-HasMemory,
}
use qubes_core_agent_linux.Tar.Machine.{State, done}
use qubes_core_agent_linux.Tar.Processor.{tar_file_processor}
use qubes_core_agent_linux.Tar.Archive.{
  Member, IsMember, encode, empty_blocks, sent, table, fresh, file_calls, header_of, name_of,
}
use qubes_core_agent_linux.Tar.Directory.{strtok_all, send_directories}
use qubes_core_agent_linux.Tar.Directory.Parts.{HasParts, above}
use qubes_core_agent_linux.Tar.Source.{other}
use qubes_core_agent_linux.Tar.Entry.{s_ifreg, send_file}
use qubes_core_agent_linux.Tar.Entry.Sending.{Sent, send_file-Sent}
use qubes_core_agent_linux.Tar.Archive.Reaches.{Reaches}
use qubes_core_agent_linux.Tar.Archive.Directories.{behind, send_directories-above}
use qubes_core_agent_linux.Tar.Archive.Entry.{HasRoom}
use qubes_core_agent_linux.Tar.Archive.Round.{seen}
use qubes_core_agent_linux.Tar.Archive.Extraction.{
  Sends, tar_file_processor-sent, tar_file_processor_junk,
}
use qubes_core_agent_linux.Tar.Archive.Delivery.{
  IsRegtype, delivered, contents_of, Among, tar_file_processor-Among,
}
use qubes_core_agent_linux.Tests.Archive.{raw_block, block_of}
use qubes_core_agent_linux.Tests.TarRuns.{initial, no_header}

abbrev pub hello : Member
hello = record { block = block_of "d/a" b'0' 5; content = codes "hello" }

abbrev link : Member
link = record { block = block_of "link" b'2' 0; content = [] }

hello-IsMember : IsMember hello
unfolding block_of raw_block seal sum blanked octal_field take drop tar_chksm ustar_id asc_ul
    strncmp_eq strncpy c_str
hello-IsMember = record {
  whole = refl;
  valid = refl;
  clean = record { prefix_ends = omega arith; name_ends = omega arith };
  sized = refl;
}

link-IsMember : IsMember link
unfolding block_of raw_block seal sum blanked octal_field take drop tar_chksm ustar_id asc_ul
    strncmp_eq strncpy c_str
link-IsMember = record {
  whole = refl;
  valid = refl;
  clean = record { prefix_ends = omega arith; name_ends = omega arith };
  sized = refl;
}

abbrev pub members : List Member
members = hello ∷ link ∷ []

pub members-IsMember : All IsMember members
members-IsMember = (hello-IsMember, (link-IsMember, tt))

abbrev pub run_of : Bytes → State memory_source
run_of input = initial input []

pub run_of-HasRoom : (input : Bytes) → HasRoom (run_of input)
run_of-HasRoom input = record {
  no_hack = refl;
  wide = omega arith;
  small = omega arith;
  intact = refl;
}

input-run_of : (input : Bytes) → memory_source-IsStream.input (run_of input).world ≡ input
unfolding memory_source-IsStream
input-run_of input = refl

abbrev archive : State memory_source
archive = run_of (encode members (empty_blocks 2))

tar_file_processor-sent_example :
    Sends (tar_file_processor 9 archive) archive (sent (seen archive) members)
tar_file_processor-sent_example =
    tar_file_processor-sent memory_source-IsStream memory_source-PipeOrFile memory_source-HasMemory
      members 2 9 archive members-IsMember (run_of-HasRoom _) (input-run_of _) (omega arith)

abbrev junk : Bytes
junk = replicate 512 b'x'

junk-refused : (all_zero junk ≡ false) × (ustar_id junk 512 ≡ false)
unfolding all_zero ustar_id tar_chksm asc_ul take drop strncmp_eq
junk-refused = (refl, refl)

abbrev broken : State memory_source
broken = run_of (encode members (junk ++ link.block))

tar_file_processor_junk_example :
    Sends (tar_file_processor 600 broken) broken (sent (seen broken) members)
tar_file_processor_junk_example =
    tar_file_processor_junk memory_source-IsStream memory_source-PipeOrFile memory_source-HasMemory
      members junk link.block 600 broken members-IsMember (run_of-HasRoom _) (length-junk)
      junk-refused.0 junk-refused.1 (input-run_of _) (omega (arith, link-IsMember.whole))
  where
    length-junk : length junk ≡ 512
    length-junk = refl

hello-file : IsRegtype hello
unfolding block_of raw_block seal sum blanked octal_field take drop strncpy
hello-file = refl

tar_file_processor-Among_example :
    (t : State memory_source) × (tar_file_processor 9 archive ≡ done tt t)
    × Among (file_calls (header_of hello) (name_of hello) (codes "hello")) t.calls
    × (delivered t.calls ≡ [] ++ contents_of members)
unfolding delivered
tar_file_processor-Among_example =
    tar_file_processor-Among memory_source-IsStream memory_source-PipeOrFile memory_source-HasMemory
      [] hello (link ∷ []) 2 9 archive members-IsMember (run_of-HasRoom _) refl (input-run_of _)
      (omega arith) hello-file

send_directories-above_example :
    (ps : List Bytes) × HasParts (codes "//a/b/c") ps
    × Reaches memory_source-IsStream
        (send_directories no_header (strtok_all (codes "//a/b/c")) archive)
        tt
        (memory_source-IsStream.input archive.world)
        (behind archive (table [] (above ps)) (fresh no_header [] (above ps)))
send_directories-above_example =
    send_directories-above memory_source-IsStream memory_source-HasMemory no_header
      (codes "//a/b/c") archive refl

-- The input ends within the content.
abbrev cut : State memory_source
cut = record (initial (codes "hel") []) { hdr = record no_header { filelen = 5 } }

send_file-Sent_example :
    Sent cut
      (record no_header { filelen = 5; mode = bit_or 0 s_ifreg })
      []
      5
      []
      (other 1)
      (codes "hel")
      (send_file cut)
unfolding c_str
send_file-Sent_example = send_file-Sent cut
