-- ===== src/Tar/Entry.antt =====
-- `ustar_rd` of qubes-rpc/tar2qfile.c: one header block, and the file that follows it.
-- `hd->mode & 0xfff` is written as a remainder. The fields of the `struct stat` are not modelled but
-- for the size and the times that go into the header: the caller never reads them.
pub mod Sound
pub mod Sending
use qubes_core_agent_linux.Base.{
  ℕ, ◌-◌, ◌%◌, Bool, not, none, some, ltb, ◌==◌, bit_or, Bytes, c_str, if◌then◌else◌,
}
use qubes_core_agent_linux.Tar.Octal.{oct, asc_ul}
use qubes_core_agent_linux.Tar.Header.{block_size, Field, typeflag, field, first_byte, ustar_id}
use qubes_core_agent_linux.Tar.Name.{assemble_name}
use qubes_core_agent_linux.Tar.Filter.{apply_filters}
use qubes_core_agent_linux.Tar.Source.{
  Source, CopyStatus, copy_file_ok, copy_file_write_error, other,
}
use qubes_core_agent_linux.Tar.Machine.{
  FileHeader, write_headers, content, set_block, wait_for_result, gui_fatal, done, fault, M, pure,
  ◌>>=◌, ◌>>◌, call, exit, allocate,
}
use qubes_core_agent_linux.Tar.Directory.{strtok_all, send_directories}

pub data Current : Type 0 where
  need_nothing need_skip need_skip_file need_read need_sync_trail : Current
  invalid_header memory_alloc_failed : Current

-- The cases of the `switch` over `hd->typeflag`.
pub data TypeFlag : Type 0 where
  areg_type reg_type lnk_type sym_type chr_type blk_type dir_type fifo_type cont_type : TypeFlag
  long_link_type long_name_type ext_header_type other_type : TypeFlag

unfoldable pub type_flag : ℕ → TypeFlag
type_flag c =
    if c == 0
    then areg_type
    else if c == b'0'
    then reg_type
    else if c == b'1'
    then lnk_type
    else if c == b'2'
    then sym_type
    else if c == b'3'
    then chr_type
    else if c == b'4'
    then blk_type
    else if c == b'5'
    then dir_type
    else if c == b'6'
    then fifo_type
    else if c == b'7'
    then cont_type
    else if c == b'K'
    then long_link_type
    else if c == b'L'
    then long_name_type
    else if c == b'x'
    then ext_header_type
    else other_type

abbrev pub s_ifreg : ℕ
s_ifreg = 0x8000

-- The header that the fields of the block fill.
unfoldable pub read_header : Bytes → ℕ → FileHeader
read_header buf namelen = record {
  namelen = namelen;
  mode = asc_ul (field Field.mode buf) oct % 0x1000;
  filelen = asc_ul (field Field.size buf) oct;
  atime = asc_ul (field Field.mtime buf) oct;
  atime_nsec = 0;
  mtime = asc_ul (field Field.mtime buf) oct;
  mtime_nsec = 0;
}

module _ {S : Source} where
  -- The name of the entry, with `gnu_hack_string` freed and cleared, and the fields.
  unfoldable pub read_fields : Bytes → M S (Unit {0})
  unfolding read_header
  read_fields buf s = elim (assemble_name buf s.gnu_hack_string s.untrusted_namebuf) [
    | none ↦ fault
    | some r ↦ done tt (record s {
      untrusted_namebuf = r.namebuf;
      gnu_hack_string = none;
      hdr = read_header buf r.namelen;
    })
  ]

  -- Whether the user wants the file.
  unfoldable pub wanted : M S Bool
  wanted s =
      let d = apply_filters s.untrusted_namebuf s.filters in
      done d.should_extract (record s { filters = d.after })

  -- What follows on the status of the copy.
  unfoldable pub copied_or_exit : CopyStatus → M S (Unit {0})
  copied_or_exit copy_file_ok s = done tt s
  copied_or_exit copy_file_write_error s = (do call set_block; call wait_for_result; exit 1) s
  copied_or_exit (other n) s = (do call (gui_fatal (c_str s.untrusted_namebuf) (other n)); exit 1) s

  -- `copy_file_with_crc (1, fd, untrusted_hdr->filelen)` and the test of its status.
  unfoldable pub copy_content : M S (Unit {0})
  copy_content s =
      let r = S.copy_file_with_crc s.hdr.filelen s.world in
      (do call (content r.status r.bytes); copied_or_exit r.status) (record s { world = r.world })

  -- "Extract extra padding"
  unfoldable pub drop_padding : M S (Unit {0})
  drop_padding s =
      if ltb 0 (s.hdr.filelen % block_size)
      then (let (pad, w) = S.read_all (block_size - s.hdr.filelen % block_size) s.world in
          elim pad [
            | none ↦ (do call wait_for_result; exit 1) (record s { world = w })
            | some _ ↦ done tt (record s { world = w })
          ])
      else done tt s

  -- The header of the file with its type, then the content.
  unfoldable pub send_file : M S (Unit {0})
  send_file s =
      let h = record (s.hdr) { mode = bit_or s.hdr.mode s_ifreg } in
      (do call (write_headers h (c_str s.untrusted_namebuf)); copy_content; drop_padding)
        (record s { hdr = h })

  -- The directories on the way, then the file.
  unfoldable pub extract_file : M S Current
  extract_file s =
      (do
        allocate s.hdr.namelen
        send_directories s.hdr (strtok_all (c_str s.untrusted_namebuf))
        send_file
        pure need_sync_trail)
        s

  -- The case `REGTYPE`.
  unfoldable pub read_regular : M S Current
  unfolding wanted
  read_regular s =
      (do extract ← wanted; λ t. if not extract then done need_skip_file t else extract_file t) s

  unfoldable pub by_type : TypeFlag → M S Current
  by_type reg_type s = read_regular s
  by_type _ s = done need_skip s

  -- All cases but `REGTYPE` come to `return NEED_SKIP`.
  unfoldable pub ustar_rd : Bytes → M S Current
  ustar_rd buf s =
      if not (ustar_id buf block_size)
      then done invalid_header s
      else (do read_fields buf; by_type (type_flag (first_byte typeflag buf))) s
