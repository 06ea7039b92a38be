-- ===== src/Tar/Header.antt =====
-- The 512-byte header block of qubes-rpc/tar2qfile.c: the fields of `HD_USTAR`, `tar_trail`,
-- `tar_chksm` and `ustar_id`.
pub mod Trailer
pub mod Checksum
pub mod Seal
pub mod Changed
use qubes_core_agent_linux.Base.{
  ℕ, ◌+◌, ◌-◌, ◌%◌, ◌^◌, Bool, true, false, not, ◌&&◌, [], ◌∷◌, take, drop, get_or, ltb, leb, ◌==◌,
  Bytes, codes, strncmp_eq, if◌then◌else◌,
}
use qubes_core_agent_linux.Tar.Octal.{oct, asc_ul}

-- `BLKMULT`, `NULLCNT`, `CHK_OFFSET`, `CHK_LEN`, `BLNKSUM`, `TNMSZ`, `TPFSZ`
abbrev pub block_size : ℕ
block_size = 512

abbrev null_count : ℕ
null_count = 2

abbrev pub checksum_offset : ℕ
checksum_offset = 148

abbrev pub checksum_size : ℕ
checksum_size = 8

abbrev pub blank_sum : ℕ
blank_sum = 256

abbrev pub name_size : ℕ
name_size = 100

abbrev pub prefix_size : ℕ
prefix_size = 155

-- The fields of `HD_USTAR` that the program reads.
pub data Field : Type 0 where
  name mode size mtime checksum typeflag magic prefix : Field

-- Where each field starts, and its size.
abbrev pub offset : Field → ℕ
offset name = 0
offset mode = 100
offset size = 124
offset mtime = 136
offset checksum = 148
offset typeflag = 156
offset magic = 257
offset prefix = 345

abbrev pub width : Field → ℕ
width name = name_size
width mode = 8
width size = 12
width mtime = 12
width checksum = checksum_size
width typeflag = 1
width magic = 6
width prefix = prefix_size

-- The memory of the block from the start of a field on, which a C pointer to the field reads.
abbrev pub at : Field → Bytes → Bytes
at f block = drop (offset f) block

abbrev pub field : Field → Bytes → Bytes
field f block = take (width f) (at f block)

abbrev pub first_byte : Field → Bytes → ℕ
first_byte f block = get_or (at f block) 0 0

-- 0, -1 and 1, in this order.
pub data Trail : Type 0 where
  trailer not_trailer never_header : Trail

-- The loop over the block ends at its end.
unfoldable pub all_zero : Bytes → Bool
all_zero [] = true
all_zero (c ∷ s) = c == 0 && all_zero s

-- The result, and the count of empty blocks behind `cnt`.
unfoldable pub tar_trail : Bytes → Bool → ℕ → record { ret : Trail; cnt : ℕ }
unfolding all_zero
tar_trail buf in_resync cnt =
    if not (all_zero (take block_size buf))
    then record { ret = not_trailer; cnt = cnt }
    else if in_resync
    then record { ret = never_header; cnt = cnt }
    else if leb null_count (cnt + 1)
    then record { ret = trailer; cnt = cnt + 1 }
    else record { ret = never_header; cnt = cnt + 1 }

-- One of the two summing loops, over an `unsigned int` of 32 bits.
unfoldable pub add_bytes : ℕ → Bytes → ℕ
add_bytes chksm [] = chksm
add_bytes chksm (c ∷ s) = add_bytes ((chksm + c % 256) % 2 ^ 32) s

unfoldable pub tar_chksm : Bytes → ℕ → ℕ
unfolding add_bytes
tar_chksm blk len =
    let before = add_bytes blank_sum (take checksum_offset blk) in
    let next = checksum_offset + checksum_size in
    add_bytes before (take (len - next) (drop next blk))

-- `ustar_id (blk, len) == 0`
unfoldable pub ustar_id : Bytes → ℕ → Bool
ustar_id blk len =
    if ltb len block_size
    then false
    else if first_byte name blk == 0
    then false
    else if not (strncmp_eq (at magic blk) (codes "ustar") 5)
    then false
    else if not (asc_ul (field checksum blk) oct == tar_chksm blk block_size)
    then false
    else true
