-- ===== src/Tar/Name.antt =====
-- How `ustar_rd` of qubes-rpc/tar2qfile.c puts the name of an entry together in the global
-- `untrusted_namebuf`. The buffer keeps what earlier entries left in it. `none` is a read or a write
-- outside the buffer, which C leaves undefined.
pub mod Write
pub mod Clean
pub mod Zeros
pub mod Overrun
pub mod Full
use qubes_core_agent_linux.Base.{
  ℕ, ◌+◌, ◌-◌, ◌%◌, ◌^◌, min, [], ◌∷◌, ◌++◌, Option, none, some, ◌>>=◌, length, take, drop, leb,
  ◌==◌, Bytes, strlen, strncpy, if◌then◌else◌,
}
use qubes_core_agent_linux.Tar.Header.{name, prefix, name_size, prefix_size, at, first_byte}

-- The buffer behind the prefix, and behind the whole name.
pub record Prefixed : Type 0 where
  pub namebuf : Bytes
  pub cnt : ℕ

pub record Named : Type 0 where
  pub namebuf : Bytes
  pub namelen : ℕ

-- A write of some bytes at an offset of a buffer.
unfoldable pub write_at : ℕ → Bytes → Bytes → Option Bytes
write_at off bytes buf =
    if leb (off + length bytes) (length buf)
    then some (take off buf ++ (bytes ++ drop (off + length bytes) buf))
    else none

-- `sizeof (untrusted_namebuf) - cnt`, a `size_t` of 64 bits
abbrev pub room : Bytes → ℕ → ℕ
room buf cnt = (length buf + 2 ^ 64 - cnt) % 2 ^ 64

-- The branch for a header with a prefix: the copy, `strlen` of it, and the slash behind it.
unfoldable pub put_prefix : Bytes → Bytes → Option Prefixed
put_prefix block buf = do
  copied ← write_at 0 (strncpy (min (length buf - 1) (prefix_size + 1)) (at prefix block)) buf
  cnt ← strlen copied
  slashed ← write_at cnt (b'/' ∷ []) copied
  some (record { namebuf = slashed; cnt = cnt + 1 })

unfoldable pub copy_prefix : Bytes → Bytes → Option Prefixed
copy_prefix block buf =
    if first_byte prefix block == 0
    then some (record { namebuf = buf; cnt = 0 })
    else put_prefix block buf

-- What stands for the name: `gnu_hack_string` where it is set.
abbrev pub name_source : Bytes → Option Bytes → Bytes
name_source block none = at name block
name_source block (some s) = s

-- The copy of the name behind the prefix, and `namelen`, which counts the NUL.
unfoldable pub copy_name : Bytes → Bytes → ℕ → Option Named
copy_name source buf cnt = do
  copied ← write_at cnt (strncpy (min (name_size + 1) (room buf cnt)) source) buf
  len ← strlen (drop cnt copied)
  some (record { namebuf = copied; namelen = cnt + len + 1 })

-- From `untrusted_hdr->namelen = 0` to `untrusted_hdr->namelen += 1`.
unfoldable pub assemble_name : Bytes → Option Bytes → Bytes → Option Named
assemble_name block gnu_hack_string buf = do
  p ← copy_prefix block buf
  copy_name (name_source block gnu_hack_string) p.namebuf p.cnt
