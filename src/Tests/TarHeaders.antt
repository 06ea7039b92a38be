-- ===== src/Tests/TarHeaders.antt =====
-- Headers of tar2qfile that were changed, and names that fill their field.
use qubes_core_agent_linux.Base.{
  ℕ, ◌≡◌, refl, true, false, inl, [], ◌∷◌, ◌++◌, none, some, arith, length, take, drop, replicate,
  All, Bytes, IsByte, c_str, strncpy, strncmp_eq,
}
use qubes_core_agent_linux.Tar.Octal.{asc_ul}
use qubes_core_agent_linux.Tar.Octal.RoundTrip.{octal_field}
use qubes_core_agent_linux.Tar.Header.{
  name, mode, field, first_byte, block_size, tar_chksm, ustar_id,
}
use qubes_core_agent_linux.Tar.Header.Checksum.{sum, blanked}
use qubes_core_agent_linux.Tar.Header.Seal.{seal}
use qubes_core_agent_linux.Tar.Header.Changed.{ustar_id_changed}
use qubes_core_agent_linux.Tar.Name.{Named, assemble_name}
use qubes_core_agent_linux.Tar.Name.Full.{IsFull, assemble_name-overlong}
use qubes_core_agent_linux.Tests.Checks.{all_bytes, all_bytes_sound, all_nonnul, all_nonnul_sound}
use qubes_core_agent_linux.Tests.Archive.{raw_block, block_of}

-- What stands behind the first byte of a header.
abbrev behind_first : Bytes
behind_first = drop 1 (block_of "dir/a" b'0' 5)

accepted :
    (length (b'd' ∷ behind_first) ≡ block_size) × (ustar_id (b'd' ∷ behind_first) block_size ≡ true)
unfolding block_of raw_block seal sum blanked octal_field take drop tar_chksm ustar_id asc_ul
    strncmp_eq strncpy
accepted = (refl, refl)

all_bytes_of : (c : ℕ) → all_bytes (c ∷ behind_first) ≡ true → All IsByte (c ∷ behind_first)
all_bytes_of c h = all_bytes_sound (c ∷ behind_first) h

both_bytes : All IsByte (b'd' ∷ behind_first) × All IsByte (b'e' ∷ behind_first)
unfolding block_of raw_block seal sum blanked octal_field take drop strncpy all_bytes
both_bytes = (all_bytes_of b'd' refl, all_bytes_of b'e' refl)

ustar_id_changed_example : ustar_id (b'e' ∷ behind_first) block_size ≡ false
ustar_id_changed_example =
    ustar_id_changed [] b'd' b'e' behind_first accepted.0 both_bytes.0 both_bytes.1
      (inl (omega arith)) (λ e. absurd (omega (arith, e))) accepted.1

abbrev full_block : Bytes
full_block = raw_block [] (replicate 100 b'n') b'0' 0

full_block-IsFull : IsFull full_block
unfolding raw_block strncpy octal_field take drop all_nonnul
full_block-IsFull = record {
  name_full = all_nonnul_sound (field name full_block) refl;
  mode_used = λ e. absurd (omega (arith, e));
  no_prefix = refl;
  long = omega arith;
}

assemble_name-overlong_example :
    (r : Named) × (assemble_name full_block none (replicate 101 0 ++ (0 ∷ replicate 300 0))
      ≡ some r)
    × (c_str r.namebuf ≡ field name full_block ++ (first_byte mode full_block ∷ []))
    × (r.namelen ≡ 102)
assemble_name-overlong_example =
    assemble_name-overlong full_block (replicate 101 0) (replicate 300 0) full_block-IsFull refl
      (omega arith)
