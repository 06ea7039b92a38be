-- ===== src/Tests/TarParts.antt =====
-- The parts of tar2qfile at concrete data.
use qubes_core_agent_linux.Base.{
  ℕ, ◌+◌, ◌^◌, ◌<◌, ◌≤◌, ◌≡◌, ◌≢◌, ◌↔◌, ◌⊎◌, refl, Bool, true, false, [], ◌∷◌, ◌++◌, none, some,
  arith, length, take, drop, replicate, All, Bytes, IsByte, codes, c_str, strncmp_eq,
}
use qubes_core_agent_linux.Tar.Octal.{oct, hex, asc_ul}
use qubes_core_agent_linux.Tar.Octal.Reading.{Reads, asc_ul-Reads}
use qubes_core_agent_linux.Tar.Octal.RoundTrip.{octal_field, asc_ul-octal_field}
use qubes_core_agent_linux.Tar.Header.{
  name, prefix, magic, checksum, at, field, first_byte, block_size, tar_chksm, ustar_id,
}
use qubes_core_agent_linux.Tar.Header.Checksum.{sum, blanked, tar_chksm-sum-blanked}
use qubes_core_agent_linux.Tar.Header.Seal.{seal, ustar_id_lem, ustar_id-seal}
use qubes_core_agent_linux.Tar.Header.{trailer, not_trailer, tar_trail}
use qubes_core_agent_linux.Tar.Header.Trailer.{IsEmpty, tar_trail_lem}
use qubes_core_agent_linux.Tar.Name.{Named, assemble_name}
use qubes_core_agent_linux.Tar.Name.Clean.{IsClean, full_name, assemble_name-full_name}
use qubes_core_agent_linux.Tar.Name.Overrun.{IsUnending, assemble_all, assemble_all_overrun}
use qubes_core_agent_linux.Tar.Filter.{Filters, apply_filters, all_matched}
use qubes_core_agent_linux.Tar.Filter.Laws.{
  AnyBegins, AllMatched, IsCounted, apply_filters-AnyBegins, apply_filters-IsCounted,
  all_matched-AllMatched,
}
use qubes_core_agent_linux.Tar.Directory.{strtok_from, extend_path}
use qubes_core_agent_linux.Tar.Directory.Ordering.{parents, parents_from}
use qubes_core_agent_linux.Tests.Checks.{all_bytes, all_bytes_sound, all_nonnul, all_nonnul_sound}
use qubes_core_agent_linux.Tests.Archive.{raw_block, endless_block}

octal_mode : asc_ul (codes " 00644") oct ≡ 420
unfolding asc_ul
octal_mode = refl

hex_number : asc_ul (codes "0fF g") hex ≡ 255
unfolding asc_ul
hex_number = refl

-- Blanks are skipped between leading zeros too.
blank_inside : asc_ul (codes "00 7") oct ≡ 7
unfolding asc_ul
blank_inside = refl

asc_ul-octal_field_example : asc_ul (octal_field 7 0o644 ++ (0 ∷ [])) oct ≡ 0o644
asc_ul-octal_field_example = asc_ul-octal_field 7 0o644 (0 ∷ []) (omega arith) refl (omega arith)

asc_ul-Reads_example :
    Reads hex (codes " 0fF g") (asc_ul (codes " 0fF g") hex)
    × (asc_ul (codes " 0fF g") hex < 16 ^ 6)
asc_ul-Reads_example = asc_ul-Reads hex (codes " 0fF g") (omega arith)

abbrev raw : Bytes
raw = raw_block [] (codes "dir/a") b'0' 5

raw-length : length raw ≡ block_size
unfolding raw_block
raw-length = refl

raw-bytes : All IsByte raw
unfolding raw_block all_bytes
raw-bytes = all_bytes_sound raw refl

tar_chksm-sum-blanked_example : tar_chksm raw block_size ≡ sum (blanked raw)
tar_chksm-sum-blanked_example = tar_chksm-sum-blanked raw raw-length raw-bytes

ustar_id_lem_example : (ustar_id raw block_size ≡ true) ↔ (
    (first_byte name raw ≢ 0)
    × (strncmp_eq (at magic raw) (codes "ustar") 5 ≡ true)
    × (asc_ul (field checksum raw) oct ≡ sum (blanked raw)))
ustar_id_lem_example = ustar_id_lem raw raw-length raw-bytes

raw-first_byte : first_byte name raw ≡ b'd'
unfolding raw_block drop
raw-first_byte = refl

raw-magic : strncmp_eq (at magic raw) (codes "ustar") 5 ≡ true
unfolding raw_block drop strncmp_eq
raw-magic = refl

ustar_id-seal_example :
    (ustar_id (seal raw) block_size ≡ true)
    × (take 148 (seal raw) ≡ take 148 raw)
    × (drop 156 (seal raw) ≡ drop 156 raw)
ustar_id-seal_example =
    ustar_id-seal raw raw-length raw-bytes (λ e. absurd (omega (arith, raw-first_byte, e)))
      raw-magic

abbrev zeros : Bytes
zeros = replicate 600 0

tar_trail_lem_example :
    (((tar_trail zeros false 1).ret ≡ trailer)
      ↔ (IsEmpty zeros × (◌≡◌ {A = Bool} false false) × (1 ≤ 1)))
    × (((tar_trail zeros false 1).ret ≡ not_trailer) ↔ (¬ IsEmpty zeros))
    × (((tar_trail zeros false 1).cnt ≡ 1 + 1) ↔ (IsEmpty zeros × (◌≡◌ {A = Bool} false false)))
    × (((tar_trail zeros false 1).cnt ≡ 1) ↔ (¬ (IsEmpty zeros × (◌≡◌ {A = Bool} false false))))
tar_trail_lem_example = tar_trail_lem zeros false 1

raw-IsClean : IsClean raw
unfolding raw_block take drop c_str
raw-IsClean = record { prefix_ends = omega arith; name_ends = omega arith }

-- The buffer still holds a longer name.
assemble_name-full_name_example :
    (r : Named) × (assemble_name raw none (replicate 400 b'z') ≡ some r)
    × (c_str r.namebuf ≡ full_name raw)
    × (r.namelen ≡ length (full_name raw) + 1)
    × (length r.namebuf ≡ length (replicate {A = ℕ} 400 b'z'))
assemble_name-full_name_example =
    assemble_name-full_name raw (replicate 400 b'z') raw-IsClean (omega arith) (omega arith)

full_name-raw : full_name raw ≡ codes "dir/a"
unfolding raw_block full_name take drop c_str
full_name-raw = refl

endless_block-IsUnending : IsUnending endless_block
unfolding endless_block all_nonnul take drop
endless_block-IsUnending = record {
  prefix_full = all_nonnul_sound (take 156 (at prefix endless_block)) refl;
  prefix_long = omega arith;
  name_full = all_nonnul_sound (take 101 (at name endless_block)) refl;
  name_long = omega arith;
}

-- A buffer of 16384 bytes is left after 160 entries.
assemble_all_overrun_example : assemble_all (replicate 160 endless_block) (replicate 16384 0) ≡ none
assemble_all_overrun_example =
    assemble_all_overrun endless_block 16384 160 endless_block-IsUnending (omega arith)
      (omega arith) (omega arith)

abbrev two_filters : Filters
two_filters = record {
  filters =
      record { text = codes "dom0-home/"; matches = 0 }
      ∷ record { text = codes "vm1"; matches = 2 }
      ∷ [];
  matched_filters = 1;
}

apply_filters-AnyBegins_example :
    ((apply_filters (codes "vm1/private.img") two_filters).should_extract ≡ true)
    ↔ ((two_filters.filters ≡ []) ⊎ AnyBegins (codes "vm1/private.img") two_filters.filters)
apply_filters-AnyBegins_example =
    apply_filters-AnyBegins (codes "vm1/private.img") two_filters (omega arith)

two_filters-IsCounted : IsCounted two_filters
two_filters-IsCounted = record { counted = refl }

apply_filters-IsCounted_example : IsCounted (apply_filters (codes "dom0-home/x") two_filters).after
apply_filters-IsCounted_example =
    apply_filters-IsCounted (codes "dom0-home/x") two_filters two_filters-IsCounted

all_matched-AllMatched_example :
    (all_matched two_filters ≡ true)
    ↔ ((0 < length two_filters.filters) × AllMatched two_filters.filters)
all_matched-AllMatched_example = all_matched-AllMatched two_filters two_filters-IsCounted

parents_of_path : parents (codes "//a/b/c") ≡ codes "a" ∷ codes "a/b" ∷ []
unfolding parents strtok_from parents_from extend_path
parents_of_path = refl
