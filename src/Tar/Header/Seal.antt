-- ===== src/Tar/Header/Seal.antt =====
-- Which blocks `ustar_id` takes for headers.
use qubes_core_agent_linux.Base.{
  ℕ, ◌^◌, ◌<◌, ◌≡◌, ◌≢◌, ◌↔◌, refl, sym, ap, ◌∙◌, true, [], ◌∷◌, ◌++◌, arith, length, take, drop,
  drop-drop, take-append_eq, get_or-take, drop-append_eq, get_or, length-append, length-drop,
  length-take, All, All-take, All-drop, Bytes, IsByte, codes, strncmp_eq,
}
use qubes_core_agent_linux.Tar.Octal.{oct, asc_ul}
use qubes_core_agent_linux.Tar.Octal.RoundTrip.{octal_field, length-octal_field, asc_ul-octal_field}
use qubes_core_agent_linux.Tar.Header.{
  tar_chksm, block_size, ustar_id, name, magic, checksum, at, field, first_byte,
}
use qubes_core_agent_linux.Tar.Header.Checksum.{
  sum, sum-le, blanked, tar_chksm-sum_parts, tar_chksm-sum-blanked,
}

-- A whole block of bytes is taken for a header exactly when its name is not empty, the magic field
-- begins with "ustar", and the checksum field holds the sum of the block's bytes with that field
-- blanked.
pub ustar_id_lem :
    (block : Bytes)
    → length block ≡ block_size
    → All IsByte block
    → (ustar_id block block_size ≡ true) ↔ (
        (first_byte name block ≢ 0)
        × (strncmp_eq (at magic block) (codes "ustar") 5 ≡ true)
        × (asc_ul (field checksum block) oct ≡ sum (blanked block)))
unfolding ustar_id
ustar_id_lem block long bytes = rw (← tar_chksm-sum-blanked block long bytes) (ground arith)

-- The checksum as an archiver stores it: six octal digits, a NUL and a blank.
abbrev stored : ℕ → Bytes
stored n = octal_field 6 n ++ (0 ∷ b' ' ∷ [])

-- The block with its checksum stored: the sum of its bytes, where the checksum field counts as blanks.
unfoldable pub seal : Bytes → Bytes
seal block = take 148 block ++ (stored (sum (blanked block)) ++ drop 156 block)

module _ (block : Bytes) (long : length block ≡ block_size) where
  length-head : length (take 148 block) ≡ 148
  length-head = omega (arith, length-take 148 block, long)

  length-stored : (n : ℕ) → length (stored n) ≡ 8
  length-stored n =
      omega (arith, length-append (octal_field 6 n) (0 ∷ b' ' ∷ []), length-octal_field 6 n)

  take-seal : take 148 (seal block) ≡ take 148 block
  unfolding seal
  take-seal = take-append_eq 148 _ _ length-head

  drop-seal : drop 148 (seal block) ≡ stored (sum (blanked block)) ++ drop 156 block
  unfolding seal
  drop-seal = drop-append_eq 148 _ _ length-head

  drop-seal_end : drop 156 (seal block) ≡ drop 156 block
  drop-seal_end =
      sym (drop-drop 8 148 (seal block))
      ∙ ap (drop 8) drop-seal
      ∙ drop-append_eq 8 _ _ (length-stored (sum (blanked block)))

  tar_chksm-seal : tar_chksm (seal block) block_size ≡ tar_chksm block block_size
  unfolding tar_chksm
  tar_chksm-seal = rw (take-seal, drop-seal_end)

  field-seal : field checksum (seal block) ≡ stored (sum (blanked block))
  field-seal = ap (take 8) drop-seal ∙ take-append_eq 8 _ _ (length-stored (sum (blanked block)))

  first_byte-seal : first_byte name (seal block) ≡ first_byte name block
  unfolding drop
  first_byte-seal =
      sym (get_or-take 148 0 (seal block) 0 (omega arith))
      ∙ ap (λ s. get_or s 0 0) take-seal
      ∙ get_or-take 148 0 block 0 (omega arith)

  at-seal : at magic (seal block) ≡ at magic block
  at-seal =
      sym (drop-drop 101 156 (seal block)) ∙ ap (drop 101) drop-seal_end ∙ drop-drop 101 156 block

-- A block of bytes with a name and the magic is taken for a header once the sum of its bytes, with
-- blanks in the checksum field, is stored there in octal digits, and stays as it was outside that
-- field.
pub ustar_id-seal :
    (block : Bytes)
    → length block ≡ block_size
    → All IsByte block
    → first_byte name block ≢ 0
    → strncmp_eq (at magic block) (codes "ustar") 5 ≡ true
    → (ustar_id (seal block) block_size ≡ true)
      × (take 148 (seal block) ≡ take 148 block)
      × (drop 156 (seal block) ≡ drop 156 block)
unfolding ustar_id
ustar_id-seal block long bytes named ustar =
    let sum_fits : sum (blanked block) < 8 ^ 6 = omega (
      arith,
      tar_chksm-sum-blanked block long bytes,
      tar_chksm-sum_parts block long bytes,
      sum-le _ (All-take IsByte 148 block bytes),
      sum-le _ (All-drop IsByte 156 block bytes),
      length-take 148 block,
      length-drop 156 block,
      long,
    ) in
    let read = asc_ul-octal_field 6 _ (0 ∷ b' ' ∷ []) sum_fits refl (omega arith) in
    (
      rw
          (
            first_byte-seal block long,
            at-seal block long,
            field-seal block long,
            tar_chksm-seal block long ∙ tar_chksm-sum-blanked block long bytes,
            read,
          )
          (ground arith),
      take-seal block long,
      drop-seal_end block long,
    )
