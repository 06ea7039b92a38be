-- ===== src/Tar/Header/Changed.antt =====
-- A header with one byte changed is refused.
use qubes_core_agent_linux.Base.{
  ℕ, zero, suc, ◌+◌, ◌≤◌, ◌<◌, ◌≡◌, ◌≢◌, ◌⊎◌, refl, sym, ap, ◌∙◌, true, false, Bool-cases, inl, inr,
  [], ◌∷◌, ◌++◌, arith, length, take, drop, take-append_le, drop-append_le, length-append,
  length-drop, All, Bytes, IsByte,
}
use qubes_core_agent_linux.Tar.Octal.{oct, asc_ul}
use qubes_core_agent_linux.Tar.Header.{block_size, ustar_id, checksum, field}
use qubes_core_agent_linux.Tar.Header.Checksum.{sum, tar_chksm-sum_parts, tar_chksm-sum-blanked}
use qubes_core_agent_linux.Tar.Header.Seal.{ustar_id_lem}

module _ (c d : ℕ) (after : Bytes) where
  drop_same :
      (n : ℕ) (before : Bytes)
      → length before < n
      → drop n (before ++ (c ∷ after)) ≡ drop n (before ++ (d ∷ after))
  unfolding drop
  drop_same zero before h = absurd (omega arith)
  drop_same (suc n) [] h = refl
  drop_same (suc n) (x ∷ before) h = drop_same n before (omega arith)

  take_same :
      (n : ℕ) (before : Bytes)
      → n ≤ length before
      → take n (before ++ (c ∷ after)) ≡ take n (before ++ (d ∷ after))
  take_same n before h =
      take-append_le n before (c ∷ after) h ∙ sym (take-append_le n before (d ∷ after) h)

  sum-take :
      (n : ℕ) (before : Bytes)
      → length before < n
      → sum (take n (before ++ (c ∷ after))) + d ≡ sum (take n (before ++ (d ∷ after))) + c
  unfolding take sum
  sum-take zero before h = absurd (omega arith)
  sum-take (suc n) [] h = omega arith
  sum-take (suc n) (x ∷ before) h = omega (arith, sum-take n before (omega arith))

  sum-drop :
      (n : ℕ) (before : Bytes)
      → n ≤ length before
      → sum (drop n (before ++ (c ∷ after))) + d ≡ sum (drop n (before ++ (d ∷ after))) + c
  unfolding drop sum
  sum-drop zero [] h = omega arith
  sum-drop zero (x ∷ before) h = omega (arith, sum-drop zero before (omega arith))
  sum-drop (suc n) [] h = absurd (omega arith)
  sum-drop (suc n) (x ∷ before) h = sum-drop n before (omega arith)

  -- The checksum field is the same, and the two sums differ as the bytes do.
  sums :
      (before : Bytes)
      → (length before < 148) ⊎ (156 ≤ length before)
      → (field checksum (before ++ (c ∷ after)) ≡ field checksum (before ++ (d ∷ after)))
        × (sum (take 148 (before ++ (c ∷ after))) + sum (drop 156 (before ++ (c ∷ after))) + d
            ≡ sum (take 148 (before ++ (d ∷ after))) + sum (drop 156 (before ++ (d ∷ after))) + c)
  sums before (inl h) = (
    ap (take 8) (drop_same 148 before h),
    omega (arith, sum-take 148 before h, ap sum (drop_same 156 before (omega (arith, h)))),
  )
  sums before (inr h) = (
    field_same,
    omega (arith, sum-drop 156 before h, ap sum (take_same 148 before (omega (arith, h)))),
  )
    where
      cut : (e : ℕ) → field checksum (before ++ (e ∷ after)) ≡ take 8 (drop 148 before)
      cut e =
          ap (take 8) (drop-append_le 148 before (e ∷ after) (omega (arith, h)))
          ∙ take-append_le 8 (drop 148 before) (e ∷ after)
              (omega (arith, length-drop 148 before, h))

      field_same : field checksum (before ++ (c ∷ after)) ≡ field checksum (before ++ (d ∷ after))
      field_same = cut c ∙ sym (cut d)

-- Where a header of 512 bytes is accepted, a block that differs from it in one byte outside of the
-- checksum field, to another byte, is not.
pub ustar_id_changed :
    (before : Bytes) (c d : ℕ) (after : Bytes)
    → length (before ++ (c ∷ after)) ≡ block_size
    → All IsByte (before ++ (c ∷ after))
    → All IsByte (before ++ (d ∷ after))
    → (length before < 148) ⊎ (156 ≤ length before)
    → c ≢ d
    → ustar_id (before ++ (c ∷ after)) block_size ≡ true
    → ustar_id (before ++ (d ∷ after)) block_size ≡ false
ustar_id_changed before c d after whole bytes bytes' outside other valid =
    let b = before ++ (c ∷ after) in
    let b' = before ++ (d ∷ after) in
    let whole' : length b' ≡ block_size =
      omega (arith, whole, length-append before (c ∷ after), length-append before (d ∷ after)) in
    elim (Bool-cases (ustar_id b' block_size)) [
      | inr refused ↦ refused
      | inl valid' ↦
          let (same, differ) = sums c d after before outside in
          let here = ((ustar_id_lem b whole bytes).0 valid).2 in
          let there = ((ustar_id_lem b' whole' bytes').0 valid').2 in
          let unequal : c ≡ d = omega (
            arith,
            here,
            there,
            ap (λ f. asc_ul f oct) same,
            tar_chksm-sum-blanked b whole bytes,
            tar_chksm-sum-blanked b' whole' bytes',
            tar_chksm-sum_parts b whole bytes,
            tar_chksm-sum_parts b' whole' bytes',
            differ,
          ) in
          absurd (other unequal)
    ]
