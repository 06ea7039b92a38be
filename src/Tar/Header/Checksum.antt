-- ===== src/Tar/Header/Checksum.antt =====
-- `tar_chksm` against the sum of the block's bytes with the checksum field blanked.
use qubes_core_agent_linux.Base.{
  ℕ, ◌+◌, ◌*◌, ◌%◌, ◌^◌, ◌≤◌, ◌<◌, ◌≡◌, [], ◌∷◌, ◌++◌, arith, length, take, drop, replicate,
  take_all, length-drop, length-take, All, All-take, All-drop, Bytes, IsByte,
}
use qubes_core_agent_linux.Tar.Header.{add_bytes, tar_chksm, block_size}

unfoldable pub sum : Bytes → ℕ
sum [] = 0
sum (c ∷ s) = c + sum s

pub sum-append : (s t : Bytes) → sum (s ++ t) ≡ sum s + sum t
unfolding sum
sum-append [] t = omega arith
sum-append (c ∷ s) t = omega (arith, sum-append s t)

-- The block with eight blanks for its checksum.
unfoldable pub blanked : Bytes → Bytes
blanked block = take 148 block ++ (replicate 8 b' ' ++ drop 156 block)

pub sum-le : (s : Bytes) → All IsByte s → sum s ≤ 255 * length s
unfolding sum
sum-le [] h = omega arith
sum-le (c ∷ s) h = omega (arith, sum-le s h.1, h.0)

add_bytes-sum :
    (chksm : ℕ) (s : Bytes)
    → All IsByte s
    → chksm + 255 * length s < 2 ^ 32
    → add_bytes chksm s ≡ chksm + sum s
unfolding add_bytes sum
add_bytes-sum chksm [] h room = omega arith
add_bytes-sum chksm (c ∷ s) (hc, hs) room =
    let next : (chksm + c % 256) % 2 ^ 32 ≡ chksm + c = omega (arith, hc, room) in
    rw next (omega (arith, add_bytes-sum (chksm + c) s hs (omega (arith, hc, room))))

module _ (block : Bytes) (long : length block ≡ block_size) (bytes : All IsByte block) where
  pub tar_chksm-sum_parts :
      tar_chksm block block_size ≡ 256 + sum (take 148 block) + sum (drop 156 block)
  unfolding tar_chksm
  tar_chksm-sum_parts =
      let rest = take_all 356 (drop 156 block) (omega (arith, length-drop 156 block, long)) in
      let head =
        add_bytes-sum 256 (take 148 block) (All-take IsByte 148 block bytes)
          (omega (arith, length-take 148 block, long)) in
      let tail = add_bytes-sum _ (drop 156 block) (All-drop IsByte 156 block bytes) (
        omega (
          arith,
          length-drop 156 block,
          long,
          sum-le (take 148 block) (All-take IsByte 148 block bytes),
          length-take 148 block,
        )) in
      rw (rest, head) tail

  -- For a whole block of bytes the checksum is the sum of the bytes, where the checksum field counts
  -- as blanks: the 32-bit sum never wraps around.
  pub tar_chksm-sum-blanked : tar_chksm block block_size ≡ sum (blanked block)
  unfolding blanked sum
  tar_chksm-sum-blanked = omega (
    arith,
    tar_chksm-sum_parts,
    sum-append (take 148 block) (replicate 8 b' ' ++ drop 156 block),
    sum-append (replicate 8 b' ') (drop 156 block),
  )
