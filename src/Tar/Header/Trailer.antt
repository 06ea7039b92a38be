-- ===== src/Tar/Header/Trailer.antt =====
-- What `tar_trail` says of a block.
use qubes_core_agent_linux.Base.{
  ℕ, ◌+◌, ◌≤◌, ◌≡◌, ◌↔◌, refl, Bool, true, false, [], ◌∷◌, take, arith, All, Bytes,
}
use qubes_core_agent_linux.Tar.Header.{trailer, not_trailer, all_zero, tar_trail, block_size}

abbrev pub IsEmpty : Bytes → Type 0
IsEmpty buf = All (λ c. c ≡ 0) (take block_size buf)

all_zero_iff : (s : Bytes) → (all_zero s ≡ true) ↔ All (λ c. c ≡ 0) s
unfolding all_zero
all_zero_iff [] = (λ _. tt, λ _. refl)
all_zero_iff (c ∷ s) = ground (arith, all_zero_iff s)

-- A block is the trailer exactly when it is empty, the reader is in step, and an empty block was
-- counted before. It may be a header exactly when it is not empty. The count of empty blocks goes up
-- by one at an empty block in step, and stays otherwise.
pub tar_trail_lem :
    (buf : Bytes) (in_resync : Bool) (cnt : ℕ)
    → (((tar_trail buf in_resync cnt).ret ≡ trailer)
        ↔ (IsEmpty buf × (in_resync ≡ false) × (1 ≤ cnt)))
      × (((tar_trail buf in_resync cnt).ret ≡ not_trailer) ↔ (¬ IsEmpty buf))
      × (((tar_trail buf in_resync cnt).cnt ≡ cnt + 1) ↔ (IsEmpty buf × (in_resync ≡ false)))
      × (((tar_trail buf in_resync cnt).cnt ≡ cnt) ↔ (¬ (IsEmpty buf × (in_resync ≡ false))))
unfolding tar_trail
tar_trail_lem buf in_resync cnt =
    let empty = all_zero_iff (take block_size buf) in
    (ground arith, ground arith, ground arith, ground arith)
