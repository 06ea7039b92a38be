-- ===== src/Tar/Name/Write.antt =====
-- Writes into the name buffer, where it is known what stands before the write.
use qubes_core_agent_linux.Base.{
  ℕ, ◌+◌, ◌-◌, ◌^◌, ◌≤◌, ◌<◌, ◌≡◌, ◌++◌, some, arith, length, drop, le→leb, length-append,
  take-append, drop-append_ge, Bytes,
}
use qubes_core_agent_linux.Tar.Name.{write_at, room}

pub write_at-append :
    (before rest new : Bytes)
    → length new ≤ length rest
    → write_at (length before) new (before ++ rest)
      ≡ some (before ++ (new ++ drop (length new) rest))
unfolding write_at
write_at-append before rest new fits =
    let inside = le→leb _ _ (
      let total = length-append before rest in
      let h : length before + length new ≤ length (before ++ rest) = omega (arith, total, fits) in
      h) in
    let behind = drop-append_ge (length before + length new) before rest (omega arith) in
    let n : length before + length new - length before ≡ length new = omega arith in
    rw (inside, take-append before rest, behind, n)

-- Where the subtraction does not pass below zero, `size_t` subtracts.
pub room-sub :
    (buf : Bytes) (cnt : ℕ)
    → cnt ≤ length buf
    → length buf < 2 ^ 64
    → room buf cnt ≡ length buf - cnt
room-sub buf cnt h fits = omega (arith, h, fits)
