-- ===== src/Tar/Name/Zeros.antt =====
-- Text with zeros behind it, and copies of a source that goes on past the bytes copied.
use Prim.Native.Nat.{max}
use qubes_core_agent_linux.Base.{
  ℕ, zero, suc, ◌+◌, ◌-◌, ◌^◌, ◌≤◌, ◌<◌, min, ◌≡◌, ◌≢◌, refl, ap, ◌∙◌, inl, inr, Bool-cases, leb,
  leb→le, tests, [], ◌∷◌, ◌++◌, none, some, arith, length, get_or, take, drop, replicate,
  length-append, length-drop, length-take, length-replicate, append_assoc, append-nil, All,
  All-append, All-drop, Bytes, NonNul, strlen, strncpy, strlen-NonNul, strlen-append_nul,
  strncpy-NonNul, length-strncpy, drop-append, drop-append_le, drop-append_ge,
}
use qubes_core_agent_linux.Tar.Name.{write_at, copy_name, room}
use qubes_core_agent_linux.Tar.Name.Write.{write_at-append, room-sub}

drop-replicate : (n z : ℕ) → drop n (replicate {A = ℕ} z 0) ≡ replicate (z - n) 0
unfolding drop
drop-replicate zero z = let e : z - 0 ≡ z = omega arith in rw e
drop-replicate (suc n) zero = let e : 0 - suc n ≡ 0 = omega arith in rw e
drop-replicate (suc n) (suc z) =
    let e : z - n ≡ suc z - suc n = omega arith in rw (← e) (drop-replicate n z)

pub get_or-NonNul : (s : Bytes) → All NonNul (take 156 s) → 156 ≤ length s → get_or s 0 0 ≢ 0
unfolding take
get_or-NonNul [] h long = absurd (omega arith)
get_or-NonNul (c ∷ s) h long = h.0

-- New bytes, none of them NUL, over the head of a string with zeros behind it.
pub record Over (new xs : Bytes) (z : ℕ) : Type 0 where
  pub text : Bytes
  pub zeros : ℕ
  pub text_full : All NonNul text
  pub joined : new ++ drop (length new) (xs ++ replicate z 0) ≡ text ++ replicate zeros 0
  pub text_size : length text ≡ max (length xs) (length new)
  pub total : length text + zeros ≡ length xs + z

pub overwrite :
    (new xs : Bytes) (z : ℕ)
    → All NonNul new
    → All NonNul xs
    → length new ≤ length xs + z
    → Over new xs z
overwrite new xs z hnew hxs fits = elim (Bool-cases (leb (length new) (length xs))) [
  | inl short ↦ record {
    text = new ++ drop (length new) xs;
    zeros = z;
    text_full = All-append NonNul new _ hnew (All-drop NonNul (length new) xs hxs);
    joined =
        rw (drop-append_le (length new) xs (replicate z 0) (leb→le _ _ short)) (rw append_assoc);
    text_size =
        omega (tests, length-append new (drop (length new) xs), length-drop (length new) xs);
    total = omega (tests, length-append new (drop (length new) xs), length-drop (length new) xs);
  }
  | inr long ↦
      let over : length xs ≤ length new = ground arith in
      record {
        text = new;
        zeros = z - (length new - length xs);
        text_full = hnew;
        joined = rw (drop-append_ge (length new) xs (replicate z 0) over, drop-replicate);
        text_size = omega arith;
        total = omega arith;
      }
]

-- `strlen` of text with zeros behind it: the text, if there is a zero, and a read outside if not.
pub strlen-zeros :
    (text : Bytes) (z : ℕ)
    → All NonNul text
    → strlen (text ++ replicate (suc z) 0) ≡ some (length text)
strlen-zeros text z h = strlen-append_nul text (replicate z 0) h

All-take_le : (n m : ℕ) (s : Bytes) → n ≤ m → All NonNul (take m s) → All NonNul (take n s)
unfolding take
All-take_le zero m s h a = tt
All-take_le (suc n) zero s h a = absurd (omega arith)
All-take_le (suc n) (suc m) [] h a = tt
All-take_le (suc n) (suc m) (c ∷ s) h a = (a.0, All-take_le n m s (omega arith) a.1)

-- A copy of the first `n` bytes of a source that goes on, over zeros.
copied-take :
    (n z : ℕ) (source : Bytes)
    → All NonNul (take 101 source)
    → 101 ≤ length source
    → n ≤ 101
    → strncpy n source ++ drop (length (strncpy n source)) (replicate z 0)
      ≡ take n source ++ replicate (z - n) 0
copied-take n z source full long h =
    rw
      (
        length-strncpy n source,
        strncpy-NonNul n source (All-take_le n 101 source h full) (omega (arith, h, long)),
        drop-replicate,
      )
      refl

module _ (source text : Bytes) (z : ℕ) (full : All NonNul (take 101 source))
    (long : 101 ≤ length source) (htext : All NonNul text) (small : length text + z < 2 ^ 64) where
  room-text : room (text ++ replicate z 0) (length text) ≡ z
  room-text =
      let total = length-append text (replicate z 0) in
      let zs = length-replicate {A = ℕ} z 0 in
      omega (
        arith,
        room-sub (text ++ replicate z 0) (length text) (omega (arith, total))
            (omega (arith, total, zs, small)),
        total,
        zs,
      )

  write-text :
      (n : ℕ)
      → n ≤ 101
      → n ≤ z
      → write_at (length text) (strncpy n source) (text ++ replicate z 0)
        ≡ some (text ++ (take n source ++ replicate (z - n) 0))
  write-text n h fits =
      write_at-append text (replicate z 0) (strncpy n source)
        (omega (arith, length-strncpy n source, length-replicate {A = ℕ} z 0, fits))
      ∙ rw (copied-take n z source full long h)

  -- The name fills the buffer to its end: `strlen` reads on behind it.
  pub copy_name_fault : z ≤ 101 → copy_name source (text ++ replicate z 0) (length text) ≡ none
  unfolding copy_name
  copy_name_fault h =
      let cut : min 101 (room (text ++ replicate z 0) (length text)) ≡ z =
        omega (arith, room-text, h) in
      let none_left : z - z ≡ 0 = omega arith in
      rw (
        cut,
        write-text z h (omega arith),
        drop-append text,
        none_left,
        append-nil,
        strlen-NonNul (take z source) (All-take_le z 101 source h full),
      )

  pub copy_name_grow :
      101 < z
      → copy_name source (text ++ replicate z 0) (length text)
        ≡ some (record {
          namebuf = text ++ (take 101 source ++ replicate (z - 101) 0);
          namelen = length text + 101 + 1;
        })
  unfolding copy_name
  copy_name_grow h =
      let cut : min 101 (room (text ++ replicate z 0) (length text)) ≡ 101 =
        omega (arith, room-text, h) in
      let left : z - 101 ≡ suc (z - 102) = omega (arith, h) in
      let size : length (take 101 source) ≡ 101 = omega (arith, length-take 101 source, long) in
      let len : strlen (take 101 source ++ replicate (z - 101) 0) ≡ some 101 =
        rw left (strlen-zeros (take 101 source) (z - 102) full ∙ ap some size) in
      rw (cut, write-text 101 (omega arith) (omega (arith, h)), drop-append text, len)
