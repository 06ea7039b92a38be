-- ===== src/Tar/Octal/Value.antt =====
-- What `asc_ul` computes, against a reading of the digits in unbounded numbers.
use native.Mathlib.Nat.{pow-zero, pow-suc, mod-eq_of_lt, mul-le-mul_right, pow-le-pow_right}
use qubes_core_agent_linux.Base.{
  ℕ, suc, ◌+◌, ◌-◌, ◌*◌, ◌%◌, ◌^◌, ◌≤◌, ◌<◌, ◌≡◌, refl, ap, ◌∙◌, [], ◌∷◌, Option, none, some, inl,
  inr, arith, length, Bytes, if◌then◌else◌, Option-cases,
}
use qubes_core_agent_linux.Tar.Octal.{
  Base, hex, oct, ulong, skip_blanks, is_octal, hex_digit, hex_loop, oct_loop, asc_ul,
}

abbrev pub radix : Base → ℕ
radix hex = 16
radix oct = 8

-- The value of a digit of the base.
unfoldable pub digit : Base → ℕ → Option ℕ
digit hex c = hex_digit c
digit oct c = if is_octal c then some (c - b'0') else none

-- The number that the digits at the head of a text spell behind `n`, with no bound.
abbrev pub digits_value : Base → ℕ → Bytes → ℕ
digits_value b n [] = n
digits_value b n (c ∷ s) = elim (digit b c) [
  | none ↦ n
  | some d ↦ digits_value b (n * radix b + d) s
]

digit-lt : (b : Base) (c : ℕ) {d : ℕ} → digit b c ≡ some d → d < radix b
unfolding digit
digit-lt hex c e = ground arith
digit-lt oct c e = ground arith

radix_pos : (b : Base) → 0 < radix b
radix_pos hex = omega arith
radix_pos oct = omega arith

widen_step : (r n d k : ℕ) → d < r → (n * r + d + 1) * r ^ k ≤ (n + 1) * r ^ suc k
widen_step r n d k h =
    let one : (n * r + d + 1) * r ^ k ≤ ((n + 1) * r) * r ^ k =
      mul-le-mul_right (r ^ k) (grind arith) in
    omega (arith, one, ap (λ (x : ℕ). (n + 1) * x) (pow-suc r k))

le-mul_pow : (b : Base) (n k : ℕ) → n < (n + 1) * radix b ^ k
le-mul_pow b n k =
    let pos = pow-le-pow_right (radix_pos b) {i = 0} {j = k} (omega arith) in
    grind (arith, pos, pow-zero (radix b))

digits_value-lt : (b : Base) (s : Bytes) (n : ℕ) → digits_value b n s < (n + 1) * radix b ^ length s
digits_value-lt b [] n = le-mul_pow b n 0
digits_value-lt b (c ∷ s) n = elim (Option-cases (digit b c)) [
  | inl e ↦ rw (e, digits_value) (le-mul_pow b n (suc (length s)))
  | inr (d, e) ↦
      rw (e, digits_value)
        (omega (
          arith,
          digits_value-lt b s (n * radix b + d),
          widen_step (radix b) n d (length s) (digit-lt b c e),
        ))
]

abbrev loop : Base → Bytes → ℕ → ℕ
loop hex = hex_loop
loop oct = oct_loop

loop-cons :
    (b : Base) (c : ℕ) (s : Bytes) (n : ℕ)
    → loop b (c ∷ s) n
      ≡ elim (digit b c) [ none ↦ n | some d ↦ loop b s ((n * radix b + d) % ulong) ]
unfolding hex_loop oct_loop digit
loop-cons hex c s n = refl
loop-cons oct c s n = ground arith

loop-digits_value :
    (b : Base) (s : Bytes) (n : ℕ)
    → (n + 1) * radix b ^ length s ≤ ulong
    → loop b s n ≡ digits_value b n s
unfolding hex_loop oct_loop
loop-digits_value hex [] n fits = refl
loop-digits_value oct [] n fits = refl
loop-digits_value b (c ∷ s) n fits = elim (Option-cases (digit b c)) [
  | inl e ↦ rw (loop-cons, e, digits_value)
  | inr (d, e) ↦
      let room = widen_step (radix b) n d (length s) (digit-lt b c e) in
      let value : n * radix b + d < ulong =
        let one = le-mul_pow b (n * radix b + d) (length s) in omega (arith, one, room, fits) in
      rw loop-cons (
        rw (e, digits_value)
          (rw (mod-eq_of_lt value) (loop-digits_value b s _ (omega (arith, room, fits)))))
]

length-skip_blanks : (s : Bytes) → length (skip_blanks s) ≤ length s
unfolding skip_blanks
length-skip_blanks [] = omega arith
length-skip_blanks (c ∷ s) = ground (arith, length-skip_blanks s)

asc_ul-loop : (b : Base) (str : Bytes) → asc_ul str b ≡ loop b (skip_blanks str) 0
unfolding asc_ul
asc_ul-loop hex str = refl
asc_ul-loop oct str = refl

-- If the field is short enough for every number of its width to fit an `unsigned long`, then
-- `asc_ul` returns the number that the digits behind the leading blanks and zeros spell, and that
-- number lies below the base to the power of the width: nothing wraps around.
pub asc_ul-digits_value :
    (b : Base) (str : Bytes)
    → radix b ^ length str ≤ ulong
    → (asc_ul str b ≡ digits_value b 0 (skip_blanks str)) × (asc_ul str b < radix b ^ length str)
asc_ul-digits_value b str fits =
    let shorter = pow-le-pow_right (radix_pos b) (length-skip_blanks str) in
    let value =
      asc_ul-loop b str ∙ loop-digits_value b (skip_blanks str) 0 (omega (arith, shorter, fits)) in
    (value, omega (arith, value, shorter, digits_value-lt b (skip_blanks str) 0))
