-- ===== src/Agent/Progress/Text.antt =====
-- The numbers in the messages about progress can be read back.
use native.Mathlib.Nat.{pow-suc, pow-zero}
use qubes_core_agent_linux.Base.{
  ℕ, zero, suc, ◌+◌, ◌-◌, ◌*◌, ◌/◌, ◌%◌, ◌^◌, ◌≤◌, ◌<◌, ◌≡◌, refl, ap, ◌∙◌, Bool-cases, inl, inr,
  true, [], ◌∷◌, ◌++◌, arith, length, length-append, take_all, ltb, Bytes, codes, All, All-append,
}
use qubes_core_agent_linux.Agent.Progress.{digits, lld, gui_message}

-- A byte that is a decimal digit.
abbrev pub IsDigit : ℕ → Type 0
IsDigit c = (b'0' ≤ c) × (c ≤ b'9')

-- The number that decimal digits stand for, behind some that were read.
unfoldable pub number_from : ℕ → Bytes → ℕ
number_from n [] = n
number_from n (c ∷ s) = number_from (n * 10 + (c - b'0')) s

number_from-append :
    (n : ℕ) (s t : Bytes) → number_from n (s ++ t) ≡ number_from (number_from n s) t
unfolding number_from
number_from-append n [] t = refl
number_from-append n (c ∷ s) t = number_from-append (n * 10 + (c - b'0')) s t

number_from-digits : (k n : ℕ) → n < 10 ^ k → number_from 0 (digits k n) ≡ n
unfolding digits number_from
number_from-digits zero n h = omega (arith, pow-zero 10)
number_from-digits (suc k) n h = elim (Bool-cases (ltb n 10)) [
  | inl small ↦ rw small (omega arith)
  | inr large ↦ rw large (
      number_from-append 0 (digits k (n / 10)) _
      ∙ ap (λ m. m * 10 + (b'0' + n % 10 - b'0'))
          (number_from-digits k (n / 10) (omega (arith, pow-suc 10 k)))
      ∙ omega arith)
]

digits-Digit : (k n : ℕ) → n < 10 ^ k → All IsDigit (digits k n)
unfolding digits
digits-Digit zero n h = tt
digits-Digit (suc k) n h = elim (Bool-cases (ltb n 10)) [
  | inl small ↦
      let below : n < 10 = ground (arith, small) in
      rw small ((omega arith, omega (arith, below)), tt)
  | inr large ↦ rw large (
      All-append IsDigit (digits k (n / 10)) ((b'0' + n % 10) ∷ [])
        (digits-Digit k (n / 10) (omega (arith, pow-suc 10 k))) ((omega arith, omega arith), tt))
]

length-digits : (k n : ℕ) → length (digits k n) ≤ k
unfolding digits
length-digits zero n = omega arith
length-digits (suc k) n = elim (Bool-cases (ltb n 10)) [
  | inl small ↦ rw small (omega arith)
  | inr large ↦ rw large (
      omega
        (arith, length-append (digits k (n / 10)) ((b'0' + n % 10) ∷ []), length-digits k (n / 10)))
]

-- For a total below 2 ^ 63 the message for a window is a text of decimal digits and a newline, with
-- nothing cut off, and the decimal number of that text, read back, is the total.
pub number-gui_message :
    (total : ℕ)
    → total < 2 ^ 63
    → (text : Bytes) × (gui_message total ≡ text ++ codes "\n")
      × All IsDigit text
      × (number_from 0 text ≡ total)
unfolding gui_message lld
number-gui_message total small =
    let signed : ltb total (2 ^ 63) ≡ true = ground arith in
    let room = length-append (digits 20 total) (codes "\n") in
    let whole =
      take_all 255 (digits 20 total ++ codes "\n") (omega (arith, room, length-digits 20 total)) in
    let fits : total < 10 ^ 20 = omega (arith, small) in
    (
      digits 20 total,
      rw (signed, whole) refl,
      digits-Digit 20 total fits,
      number_from-digits 20 total fits,
    )
