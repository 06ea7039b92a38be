-- ===== src/Tar/Octal/RoundTrip.antt =====
-- A number written as an octal field, the way archivers write it, is read back by `asc_ul`.
use native.Mathlib.Nat.{pow-suc, pow-le-pow_right}
use qubes_core_agent_linux.Base.{
  ℕ, zero, suc, ◌+◌, ◌*◌, ◌/◌, ◌%◌, ◌^◌, ◌≤◌, ◌<◌, ◌≡◌, refl, ap, ◌∙◌, true, [], ◌∷◌, ◌++◌,
  append_assoc, arith, length, length-append, get_or, Bytes, All, All-append,
}
use qubes_core_agent_linux.Tar.Octal.{oct, ulong, is_octal, skip_blanks, asc_ul}
use qubes_core_agent_linux.Tar.Octal.Value.{digit, digits_value, asc_ul-digits_value}

-- `w` octal digits, the highest first.
unfoldable pub octal_field : ℕ → ℕ → Bytes
octal_field zero n = []
octal_field (suc w) n = octal_field w (n / 8) ++ ((b'0' + n % 8) ∷ [])

pub length-octal_field : (w n : ℕ) → length (octal_field w n) ≡ w
unfolding octal_field
length-octal_field zero n = refl
length-octal_field (suc w) n = omega (
  arith,
  length-append (octal_field w (n / 8)) ((b'0' + n % 8) ∷ []),
  length-octal_field w (n / 8),
)

abbrev IsOctal : ℕ → Type 0
IsOctal c = is_octal c ≡ true

octal_field-IsOctal : (w n : ℕ) → All IsOctal (octal_field w n)
unfolding octal_field
octal_field-IsOctal zero n = tt
octal_field-IsOctal (suc w) n =
    All-append IsOctal _ _ (octal_field-IsOctal w (n / 8)) (ground arith, tt)

-- A field ends at its end or at a NUL.
abbrev pub Ends : Bytes → Type 0
Ends rest = get_or rest 0 0 ≡ 0

digits_value-Ends : (n : ℕ) (rest : Bytes) → Ends rest → digits_value oct n rest ≡ n
unfolding digit
digits_value-Ends n [] h = refl
digits_value-Ends n (c ∷ rest) h = ground arith

digits_value-octal_digit :
    (m n : ℕ) (rest : Bytes)
    → digits_value oct m ((b'0' + n % 8) ∷ rest) ≡ digits_value oct (m * 8 + n % 8) rest
unfolding digit
digits_value-octal_digit m n rest = ground arith

digits_value-octal_field :
    (w m n : ℕ) (rest : Bytes)
    → n < 8 ^ w
    → digits_value oct m (octal_field w n ++ rest) ≡ digits_value oct (m * 8 ^ w + n) rest
unfolding octal_field
digits_value-octal_field zero m n rest h =
    let none_left : m * 8 ^ 0 + n ≡ m = omega (arith, h) in rw none_left
digits_value-octal_field (suc w) m n rest h =
    let high : n / 8 < 8 ^ w = omega (arith, h, pow-suc 8 w) in
    let shift = ap (λ (x : ℕ). m * x) (pow-suc 8 w) in
    let joined : (m * 8 ^ w + n / 8) * 8 + n % 8 ≡ m * 8 ^ suc w + n = omega (arith, shift) in
    rw append_assoc (
      digits_value-octal_field w m (n / 8) _ high
      ∙ digits_value-octal_digit _ n rest
      ∙ ap (λ x. digits_value oct x rest) joined)

digits_value-skip_blanks :
    (xs rest : Bytes)
    → All IsOctal xs
    → Ends rest
    → digits_value oct 0 (skip_blanks (xs ++ rest)) ≡ digits_value oct 0 (xs ++ rest)
unfolding skip_blanks digit
digits_value-skip_blanks [] [] h e = refl
digits_value-skip_blanks [] (c ∷ rest) h e = ground arith
digits_value-skip_blanks (c ∷ xs) rest h e = ground (arith, digits_value-skip_blanks xs rest h.1 e)

-- A field that holds a number in `w` octal digits, then nothing or a NUL and anything, is read as
-- that number, if the field has at most 21 bytes and the number fits the digits.
pub asc_ul-octal_field :
    (w n : ℕ) (rest : Bytes)
    → n < 8 ^ w
    → Ends rest
    → w + length rest ≤ 21
    → asc_ul (octal_field w n ++ rest) oct ≡ n
asc_ul-octal_field w n rest h e short =
    let fits : 8 ^ length (octal_field w n ++ rest) ≤ ulong =
      let width : length (octal_field w n ++ rest) ≤ 21 =
        omega (arith, length-append (octal_field w n) rest, length-octal_field w n) in
      omega (arith, pow-le-pow_right {n = 8} (omega arith) width) in
    (asc_ul-digits_value oct _ fits).0
    ∙ digits_value-skip_blanks _ rest (octal_field-IsOctal w n) e
    ∙ digits_value-octal_field w 0 n rest h
    ∙ digits_value-Ends _ rest e
    ∙ omega arith
