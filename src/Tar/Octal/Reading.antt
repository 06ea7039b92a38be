-- ===== src/Tar/Octal/Reading.antt =====
-- The number in a field of a header as the text spells it, against `asc_ul` of qubes-rpc/tar2qfile.c.
use qubes_core_agent_linux.Base.{
  ℕ, ◌+◌, ◌*◌, ◌^◌, ◌≤◌, ◌<◌, ◌≡◌, ◌⊎◌, refl, ap, inl, inr, [], ◌∷◌, ◌++◌, none, some, arith,
  length, Bytes, All, Bool-cases, Option-cases, ◌==◌, ◌||◌, false,
}
use qubes_core_agent_linux.Tar.Octal.{Base, hex, oct, ulong, skip_blanks, asc_ul}
use qubes_core_agent_linux.Tar.Octal.Value.{radix, digit, digits_value, asc_ul-digits_value}

-- A character stands for a number, in octal or hexadecimal ASCII digits, where the letters may have
-- either case.
abbrev pub IsNumeral : Base → ℕ → ℕ → Type 0
IsNumeral oct c d = (d < 8) × (c ≡ b'0' + d)
IsNumeral hex c d =
    ((d < 10) × (c ≡ b'0' + d))
    ⊎ (((10 ≤ d) × (d < 16) × (c + 10 ≡ b'A' + d)) ⊎ ((10 ≤ d) × (d < 16) × (c + 10 ≡ b'a' + d)))

-- Behind the number that is read so far, a text spells a number up to its first other character.
pub data Spells (b : Base) : ℕ → Bytes → ℕ → Type 0 where
  at_end : {n : ℕ} → Spells b n [] n
  at_other : {n c : ℕ} {s : Bytes} → ((d : ℕ) → IsNumeral b c d → ⊥) → Spells b n (c ∷ s) n
  at_numeral :
      (d : ℕ) {n c m : ℕ} {s : Bytes}
      → IsNumeral b c d
      → Spells b (n * radix b + d) s m
      → Spells b n (c ∷ s) m

abbrev pub IsBlank : ℕ → Type 0
IsBlank c = (c ≡ b' ') ⊎ (c ≡ b'0')

abbrev pub BeginsOther : Bytes → Type 0
BeginsOther [] = Unit
BeginsOther (c ∷ s) = IsBlank c → ⊥

-- A field holds a number: blanks and zeros, and behind all of these its digits.
pub record Reads (b : Base) (str : Bytes) (n : ℕ) : Type 0 where
  pub lead : Bytes
  pub rest : Bytes
  pub parts : str ≡ lead ++ rest
  pub blank : All IsBlank lead
  pub other : BeginsOther rest
  pub spells : Spells b 0 rest n

digit-IsNumeral : (b : Base) (c d : ℕ) → digit b c ≡ some d → IsNumeral b c d
unfolding digit
digit-IsNumeral hex c d e = ground arith
digit-IsNumeral oct c d e = ground arith

digit-other : (b : Base) (c d : ℕ) → digit b c ≡ none → IsNumeral b c d → ⊥
unfolding digit
digit-other hex c d e (inl (h, k)) = ground arith
digit-other hex c d e (inr (inl (l, h, k))) = ground arith
digit-other hex c d e (inr (inr (l, h, k))) = ground arith
digit-other oct c d e (h, k) = ground arith

digits_value-Spells : (b : Base) (n : ℕ) (s : Bytes) → Spells b n s (digits_value b n s)
digits_value-Spells b n [] = at_end
digits_value-Spells b n (c ∷ s) = elim (Option-cases (digit b c)) [
  | inl e ↦ rw (e, digits_value) (at_other (λ d. digit-other b c d e))
  | inr (d, e) ↦
      rw (e, digits_value)
        (at_numeral d (digit-IsNumeral b c d e) (digits_value-Spells b (n * radix b + d) s))
]

-- What the first loop leaves out.
skip_blanks-lead :
    (str : Bytes)
    → (lead : Bytes) × (str ≡ lead ++ skip_blanks str)
      × All IsBlank lead
      × BeginsOther (skip_blanks str)
unfolding skip_blanks
skip_blanks-lead [] = ([], refl, tt, tt)
skip_blanks-lead (c ∷ s) = elim (Bool-cases (c == b' ' || c == b'0')) [
  | inl e ↦
      let (lead, parts, blank, other) = skip_blanks-lead s in
      let is_blank : IsBlank c = ground arith in
      rw e (c ∷ lead, ap (λ t. c ∷ t) parts, (is_blank, blank), other)
  | inr e ↦ rw e ([], refl, tt, not_blank e)
]
  where
    not_blank : (c == b' ' || c == b'0') ≡ false → IsBlank c → ⊥
    not_blank e (inl h) = ground arith
    not_blank e (inr h) = ground arith

-- In both bases, if every number of the field's width fits an `unsigned long`: `asc_ul` returns the
-- number that the digits of the base spell behind all leading blanks and zeros, up to the first other
-- character or the end, and it is below the base to the power of the width, so that nothing wraps
-- around.
pub asc_ul-Reads :
    (b : Base) (str : Bytes)
    → radix b ^ length str ≤ ulong
    → Reads b str (asc_ul str b) × (asc_ul str b < radix b ^ length str)
asc_ul-Reads b str fits =
    let (value, below) = asc_ul-digits_value b str fits in
    let (lead, parts, blank, other) = skip_blanks-lead str in
    (
      record {
        lead = lead;
        rest = skip_blanks str;
        parts = parts;
        blank = blank;
        other = other;
        spells = rw value (digits_value-Spells b 0 (skip_blanks str));
      },
      below,
    )
