-- ===== src/Base/StringLaws.antt =====
-- Laws of the C library's string functions.
use Prim.Native.Nat.{ℕ, zero, suc, ◌-◌, ◌≤◌, ◌<◌}
use mathlib.Core.Path.{◌≡◌, refl, ap}
use mathlib.Core.Logic.{inl, inr}
use mathlib.Core.List.{[], ◌∷◌, ◌++◌}
use mathlib.Core.Option.{none, some}
use native.Mathlib.Omega.{arith}
use qubes_core_agent_linux.Base.Tests.{Bool-cases, ◌==◌}
use qubes_core_agent_linux.Base.Lists.{
  length, replicate, take, drop, All, length-replicate, length-append, length-take, length-drop,
}
use qubes_core_agent_linux.Base.CString.{Bytes, NonNul, strlen, c_str, strncpy, put_nul}

pub c_str-NonNul : (s : Bytes) → All NonNul (c_str s)
unfolding c_str
c_str-NonNul [] = tt
c_str-NonNul (c ∷ s) = ground (arith, c_str-NonNul s)

pub length-c_str : (s : Bytes) → length (c_str s) ≤ length s
unfolding c_str
length-c_str [] = omega arith
length-c_str (c ∷ s) = ground (arith, length-c_str s)

pub c_str-append : (xs ys : Bytes) → All NonNul xs → c_str (xs ++ ys) ≡ xs ++ c_str ys
unfolding c_str
c_str-append [] ys h = refl
c_str-append (c ∷ xs) ys h = ground (arith, c_str-append xs ys h.1)

pub c_str_self : (xs : Bytes) → All NonNul xs → c_str xs ≡ xs
unfolding c_str
c_str_self [] h = refl
c_str_self (c ∷ xs) h = ground (arith, c_str_self xs h.1)

pub c_str_nul : (ys : Bytes) → c_str (0 ∷ ys) ≡ []
unfolding c_str
c_str_nul ys = refl

-- A string in a buffer ends at its first NUL, whatever stands behind.
pub strlen-append_nul : (xs ys : Bytes) → All NonNul xs → strlen (xs ++ (0 ∷ ys)) ≡ some (length xs)
unfolding strlen
strlen-append_nul [] ys h = refl
strlen-append_nul (c ∷ xs) ys h = ground (arith, strlen-append_nul xs ys h.1)

-- A buffer with no NUL has no length as a string.
pub strlen-NonNul : (xs : Bytes) → All NonNul xs → strlen xs ≡ none
unfolding strlen
strlen-NonNul [] h = refl
strlen-NonNul (c ∷ xs) h = ground (arith, strlen-NonNul xs h.1)

pub length-strncpy : (n : ℕ) (src : Bytes) → length (strncpy n src) ≡ n
unfolding strncpy
length-strncpy zero src = refl
length-strncpy (suc n) [] = ap suc (length-replicate n 0)
length-strncpy (suc n) (c ∷ src) =
    ground (arith, length-strncpy n src, length-replicate {A = ℕ} n 0)

-- A source that ends within the bytes that are copied is copied whole, with its NUL.
pub strncpy-c_str :
    (n : ℕ) (src : Bytes)
    → length (c_str (take n src)) < n
    → strncpy n src ≡ c_str (take n src) ++ (0 ∷ replicate (n - length (c_str (take n src)) - 1) 0)
unfolding strncpy c_str take
strncpy-c_str zero src h = absurd (omega arith)
strncpy-c_str (suc n) [] h = ap (λ k. 0 ∷ replicate k 0) (omega arith)
strncpy-c_str (suc n) (c ∷ src) h = elim (Bool-cases (c == 0)) [
  | inl e ↦ rw e (ap (λ k. 0 ∷ replicate k 0) (omega arith))
  | inr e ↦
      let shorter : suc (length (c_str (take n src))) < suc n = rw e at h in
      let pad : suc n - suc (length (c_str (take n src))) - 1
          ≡ n - length (c_str (take n src)) - 1 =
        omega arith in
      rw e (rw pad (ap (◌∷◌ c) (strncpy-c_str n src (omega arith))))
]

-- A source that does not is cut, and gets no NUL.
pub strncpy-NonNul :
    (n : ℕ) (src : Bytes) → All NonNul (take n src) → n ≤ length src → strncpy n src ≡ take n src
unfolding strncpy take
strncpy-NonNul zero src h long = refl
strncpy-NonNul (suc n) [] h long = absurd (omega arith)
strncpy-NonNul (suc n) (c ∷ src) h long = ground (arith, strncpy-NonNul n src h.1)

-- A NUL that is put behind a string leaves the string as it was.
pub put_nul-append :
    (n : ℕ) (xs rest : Bytes)
    → length xs ≤ n
    → (more : Bytes) × (put_nul n (xs ++ (0 ∷ rest)) ≡ xs ++ (0 ∷ more))
unfolding put_nul take drop
put_nul-append zero (x ∷ xs) rest h = absurd (omega arith)
put_nul-append (suc n) (x ∷ xs) rest h =
    let (more, e) = put_nul-append n xs rest (omega arith) in (more, ap (◌∷◌ x) e)
put_nul-append zero [] rest h = (rest, refl)
put_nul-append (suc n) [] rest h = (take n rest ++ (0 ∷ drop (suc n) rest), refl)

pub length-put_nul : (n : ℕ) (buf : Bytes) → n < length buf → length (put_nul n buf) ≡ length buf
unfolding put_nul
length-put_nul n buf h = omega (
  arith,
  length-append (take n buf) (0 ∷ drop (suc n) buf),
  length-take n buf,
  length-drop (suc n) buf,
)
