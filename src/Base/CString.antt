-- ===== src/Base/CString.antt =====
-- Bytes and the C library's functions on NUL-terminated strings. A byte is a number; a buffer is
-- the list of its bytes, and a string held outside a buffer is the list of its bytes before the
-- NUL, so the end of a list reads as a NUL.
use Prim.Native.Nat.{ℕ, zero, suc, ◌+◌, ◌<◌}
use Prim.Native.Char.{code}
use Prim.Native.String.{String}
use mathlib.Core.Logic.{◌≢◌}
use mathlib.Core.Bool.{Bool, true, false}
use mathlib.Core.List.{List, [], ◌∷◌, ◌++◌}
use mathlib.Core.Option.{Option, none, some}
use qubes_core_agent_linux.Base.Tests.{◌==◌, if◌then◌else◌}
use qubes_core_agent_linux.Base.Lists.{length, replicate, take, drop}

abbrev pub Bytes : Type 0
Bytes = List ℕ

abbrev pub IsByte : ℕ → Type 0
IsByte c = c < 256

-- The code points of a literal: its bytes, as every literal here is ASCII.
abbrev pub codes : String → Bytes
codes String.[] = []
codes (String.◌∷◌ c s) = code c ∷ codes s

-- `strlen` of what stands at the head of a buffer; `none` if the buffer ends before a NUL.
unfoldable pub strlen : Bytes → Option ℕ
strlen [] = none
strlen (c ∷ cs) =
    if c == 0 then some 0 else elim (strlen cs) [ none ↦ none | some n ↦ some (suc n) ]

-- The bytes before the first NUL.
unfoldable pub c_str : Bytes → Bytes
c_str [] = []
c_str (c ∷ cs) = if c == 0 then [] else c ∷ c_str cs

-- The bytes that `strncpy (dest, src, n)` writes: those before the NUL, then NULs up to `n`.
unfoldable pub strncpy : ℕ → Bytes → Bytes
strncpy zero src = []
strncpy (suc n) [] = 0 ∷ replicate n 0
strncpy (suc n) (c ∷ cs) = if c == 0 then 0 ∷ replicate n 0 else c ∷ strncpy n cs

-- `strncmp (a, b, n) == 0`
unfoldable pub strncmp_eq : Bytes → Bytes → ℕ → Bool
strncmp_eq a b zero = true
strncmp_eq [] [] (suc n) = true
strncmp_eq [] (d ∷ b) (suc n) = d == 0
strncmp_eq (c ∷ a) [] (suc n) = c == 0
strncmp_eq (c ∷ a) (d ∷ b) (suc n) =
    if c == d then (if c == 0 then true else strncmp_eq a b n) else false

-- `strcmp (a, b) == 0` for strings held without their NULs.
unfoldable pub strcmp_eq : Bytes → Bytes → Bool
strcmp_eq [] [] = true
strcmp_eq [] (d ∷ b) = false
strcmp_eq (c ∷ a) [] = false
strcmp_eq (c ∷ a) (d ∷ b) = if c == d then strcmp_eq a b else false

abbrev pub NonNul : ℕ → Type 0
NonNul c = c ≢ 0

-- `strncat (buf, src, n)` for a string held without its NUL. A write past the buffer makes the list
-- longer.
unfoldable pub strncat : Bytes → Bytes → ℕ → Bytes
unfolding c_str
strncat buf src n =
    c_str buf ++ (take n src ++ (0 ∷ drop (length (c_str buf) + length (take n src) + 1) buf))

-- What follows the last occurrence of a byte: `rindex (s, c) + 1`.
unfoldable pub after_last : ℕ → Bytes → Option Bytes
after_last d [] = none
after_last d (c ∷ s) = elim (after_last d s) [
  | some t ↦ some t
  | none ↦ if c == d then some s else none
]

-- `index (s, d) != NULL` for a byte that is not NUL.
unfoldable pub occurs : ℕ → Bytes → Bool
occurs d [] = false
occurs d (c ∷ s) = if c == d then true else occurs d s

-- `buf[n] = 0`
unfoldable pub put_nul : ℕ → Bytes → Bytes
put_nul n buf = take n buf ++ (0 ∷ drop (suc n) buf)
