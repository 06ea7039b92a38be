-- ===== src/Tar/Octal.antt =====
-- `asc_ul` of qubes-rpc/tar2qfile.c: numbers written in a header field as text. An `unsigned long`
-- has 64 bits.
pub mod Value
pub mod RoundTrip
pub mod Reading
use qubes_core_agent_linux.Base.{
  ℕ, ◌+◌, ◌-◌, ◌*◌, ◌%◌, ◌^◌, Bool, ◌&&◌, ◌||◌, [], ◌∷◌, Option, none, some, leb, ◌==◌, Bytes,
  if◌then◌else◌,
}

pub data Base : Type 0 where
  hex oct : Base

abbrev pub ulong : ℕ
ulong = 2 ^ 64

-- The first loop: over the leading blanks and zeros.
unfoldable pub skip_blanks : Bytes → Bytes
skip_blanks [] = []
skip_blanks (c ∷ s) = if c == b' ' || c == b'0' then skip_blanks s else c ∷ s

abbrev pub is_octal : ℕ → Bool
is_octal c = leb b'0' c && leb c b'7'

-- One test and step of the loop for base `HEX`; `none` is its `break`.
abbrev pub hex_digit : ℕ → Option ℕ
hex_digit c =
    if leb b'0' c && leb c b'9'
    then some (c - b'0')
    else if leb b'A' c && leb c b'F'
    then some (10 + (c - b'A'))
    else if leb b'a' c && leb c b'f'
    then some (10 + (c - b'a'))
    else none

unfoldable pub hex_loop : Bytes → ℕ → ℕ
hex_loop [] tval = tval
hex_loop (c ∷ s) tval = elim (hex_digit c) [
  | none ↦ tval
  | some d ↦ hex_loop s ((tval * 16 + d) % ulong)
]

unfoldable pub oct_loop : Bytes → ℕ → ℕ
oct_loop [] tval = tval
oct_loop (c ∷ s) tval =
    let rest = oct_loop s ((tval * 8 + (c - b'0')) % ulong) in if is_octal c then rest else tval

-- `str` is the field: the `len` bytes that the C function is given.
unfoldable pub asc_ul : Bytes → Base → ℕ
unfolding skip_blanks hex_loop oct_loop
asc_ul str hex = hex_loop (skip_blanks str) 0
asc_ul str oct = oct_loop (skip_blanks str) 0
