-- ===== src/Tar/Name/Full.antt =====
-- A name that fills its field, as the format allows it: the byte behind the field is taken into it.
use qubes_core_agent_linux.Base.{
  ℕ, zero, suc, ◌^◌, ◌≤◌, ◌<◌, min, ◌≡◌, ◌≢◌, refl, sym, ap, ◌∙◌, [], ◌∷◌, ◌++◌, none, some, arith,
  length, take, drop, get_or, length-append, length-take, append-nil, All, All-append, Bytes,
  NonNul, c_str, c_str-append, c_str_nul, strncpy, strlen-append_nul, strncpy-NonNul,
  drop-append_eq,
}
use qubes_core_agent_linux.Tar.Header.{name, mode, prefix, at, field, first_byte}
use qubes_core_agent_linux.Tar.Name.{Named, room, copy_prefix, copy_name, assemble_name}
use qubes_core_agent_linux.Tar.Name.Write.{write_at-append, room-sub}

pub record IsFull (block : Bytes) : Type 0 where
  pub name_full : All NonNul (field name block)
  pub mode_used : first_byte mode block ≢ 0
  pub no_prefix : first_byte prefix block ≡ 0
  pub long : 101 ≤ length block

take-suc :
    (n : ℕ) (xs : Bytes)
    → n < length xs
    → take (suc n) xs ≡ take n xs ++ (get_or (drop n xs) 0 0 ∷ [])
unfolding take drop
take-suc n [] h = absurd (omega arith)
take-suc zero (x ∷ xs) h = refl
take-suc (suc n) (x ∷ xs) h = ap (◌∷◌ x) (take-suc n xs (omega arith))

-- What is copied.
abbrev pub overlong : Bytes → Bytes
overlong block = field name block ++ (first_byte mode block ∷ [])

take-overlong : (block : Bytes) → IsFull block → take 101 (at name block) ≡ overlong block
unfolding drop
take-overlong block full = take-suc 100 block (omega (arith, full.long))

overlong-NonNul : (block : Bytes) → IsFull block → All NonNul (overlong block)
overlong-NonNul block full =
    All-append NonNul (field name block) (first_byte mode block ∷ []) full.name_full
      (full.mode_used, tt)

-- Where the name fills its field with no NUL, the mode behind it has a first byte and there is no
-- prefix, and the buffer has a NUL behind 101 bytes, as it has in the beginning: the name that comes
-- out is the field with the first byte of the mode behind it, and its length with the NUL is 102.
pub assemble_name-overlong :
    (block before rest : Bytes)
    → IsFull block
    → length before ≡ 101
    → length (before ++ (0 ∷ rest)) < 2 ^ 64
    → (r : Named) × (assemble_name block none (before ++ (0 ∷ rest)) ≡ some r)
      × (c_str r.namebuf ≡ field name block ++ (first_byte mode block ∷ []))
      × (r.namelen ≡ 102)
unfolding assemble_name copy_prefix copy_name drop
assemble_name-overlong block before rest full size small =
    let buf = before ++ (0 ∷ rest) in
    let total = length-append before (0 ∷ rest) in
    let text = overlong block in
    let clean = overlong-NonNul block full in
    let whole : length text ≡ 101 =
      ap length (sym (take-overlong block full))
      ∙ length-take 101 (at name block)
      ∙ omega (arith, full.long) in
    let cut : min 101 (room buf 0) ≡ 101 =
      omega (arith, room-sub buf 0 (omega arith) small, total, size) in
    let copy : strncpy 101 (at name block) ≡ text =
      strncpy-NonNul 101 (at name block) (rw (take-overlong block full) clean)
        (omega (arith, full.long))
      ∙ take-overlong block full in
    let left : drop (length text) buf ≡ 0 ∷ rest =
      drop-append_eq (length text) before (0 ∷ rest) (size ∙ sym whole) in
    let write = write_at-append [] buf text (omega (arith, total, size, whole)) in
    (
      record { namebuf = text ++ (0 ∷ rest); namelen = 102 },
      rw (full.no_prefix, cut, copy, write, left, strlen-append_nul text rest clean, whole) refl,
      c_str-append text (0 ∷ rest) clean ∙ rw (c_str_nul rest) (append-nil text),
      refl,
    )
