-- ===== src/Tar/Name/Clean.antt =====
-- Headers whose prefix and name end within the bytes that are copied: the buffer holds the entry's
-- own name, whatever earlier entries left there.
use qubes_core_agent_linux.Base.{
  ℕ, ◌+◌, ◌-◌, ◌^◌, ◌≤◌, ◌<◌, min, ◌≡◌, refl, ap, ◌∙◌, inl, inr, Bool-cases, [], ◌∷◌, ◌++◌, none,
  some, arith, length, take, drop, replicate, length-append, length-drop, append_assoc, append-nil,
  All, All-append, Bytes, NonNul, c_str, strncpy, c_str-append, c_str_nul, c_str-NonNul,
  strlen-append_nul, strncpy-c_str, length-replicate, length-strncpy, drop-append, ◌==◌,
  if◌then◌else◌,
}
use qubes_core_agent_linux.Tar.Header.{name, prefix, at, first_byte}
use qubes_core_agent_linux.Tar.Name.{Named, put_prefix, copy_prefix, copy_name, assemble_name, room}
use qubes_core_agent_linux.Tar.Name.Write.{write_at-append, room-sub}

-- The strings that the two copies can see: they go one byte past their fields.
abbrev pub prefix_text : Bytes → Bytes
prefix_text block = c_str (take 156 (at prefix block))

abbrev pub name_text : Bytes → Bytes
name_text block = c_str (take 101 (at name block))

-- What stands before the name: nothing, or the prefix and a slash.
pub lead : Bytes → Bytes
lead block = if first_byte prefix block == 0 then [] else prefix_text block ++ (b'/' ∷ [])

unfoldable pub full_name : Bytes → Bytes
unfolding lead
full_name block = lead block ++ name_text block

pub record IsClean (block : Bytes) : Type 0 where
  pub prefix_ends : length (prefix_text block) < 156
  pub name_ends : length (name_text block) < 101

-- A copy of a string that ends in time, over the head of `rest`: the string, a NUL, the padding, and
-- what `rest` held behind.
copied-c_str :
    (n : ℕ) (source rest : Bytes)
    → length (c_str (take n source)) < n
    → strncpy n source ++ drop (length (strncpy n source)) rest
      ≡ c_str (take n source)
        ++ (0 ∷ (replicate (n - length (c_str (take n source)) - 1) 0 ++ drop n rest))
copied-c_str n source rest ends =
    rw (length-strncpy n source, strncpy-c_str n source ends) (rw append_assoc)

copy_name-ends :
    (before rest source : Bytes)
    → length (c_str (take 101 source)) < 101
    → 101 ≤ length rest
    → length before + length rest < 2 ^ 64
    → (tail : Bytes) × (copy_name source (before ++ rest) (length before)
        ≡ some (record {
          namebuf = before ++ (c_str (take 101 source) ++ (0 ∷ tail));
          namelen = length before + length (c_str (take 101 source)) + 1;
        }))
      × (length (c_str (take 101 source)) + 1 + length tail ≡ length rest)
unfolding copy_name
copy_name-ends before rest source ends fits small =
    let text : Bytes = c_str (take 101 source) in
    let pad : Bytes = replicate (101 - length text - 1) 0 in
    let total = length-append before rest in
    let cut : min 101 (room (before ++ rest) (length before)) ≡ 101 = omega (
      arith,
      room-sub (before ++ rest) (length before) (omega (arith, total))
          (omega (arith, total, small)),
      total,
      fits,
    ) in
    let write =
      write_at-append before rest (strncpy 101 source)
        (omega (arith, length-strncpy 101 source, fits)) in
    (
      pad ++ drop 101 rest,
      rw
          (
            cut,
            write,
            copied-c_str 101 source rest ends,
            drop-append before,
            strlen-append_nul text (pad ++ drop 101 rest) (c_str-NonNul (take 101 source)),
          )
          refl,
      omega (
        arith,
        length-append pad (drop 101 rest),
        length-drop 101 rest,
        length-replicate {A = ℕ} (101 - length text - 1) 0,
        ends,
        fits,
      ),
    )

abbrev led : Bytes → Bytes
led block = prefix_text block ++ (b'/' ∷ [])

put_prefix-ends :
    (block buf : Bytes)
    → length (prefix_text block) < 156
    → 157 ≤ length buf
    → (rest : Bytes) × (put_prefix block buf
        ≡ some (record { namebuf = led block ++ rest; cnt = length (led block) }))
      × (length (led block) + length rest ≡ length buf)
unfolding put_prefix drop
put_prefix-ends block buf ends fits =
    let text : Bytes = prefix_text block in
    let tail : Bytes = replicate (156 - length text - 1) 0 ++ drop 156 buf in
    let cut : min (length buf - 1) 156 ≡ 156 = omega (arith, fits) in
    let write =
      write_at-append [] buf (strncpy 156 (at prefix block))
        (omega (arith, length-strncpy 156 (at prefix block), fits)) in
    let size = length-append text (b'/' ∷ []) in
    let count : length text + 1 ≡ length (led block) = omega (arith, size) in
    (
      tail,
      rw (cut, write, copied-c_str 156 (at prefix block) buf ends)
          (rw (strlen-append_nul text tail (c_str-NonNul _)) (
            rw (write_at-append text (0 ∷ tail) (b'/' ∷ []) (omega arith))
              (rw (append_assoc, count) refl))),
      omega (
        arith,
        size,
        length-append (replicate (156 - length text - 1) 0) (drop 156 buf),
        length-drop 156 buf,
        length-replicate {A = ℕ} (156 - length text - 1) 0,
        ends,
        fits,
      ),
    )

copy_prefix-ends :
    (block buf : Bytes)
    → length (prefix_text block) < 156
    → 157 ≤ length buf
    → (rest : Bytes) × (copy_prefix block buf
        ≡ some (record { namebuf = lead block ++ rest; cnt = length (lead block) }))
      × (length (lead block) + length rest ≡ length buf)
unfolding copy_prefix lead
copy_prefix-ends block buf ends fits = elim (Bool-cases (first_byte prefix block == 0)) [
  | inl e ↦ (buf, rw e, rw e (omega arith))
  | inr e ↦ rw e (put_prefix-ends block buf ends fits)
]

length-lead : (block : Bytes) → length (prefix_text block) < 156 → length (lead block) ≤ 156
unfolding lead
length-lead block ends = ground (arith, length-append (prefix_text block) (b'/' ∷ []))

lead-NonNul : (block : Bytes) → All NonNul (lead block)
unfolding lead
lead-NonNul block = ground (
  arith,
  All-append NonNul (prefix_text block) (b'/' ∷ []) (c_str-NonNul (take 156 (at prefix block)))
      (omega arith, tt),
)

-- For a header whose prefix and name end in time, and a buffer with room for both, the buffer then
-- holds the prefix, a slash and the name (or the name alone, if there is no prefix) as its string,
-- `namelen` is the length of that with its NUL, and the buffer keeps its size.
pub assemble_name-full_name :
    (block buf : Bytes)
    → IsClean block
    → 257 ≤ length buf
    → length buf < 2 ^ 64
    → (r : Named) × (assemble_name block none buf ≡ some r)
      × (c_str r.namebuf ≡ full_name block)
      × (r.namelen ≡ length (full_name block) + 1)
      × (length r.namebuf ≡ length buf)
unfolding assemble_name full_name
assemble_name-full_name block buf clean fits small =
    let (rest, placed, total) =
      copy_prefix-ends block buf clean.prefix_ends (omega (arith, fits)) in
    let lead_fits = length-lead block clean.prefix_ends in
    let (tail, named, total') =
      copy_name-ends (lead block) rest (at name block) clean.name_ends
        (omega (arith, total, lead_fits, fits)) (omega (arith, total, small)) in
    (
      record {
        namebuf = lead block ++ (name_text block ++ (0 ∷ tail));
        namelen = length (lead block) + length (name_text block) + 1;
      },
      rw placed named,
      c_str-append (lead block) _ (lead-NonNul block)
          ∙ ap (◌++◌ (lead block)) (
              c_str-append (name_text block) (0 ∷ tail) (c_str-NonNul (take 101 (at name block)))
              ∙ rw c_str_nul (append-nil (name_text block))),
      omega (arith, length-append (lead block) (name_text block)),
      omega (
        arith,
        length-append (lead block) (name_text block ++ (0 ∷ tail)),
        length-append (name_text block) (0 ∷ tail),
        total,
        total',
      ),
    )
