-- ===== src/Tar/Name/Overrun.antt =====
-- Headers whose prefix and name fill all the bytes that are copied. The copy then has no NUL of its
-- own, `strlen` goes on into what an earlier entry left, and the next name is put behind that.
use Prim.Native.Nat.{max}
use qubes_core_agent_linux.Base.{
  ℕ, zero, suc, ◌+◌, ◌-◌, ◌*◌, ◌^◌, ◌≤◌, ◌<◌, min, ◌≡◌, ◌⊎◌, refl, sym, ap, ◌∙◌, inl, inr,
  Bool-cases, leb, leb→le, List, [], ◌∷◌, ◌++◌, Option, none, some, ◌>>=◌, arith, length, take,
  drop, replicate, length-append, length-take, length-replicate, append_assoc, append-nil, All,
  All-append, Bytes, NonNul, strncpy, strlen-NonNul, strncpy-NonNul,
}
use qubes_core_agent_linux.Tar.Header.{name, prefix, at}
use qubes_core_agent_linux.Tar.Name.{Named, write_at, put_prefix, copy_prefix, assemble_name}
use qubes_core_agent_linux.Tar.Name.Write.{write_at-append}
use qubes_core_agent_linux.Tar.Name.Zeros.{
  get_or-NonNul, Over, overwrite, strlen-zeros, copy_name_fault, copy_name_grow,
}

pub record IsUnending (block : Bytes) : Type 0 where
  pub prefix_full : All NonNul (take 156 (at prefix block))
  pub prefix_long : 156 ≤ length (at prefix block)
  pub name_full : All NonNul (take 101 (at name block))
  pub name_long : 101 ≤ length (at name block)

-- The names of one header after the other, with no header refused: the buffer behind them.
unfoldable pub assemble_all : List Bytes → Bytes → Option Bytes
assemble_all [] buf = some buf
assemble_all (block ∷ blocks) buf = do
  r ← assemble_name block none buf
  assemble_all blocks r.namebuf

-- What an entry makes of text with zeros behind it: a fault, or more text with fewer zeros.
abbrev Next : Bytes → Bytes → ℕ → Type 0
Next block xs z =
    (assemble_name block none (xs ++ replicate z 0) ≡ none)
    ⊎ ((r : Named) × (ys : Bytes) × (k : ℕ) × (assemble_name block none (xs ++ replicate z 0)
          ≡ some r)
        × (r.namebuf ≡ ys ++ replicate k 0)
        × All NonNul ys
        × (length ys ≡ max (length xs) 156 + 102)
        × (length ys + k ≡ length xs + z)
        × (0 < k))

module _ (block : Bytes) (unending : IsUnending block) (xs : Bytes) (z : ℕ) (hxs : All NonNul xs)
    (wide : 157 ≤ length xs + z) (small : length xs + z < 2 ^ 64) where
  abbrev copied : Over (take 156 (at prefix block)) xs z
  copied =
      overwrite (take 156 (at prefix block)) xs z unending.prefix_full hxs
        (omega (arith, length-take 156 (at prefix block), wide))

  write-prefix :
      write_at 0
        (strncpy (min (length (xs ++ replicate z 0) - 1) 156) (at prefix block))
        (xs ++ replicate z 0)
      ≡ some (copied.text ++ replicate copied.zeros 0)
  write-prefix =
      let total = length-append xs (replicate z 0) in
      let zs = length-replicate {A = ℕ} z 0 in
      let cut : min (length (xs ++ replicate z 0) - 1) 156 ≡ 156 = omega (arith, total, zs, wide) in
      let new = strncpy-NonNul 156 (at prefix block) unending.prefix_full unending.prefix_long in
      rw (cut, new)
        (write_at-append [] (xs ++ replicate z 0) (take 156 (at prefix block))
            (omega (arith, total, zs, length-take 156 (at prefix block), wide))
          ∙ ap some copied.joined)

  -- With no zero left the prefix has no end.
  put_prefix_fault : copied.zeros ≡ 0 → put_prefix block (xs ++ replicate z 0) ≡ none
  unfolding put_prefix
  put_prefix_fault e = rw (write-prefix, e, append-nil, strlen-NonNul copied.text copied.text_full)

  put_prefix_grow :
      (k : ℕ)
      → copied.zeros ≡ suc k
      → put_prefix block (xs ++ replicate z 0)
        ≡ some (record {
          namebuf = (copied.text ++ (b'/' ∷ [])) ++ replicate k 0;
          cnt = length (copied.text ++ (b'/' ∷ []));
        })
  unfolding put_prefix drop
  put_prefix_grow k e =
      let cnt : length copied.text + 1 ≡ length (copied.text ++ (b'/' ∷ [])) =
        omega (arith, length-append copied.text (b'/' ∷ [])) in
      rw (
        write-prefix,
        e,
        strlen-zeros copied.text k copied.text_full,
        write_at-append copied.text (replicate (suc k) 0) (b'/' ∷ []) (omega arith),
        append_assoc,
        cnt,
      )

  prefixed : copy_prefix block (xs ++ replicate z 0) ≡ put_prefix block (xs ++ replicate z 0)
  unfolding copy_prefix
  prefixed =
      let named = get_or-NonNul (at prefix block) unending.prefix_full unending.prefix_long in
      ground arith

  -- The next name goes behind all text that the buffer holds, or out of the buffer.
  pub assemble_name-Grown : Next block xs z
  unfolding assemble_name
  assemble_name-Grown = go copied.zeros refl
    where
      text : Bytes
      text = copied.text ++ (b'/' ∷ [])

      htext : All NonNul text
      htext = All-append NonNul copied.text (b'/' ∷ []) copied.text_full (omega arith, tt)

      size : length text ≡ max (length xs) 156 + 1
      size = omega (
        arith,
        length-append copied.text (b'/' ∷ []),
        copied.text_size,
        length-take 156 (at prefix block),
        unending.prefix_long,
      )

      go : (k : ℕ) → copied.zeros ≡ k → Next block xs z
      go zero e = inl (rw (prefixed, put_prefix_fault e))
      go (suc k) e =
          let sum : length text + k ≡ length xs + z =
            omega (arith, copied.total, e, length-append copied.text (b'/' ∷ [])) in
          elim (Bool-cases (leb k 101)) [
            | inl end ↦ inl (
                rw (prefixed, put_prefix_grow k e)
                  (copy_name_fault (at name block) text k unending.name_full unending.name_long
                    htext (omega (arith, sum, small)) (leb→le _ _ end)))
            | inr more ↦ inr (
              record {
                namebuf = text ++ (take 101 (at name block) ++ replicate (k - 101) 0);
                namelen = length text + 101 + 1;
              },
              text ++ take 101 (at name block),
              k - 101,
              rw (prefixed, put_prefix_grow k e)
                  (copy_name_grow (at name block) text k unending.name_full unending.name_long htext
                    (omega (arith, sum, small)) (ground arith)),
              sym (append_assoc text (take 101 (at name block)) (replicate (k - 101) 0)),
              All-append NonNul text (take 101 (at name block)) htext unending.name_full,
              omega (
                arith,
                length-append text (take 101 (at name block)),
                size,
                length-take 101 (at name block),
                unending.name_long,
              ),
              ground (
                arith,
                length-append text (take 101 (at name block)),
                sum,
                length-take 101 (at name block),
                unending.name_long,
              ),
              ground arith,
            )
          ]

overrun_from :
    (block : Bytes) (n : ℕ) (xs : Bytes) (z : ℕ)
    → IsUnending block
    → All NonNul xs
    → 157 ≤ length xs + z
    → length xs + z < 2 ^ 64
    → length xs + z ≤ max (length xs) 156 + 102 * suc n
    → assemble_all (replicate (suc n) block) (xs ++ replicate z 0) ≡ none
unfolding assemble_all
overrun_from block zero xs z unending hxs wide small h =
    elim (assemble_name-Grown block unending xs z hxs wide small) [
      | inl e ↦ rw e
      | inr (r, ys, k, e, buf, hys, size, total, pos) ↦ absurd (omega arith)
    ]
overrun_from block (suc n) xs z unending hxs wide small h =
    elim (assemble_name-Grown block unending xs z hxs wide small) [
      | inl e ↦ rw e
      | inr (r, ys, k, e, buf, hys, size, total, pos) ↦
          rw (e, buf)
            (overrun_from block n ys k unending hys (omega arith) (omega arith) (omega arith))
    ]

-- A header whose prefix and name have no NUL among the bytes that are copied, met often enough,
-- takes the name out of the buffer, whatever the size of the buffer: from an empty buffer, after at
-- most (size - 156) / 102 such headers, rounded up.
pub assemble_all_overrun :
    (block : Bytes) (size n : ℕ)
    → IsUnending block
    → 157 ≤ size
    → size < 2 ^ 64
    → size ≤ 156 + 102 * n
    → assemble_all (replicate n block) (replicate size 0) ≡ none
assemble_all_overrun block size zero unending wide small h = absurd (omega arith)
assemble_all_overrun block size (suc n) unending wide small h =
    overrun_from block n [] size unending tt (omega arith) (omega arith) (omega arith)
