-- ===== src/Agent/Parts.antt =====
-- What the loop of qubes-rpc/qfile-agent.c makes of any path.
use qubes_core_agent_linux.Base.{
  ℕ, zero, suc, ◌<◌, ◌≡◌, ◌≢◌, refl, sym, ap, ◌∙◌, inl, inr, false, Bool-cases, Option-cases, [],
  ◌∷◌, ◌++◌, append_assoc, append-nil, Option, none, some, arith, length, length-append, replicate,
  occurs, ◌==◌, Bytes,
}
use qubes_core_agent_linux.Agent.{
  Cut, cut_last, Split, parts, nonabsolute, no_fuel, after_cut, split_loop,
}

abbrev IsCut : Bytes → Option Cut → Type 0
IsCut s none = occurs b'/' s ≡ false
IsCut s (some c) = (s ≡ c.entry ++ (b'/' ∷ c.behind)) × (occurs b'/' c.behind ≡ false)

cut_last-IsCut : (s : Bytes) → IsCut s (cut_last s)
unfolding cut_last occurs
cut_last-IsCut [] = refl
cut_last-IsCut (c ∷ s) = elim (Option-cases (cut_last s)) [
  | inl e ↦
      let rest : IsCut s none = rw e at (cut_last-IsCut s) in
      elim (Bool-cases (c == b'/')) [
        | inl f ↦ rw (e, f) (ap (λ k. k ∷ s) (ground arith), rest)
        | inr f ↦ rw (e, f) (rw f rest)
      ]
  | inr (cut, e) ↦
      let rest : IsCut s (some cut) = rw e at (cut_last-IsCut s) in rw e (ap (◌∷◌ c) rest.0, rest.1)
]

replicate-append : (k : ℕ) (c : ℕ) → replicate k c ++ (c ∷ []) ≡ replicate (suc k) c
replicate-append zero c = refl
replicate-append (suc k) c = ap (◌∷◌ c) (replicate-append k c)

-- The directory, a slash, the entry, which is not empty and has no slash, and more slashes; or, where
-- the path is refused, a text with no slash and then slashes only.
unfoldable pub IsSplit : Bytes → Split → Type 0
IsSplit path (parts entry name) =
    (k : ℕ) × (path ≡ entry ++ (b'/' ∷ (name ++ replicate k b'/')))
    × (name ≢ [])
    × (occurs b'/' name ≡ false)
IsSplit path nonabsolute =
    (k : ℕ) × (rest : Bytes) × (path ≡ rest ++ replicate k b'/') × (occurs b'/' rest ≡ false)
IsSplit path no_fuel = ⊥

-- One slash more at the end.
IsSplit-slash : (path : Bytes) (r : Split) → IsSplit path r → IsSplit (path ++ (b'/' ∷ [])) r
unfolding IsSplit
IsSplit-slash path (parts entry name) (k, e, n, o) = (
  suc k,
  ap (λ p. p ++ (b'/' ∷ [])) e
      ∙ append_assoc entry (b'/' ∷ (name ++ replicate k b'/')) (b'/' ∷ [])
      ∙ ap (λ t. entry ++ (b'/' ∷ t))
          (append_assoc name (replicate k b'/') (b'/' ∷ [])
            ∙ ap (λ t. name ++ t) (replicate-append k b'/')),
  n,
  o,
)
IsSplit-slash path nonabsolute (k, rest, e, o) = (
  suc k,
  rest,
  ap (λ p. p ++ (b'/' ∷ [])) e
      ∙ append_assoc rest (replicate k b'/') (b'/' ∷ [])
      ∙ ap (λ t. rest ++ t) (replicate-append k b'/'),
  o,
)
IsSplit-slash path no_fuel h = absurd h

after_cut-IsSplit :
    (entry behind : Bytes) (again : Split)
    → IsSplit entry again
    → occurs b'/' behind ≡ false
    → IsSplit (entry ++ (b'/' ∷ behind)) (after_cut entry behind again)
unfolding IsSplit
after_cut-IsSplit entry [] again h o = IsSplit-slash entry again h
after_cut-IsSplit entry (c ∷ name) again h o =
    (0, ap (λ t. entry ++ (b'/' ∷ t)) (sym (append-nil (c ∷ name))), (λ e. cc), o)

-- For every path, with more fuel than it has bytes, the loop ends, and parts the path at the last
-- slash that does not stand at its end, without the slashes there; it refuses just a text with no
-- slash, with or without slashes behind it, so also a path of slashes only.
pub split_loop-IsSplit :
    (fuel : ℕ) (path : Bytes) → length path < fuel → IsSplit path (split_loop fuel path)
unfolding split_loop IsSplit
split_loop-IsSplit zero path h = absurd (omega arith)
split_loop-IsSplit (suc fuel) path h = elim (Option-cases (cut_last path)) [
  | inl e ↦
      let whole : IsCut path none = rw e at (cut_last-IsCut path) in
      rw (split_loop, e) (0, path, sym (append-nil path), whole)
  | inr (cut, e) ↦
      let whole : IsCut path (some cut) = rw e at (cut_last-IsCut path) in
      let shorter : length cut.entry < fuel =
        omega (arith, ap length whole.0, length-append cut.entry (b'/' ∷ cut.behind)) in
      rw (split_loop, e)
        (rw (whole.0) (
          after_cut-IsSplit cut.entry cut.behind (split_loop fuel cut.entry)
            (split_loop-IsSplit fuel cut.entry shorter) whole.1))
]
