-- ===== src/Tar/Directory/Parts.antt =====
-- The parts of a name that `strtok` finds, and the directories that qubes-rpc/tar2qfile.c takes to
-- stand above it, without the text being read from left to right.
use mathlib.Core.List
use qubes_core_agent_linux.Base.{
  ℕ, ◌≡◌, refl, sym, ap, ◌∙◌, true, false, Bool-cases, inl, inr, List, [], ◌∷◌, ◌++◌, append_assoc,
  some, arith, append-nil, occurs, ◌==◌, Bytes,
}
use qubes_core_agent_linux.Tar.Directory.{strtok_from, strtok_all, extend_path}
use qubes_core_agent_linux.Tar.Directory.Ordering.{parents_from, parents_of, parents}

-- The end of a text, or a slash.
abbrev pub StartsBehind : Bytes → Type 0
StartsBehind [] = Unit
StartsBehind (c ∷ s) = c ≡ b'/'

-- The parts of a name: what stands between slashes, where that is not empty.
pub data HasParts : Bytes → List Bytes → Type 0 where
  no_part : HasParts [] []
  slash : {name : Bytes} {ps : List Bytes} → HasParts name ps → HasParts (b'/' ∷ name) ps
  part :
      (c : ℕ) (p : Bytes) {rest : Bytes} {ps : List Bytes}
      → occurs b'/' (c ∷ p) ≡ false
      → StartsBehind rest
      → HasParts rest ps
      → HasParts ((c ∷ p) ++ rest) ((c ∷ p) ∷ ps)

-- A part that was begun, and what is left of the text.
record Begun (token s : Bytes) (ps : List Bytes) : Type 0 where
  more : Bytes
  rest : Bytes
  later : List Bytes
  text : s ≡ more ++ rest
  clean : occurs b'/' more ≡ false
  stops : StartsBehind rest
  found : ps ≡ (token ++ more) ∷ later
  parts : HasParts rest later

at_slash :
    (c : ℕ) (s : Bytes) (ps : List Bytes) → (c == b'/') ≡ true → HasParts s ps → HasParts (c ∷ s) ps
at_slash c s ps e h = let is_slash : c ≡ b'/' = ground arith in rw is_slash (slash h)

begins :
    (c : ℕ) (s : Bytes) (ps : List Bytes)
    → (c == b'/') ≡ false
    → Begun (c ∷ []) s ps
    → HasParts (c ∷ s) ps
unfolding occurs
begins c s ps e b =
    let clean : occurs b'/' (c ∷ b.more) ≡ false = rw e b.clean in
    rw (b.text, b.found) (part c b.more clean b.stops b.parts)

goes_on :
    (c a : ℕ) (token s : Bytes) (ps : List Bytes)
    → (c == b'/') ≡ false
    → Begun (a ∷ (token ++ (c ∷ []))) s ps
    → Begun (a ∷ token) (c ∷ s) ps
unfolding occurs
goes_on c a token s ps e b = record {
  more = c ∷ b.more;
  rest = b.rest;
  later = b.later;
  text = ap (◌∷◌ c) b.text;
  clean = rw e b.clean;
  stops = b.stops;
  found = b.found ∙ ap (λ t. (a ∷ t) ∷ b.later) (append_assoc token (c ∷ []) b.more);
  parts = b.parts;
}

ends_at :
    (a : ℕ) (token s : Bytes) (ps : List Bytes)
    → StartsBehind s
    → HasParts s ps
    → Begun (a ∷ token) s ((a ∷ token) ∷ ps)
unfolding occurs
ends_at a token s ps stops h = record {
  more = [];
  rest = s;
  later = ps;
  text = refl;
  clean = refl;
  stops = stops;
  found = ap (λ t. (a ∷ t) ∷ ps) (sym (append-nil token));
  parts = h;
}

strtok_from-Begun :
    (s : Bytes)
    → HasParts s (strtok_all s)
      × ((a : ℕ) (token : Bytes) → Begun (a ∷ token) s (strtok_from (a ∷ token) s))
unfolding strtok_from
strtok_from-Begun [] = (no_part, λ a token. ends_at a token [] [] tt no_part)
strtok_from-Begun (c ∷ s) =
    let (here, inside) = strtok_from-Begun s in
    elim (Bool-cases (c == b'/')) [
      | inl e ↦
          let h = at_slash c s (strtok_all s) e here in
          rw e (h, λ a token. ends_at a token (c ∷ s) (strtok_all s) (ground arith) h)
      | inr e ↦ rw e (
        begins c s _ e (inside c []),
        λ a token. goes_on c a token s _ e (inside a (token ++ (c ∷ []))),
      )
    ]

-- The paths above the last of some parts, from the outermost on.
unfoldable pub above : List Bytes → List Bytes
above [] = []
above (p ∷ []) = []
above (p ∷ (q ∷ ps)) = p ∷ List.map (λ path. p ++ (b'/' ∷ path)) (above (q ∷ ps))

-- A path below a path below another.
map_below :
    (p q : Bytes) (paths : List Bytes)
    → List.map (λ path. (p ++ (b'/' ∷ q)) ++ (b'/' ∷ path)) paths
      ≡ List.map (λ path. p ++ (b'/' ∷ path)) (List.map (λ path. q ++ (b'/' ∷ path)) paths)
map_below p q [] = refl
map_below p q (path ∷ paths) =
    rw (append_assoc p (b'/' ∷ q) (b'/' ∷ path))
      (ap (◌∷◌ (p ++ (b'/' ∷ (q ++ (b'/' ∷ path))))) (map_below p q paths))

map-parents_from :
    (path last : Bytes) (tokens : List Bytes)
    → parents_from (some path) last tokens
      ≡ List.map (λ q. path ++ (b'/' ∷ q)) (above (last ∷ tokens))
unfolding parents_from above extend_path
map-parents_from path last [] = refl
map-parents_from path last (t ∷ tokens) =
    ap (◌∷◌ (path ++ (b'/' ∷ last)))
      (map-parents_from (path ++ (b'/' ∷ last)) t tokens ∙ map_below path last (above (t ∷ tokens)))

parents_of-above : (tokens : List Bytes) → parents_of tokens ≡ above tokens
unfolding parents_from above extend_path
parents_of-above [] = refl
parents_of-above (t ∷ []) = refl
parents_of-above (t ∷ (u ∷ tokens)) = ap (◌∷◌ t) (map-parents_from t u tokens)

-- For every name: its directories are the joins of its leading parts, from the outermost on, without
-- the whole name; the parts are what stands between slashes where that is not empty.
pub parents-HasParts :
    (name : Bytes) → (ps : List Bytes) × HasParts name ps × (parents name ≡ above ps)
unfolding parents
parents-HasParts name =
    (strtok_all name, (strtok_from-Begun name).0, parents_of-above (strtok_all name))
