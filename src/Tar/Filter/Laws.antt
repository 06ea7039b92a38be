-- ===== src/Tar/Filter/Laws.antt =====
-- Which files are wanted, and when all filters have matched.
use qubes_core_agent_linux.Base.{
  ℕ, ◌+◌, ◌≤◌, ◌<◌, ◌≡◌, ◌↔◌, ◌⊎◌, inl, inr, refl, true, Bool-cases, List, [], ◌∷◌, ◌++◌, arith,
  length, ltb, All, Bytes, NonNul, c_str, strncmp_eq, if◌then◌else◌,
}
use qubes_core_agent_linux.Tar.Filter.{
  Filter, Filters, matches_name, filter_loop, apply_filters, all_matched,
}

-- The text begins the string in the buffer.
abbrev pub Begins : Bytes → Bytes → Type 0
Begins text namebuf = (rest : Bytes) × (c_str namebuf ≡ text ++ rest)

-- Comparing as many bytes as a text has tests whether the text begins the string.
pub strncmp_eq-Begins :
    (namebuf text : Bytes)
    → All NonNul text
    → (strncmp_eq namebuf text (length text) ≡ true) ↔ Begins text namebuf
unfolding strncmp_eq c_str
strncmp_eq-Begins namebuf [] h = (λ _. (c_str namebuf, refl), λ _. refl)
strncmp_eq-Begins [] (d ∷ text) h = (λ e. absurd (ground arith), λ b. cc (b.1))
strncmp_eq-Begins (c ∷ namebuf) (d ∷ text) h =
    let ih = strncmp_eq-Begins namebuf text h.1 in
    (
      λ e.
          let tail : strncmp_eq namebuf text (length text) ≡ true = ground arith in
          let (rest, same) = ih.0 tail in (rest, ground arith),
      λ (rest, same).
          let tail : c_str namebuf ≡ text ++ rest = ground arith in
          let again = ih.1 (rest, tail) in ground arith,
    )

-- How many filters have matched a file.
abbrev pub count_matched : List Filter → ℕ
count_matched [] = 0
count_matched (f ∷ fs) = (if ltb 0 f.matches then 1 else 0) + count_matched fs

-- The cached count is right.
pub record IsCounted (fs : Filters) : Type 0 where
  pub counted : fs.matched_filters ≡ count_matched fs.filters

filter_loop-counted :
    (namebuf : Bytes) (fs : List Filter) (matched : ℕ)
    → (filter_loop namebuf fs matched).after.matched_filters + count_matched fs
      ≡ matched + count_matched (filter_loop namebuf fs matched).after.filters
unfolding filter_loop
filter_loop-counted namebuf [] matched = refl
filter_loop-counted namebuf (f ∷ fs) matched =
    ground (arith, filter_loop-counted namebuf fs matched)

-- `matched_filters` stays the number of filters that have matched at least one file.
pub apply_filters-IsCounted :
    (namebuf : Bytes) (fs : Filters) → IsCounted fs → IsCounted (apply_filters namebuf fs).after
unfolding apply_filters
apply_filters-IsCounted namebuf fs h = record { counted = go fs.filters refl }
  where
    go :
        (l : List Filter)
        → fs.filters ≡ l
        → (apply_filters namebuf fs).after.matched_filters
          ≡ count_matched (apply_filters namebuf fs).after.filters
    go [] e = rw (e, apply_filters) h.counted
    go (f ∷ l) e =
        rw (e, apply_filters)
          (omega (arith, filter_loop-counted namebuf fs.filters fs.matched_filters, h.counted))

-- Every filter has matched a file.
abbrev pub AllMatched : List Filter → Type 0
AllMatched fs = All (λ f. 0 < f.matches) fs

count_matched-le : (fs : List Filter) → count_matched fs ≤ length fs
count_matched-le [] = omega arith
count_matched-le (f ∷ fs) = ground (arith, count_matched-le fs)

count_matched-AllMatched : (fs : List Filter) → (length fs ≡ count_matched fs) ↔ AllMatched fs
count_matched-AllMatched [] = (λ _. tt, λ _. refl)
count_matched-AllMatched (f ∷ fs) = ground (arith, count_matched-AllMatched fs, count_matched-le fs)

-- The test for the end of the requested data holds exactly when there are filters and each of them
-- has matched a file.
pub all_matched-AllMatched :
    (fs : Filters)
    → IsCounted fs
    → (all_matched fs ≡ true) ↔ ((0 < length fs.filters) × AllMatched fs.filters)
unfolding all_matched
all_matched-AllMatched fs h =
    let same = count_matched-AllMatched fs.filters in ground (arith, h.counted)

abbrev pub AnyBegins : Bytes → List Filter → Type 0
AnyBegins namebuf [] = ⊥
AnyBegins namebuf (f ∷ fs) = Begins f.text namebuf ⊎ AnyBegins namebuf fs

-- A filter is a command-line argument, so it holds no NUL.
abbrev pub AreStrings : List Filter → Type 0
AreStrings fs = All (λ f. All NonNul f.text) fs

filter_loop-AnyBegins :
    (namebuf : Bytes) (fs : List Filter) (matched : ℕ)
    → AreStrings fs
    → ((filter_loop namebuf fs matched).should_extract ≡ true) ↔ AnyBegins namebuf fs
unfolding filter_loop
filter_loop-AnyBegins namebuf [] matched h = (λ e. cc, λ b. absurd b)
filter_loop-AnyBegins namebuf (f ∷ fs) matched h =
    let ih = filter_loop-AnyBegins namebuf fs matched h.1 in
    let here = strncmp_eq-Begins namebuf f.text h.0 in
    elim (Bool-cases (matches_name namebuf f)) [
      | inl e ↦ rw e (λ _. inl (here.0 e), λ _. refl)
      | inr e ↦ rw e (
        λ t. inr (ih.0 t),
        λ b. ih.1 (elim b [ inl n ↦ (let t = here.1 n in absurd (cc (t, e))) | inr m ↦ m ]),
      )
    ]

-- A file is extracted exactly when no filter is given or the text of one begins its name.
pub apply_filters-AnyBegins :
    (namebuf : Bytes) (fs : Filters)
    → AreStrings fs.filters
    → ((apply_filters namebuf fs).should_extract ≡ true)
      ↔ ((fs.filters ≡ []) ⊎ AnyBegins namebuf fs.filters)
unfolding apply_filters
apply_filters-AnyBegins namebuf fs h = go fs.filters refl
  where
    go :
        (l : List Filter)
        → fs.filters ≡ l
        → ((apply_filters namebuf fs).should_extract ≡ true)
          ↔ ((fs.filters ≡ []) ⊎ AnyBegins namebuf fs.filters)
    go [] e = rw (e, apply_filters) (λ _. inl refl, λ _. refl)
    go (f ∷ l) e =
        let loop = filter_loop-AnyBegins namebuf fs.filters fs.matched_filters h in
        rw (e, apply_filters)
          (
            λ t. inr (rw e at (loop.0 t)),
            λ b. loop.1 (elim b [ inl n ↦ absurd (cc (n)) | inr m ↦ rw e m ]),
          )
