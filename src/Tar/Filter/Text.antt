-- ===== src/Tar/Filter/Text.antt =====
-- The filters of qubes-rpc/tar2qfile.c see the name in the buffer up to its NUL.
use qubes_core_agent_linux.Base.{
  ℕ, zero, suc, ◌≡◌, refl, true, List, [], ◌∷◌, arith, length, Bytes, c_str, strncmp_eq,
}
use qubes_core_agent_linux.Tar.Filter.{Filter, Filters, Decision, filter_loop, apply_filters}

-- A comparison of the first bytes does not look behind the NUL.
strncmp_eq-c_str : (a b : Bytes) (n : ℕ) → strncmp_eq a b n ≡ strncmp_eq (c_str a) b n
unfolding strncmp_eq c_str
strncmp_eq-c_str a b zero = refl
strncmp_eq-c_str [] b (suc n) = refl
strncmp_eq-c_str (c ∷ a) [] (suc n) = ground arith
strncmp_eq-c_str (c ∷ a) (d ∷ b) (suc n) = ground (arith, strncmp_eq-c_str a b n)

filter_loop-c_str :
    (namebuf : Bytes) (fs : List Filter) (matched : ℕ)
    → filter_loop namebuf fs matched ≡ filter_loop (c_str namebuf) fs matched
unfolding filter_loop
filter_loop-c_str namebuf [] matched = refl
filter_loop-c_str namebuf (f ∷ fs) matched =
    rw (strncmp_eq-c_str namebuf f.text (length f.text), filter_loop-c_str namebuf fs matched)

-- The decision and the counts depend on the name alone.
pub apply_filters-c_str :
    (namebuf : Bytes) (fs : Filters) → apply_filters namebuf fs ≡ apply_filters (c_str namebuf) fs
unfolding apply_filters
apply_filters-c_str namebuf fs = go fs.filters
  where
    go :
        (l : List Filter)
        → ◌≡◌ {A = Decision}
            (elim l [
              | [] ↦ record { should_extract = true; after = fs }
              | _ ∷ _ ↦ filter_loop namebuf fs.filters fs.matched_filters
            ])
            (elim l [
              | [] ↦ record { should_extract = true; after = fs }
              | _ ∷ _ ↦ filter_loop (c_str namebuf) fs.filters fs.matched_filters
            ])
    go [] = refl
    go (f ∷ l) = filter_loop-c_str namebuf fs.filters fs.matched_filters
