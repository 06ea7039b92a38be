-- ===== src/Tar/Filter.antt =====
-- `struct filters` of qubes-rpc/tar2qfile.c, the loop of `ustar_rd` that decides whether a file is
-- wanted, and the test of `tar_file_processor` for the end of the requested data. `filters[i]` and
-- `filters_matches[i]` are the two fields of element `i` of one list. A count is a number: an `int`
-- holds it below 2 ^ 31 files.
pub mod Laws
pub mod Text
use qubes_core_agent_linux.Base.{
  ℕ, ◌+◌, Bool, true, false, ◌&&◌, List, [], ◌∷◌, length, ltb, ◌==◌, Bytes, strncmp_eq,
  if◌then◌else◌,
}

pub record Filter : Type 0 where
  pub text : Bytes
  pub matches : ℕ

pub record Filters : Type 0 where
  pub filters : List Filter
  pub matched_filters : ℕ

-- Whether the file is to be extracted, and the filters behind the loop.
pub record Decision : Type 0 where
  pub should_extract : Bool
  pub after : Filters

abbrev matches_name : Bytes → Filter → Bool
matches_name namebuf f = strncmp_eq namebuf f.text (length f.text)

-- The rounds of the loop. The first match ends it.
unfoldable pub filter_loop : Bytes → List Filter → ℕ → Decision
filter_loop namebuf [] matched = record {
  should_extract = false;
  after = record { filters = []; matched_filters = matched };
}
filter_loop namebuf (f ∷ fs) matched =
    let rest = filter_loop namebuf fs matched in
    if matches_name namebuf f
    then record {
      should_extract = true;
      after = record {
        filters = record f { matches = f.matches + 1 } ∷ fs;
        matched_filters = if f.matches + 1 == 1 then matched + 1 else matched;
      };
    }
    else record {
      should_extract = rest.should_extract;
      after = record {
        filters = f ∷ rest.after.filters;
        matched_filters = rest.after.matched_filters;
      };
    }

-- With no filter the loop has no round, and `should_extract` keeps its first value.
unfoldable pub apply_filters : Bytes → Filters → Decision
unfolding filter_loop
apply_filters namebuf fs = elim fs.filters [
  | [] ↦ record { should_extract = true; after = fs }
  | _ ∷ _ ↦ filter_loop namebuf fs.filters fs.matched_filters
]

-- `filters_count > 0 && filters_count == matched_filters`
unfoldable pub all_matched : Filters → Bool
all_matched fs = ltb 0 (length fs.filters) && length fs.filters == fs.matched_filters
