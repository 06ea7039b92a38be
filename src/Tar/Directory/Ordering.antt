-- ===== src/Tar/Directory/Ordering.antt =====
-- The order of the headers in what the program sends: each directory at most once, and every file
-- behind the directories on its way.
use qubes_core_agent_linux.Base.{
  ℕ, ◌/◌, ◌%◌, ◌≡◌, refl, sym, ◌∙◌, Bool, true, false, List, [], ◌∷◌, ◌++◌, append_assoc,
  append-nil, Option, none, some, arith, All, ◌==◌, Bytes, strcmp_eq, if◌then◌else◌,
}
use qubes_core_agent_linux.Tar.Source.{Source}
use qubes_core_agent_linux.Tar.Machine.{Call, write_headers, State}
use qubes_core_agent_linux.Tar.Directory.{strtok_all, dir_found, extend_path}

-- The directories on the way to a name: its parts joined, from the first to the last but one.
unfoldable pub parents_from : Option Bytes → Bytes → List Bytes → List Bytes
parents_from path last_token [] = []
parents_from path last_token (token ∷ tokens) =
    extend_path path last_token ∷ parents_from (some (extend_path path last_token)) token tokens

abbrev pub parents_of : List Bytes → List Bytes
parents_of [] = []
parents_of (token ∷ tokens) = parents_from none token tokens

unfoldable pub parents : Bytes → List Bytes
parents name = parents_of (strtok_all name)

abbrev pub AllFound : List Bytes → List Bytes → Type 0
AllFound dirs ps = All (λ p. dir_found dirs p ≡ true) ps

-- The file type in the mode is `S_IFDIR`.
unfoldable pub is_dir : ℕ → Bool
is_dir mode = mode / 0x1000 % 16 == 4

-- The directories that a call announces.
abbrev pub new_dirs : Call → List Bytes
new_dirs (write_headers h path) = if is_dir h.mode then path ∷ [] else []
new_dirs _ = []

abbrev pub dirs_of : List Call → List Bytes
dirs_of [] = []
dirs_of (c ∷ cs) = new_dirs c ++ dirs_of cs

abbrev pub HeaderFits : Bool → List Bytes → Bytes → Type 0
HeaderFits true dirs path = dir_found dirs path ≡ false
HeaderFits false dirs path = AllFound dirs (parents path)

-- Behind headers for `dirs`: a directory is new, and a file comes behind its directories.
abbrev pub Fits : List Bytes → Call → Type 0
Fits dirs (write_headers h path) = HeaderFits (is_dir h.mode) dirs path
Fits dirs _ = Unit

abbrev pub IsOrdered : List Bytes → List Call → Type 0
IsOrdered dirs [] = Unit
IsOrdered dirs (c ∷ cs) = Fits dirs c × IsOrdered (dirs ++ new_dirs c) cs

dirs_of-append : (cs : List Call) (c : Call) → dirs_of (cs ++ (c ∷ [])) ≡ dirs_of cs ++ new_dirs c
dirs_of-append [] c = append-nil (new_dirs c)
dirs_of-append (d ∷ cs) c =
    rw (dirs_of-append cs c) (sym (append_assoc (new_dirs d) (dirs_of cs) (new_dirs c)))

IsOrdered-append :
    (dirs : List Bytes) (cs : List Call) (c : Call)
    → IsOrdered dirs cs
    → Fits (dirs ++ dirs_of cs) c
    → IsOrdered dirs (cs ++ (c ∷ []))
IsOrdered-append dirs [] c h f = (rw append-nil at f, tt)
IsOrdered-append dirs (d ∷ cs) c h f =
    (h.0, IsOrdered-append (dirs ++ new_dirs d) cs c h.1 (rw append_assoc f))

strcmp_eq_self : (s : Bytes) → strcmp_eq s s ≡ true
unfolding strcmp_eq
strcmp_eq_self [] = refl
strcmp_eq_self (c ∷ s) = ground (arith, strcmp_eq_self s)

pub dir_found_last :
    (dirs : List Bytes) (path : Bytes) → dir_found (dirs ++ (path ∷ [])) path ≡ true
unfolding dir_found
dir_found_last [] path = rw strcmp_eq_self
dir_found_last (d ∷ dirs) path = ground (arith, dir_found_last dirs path)

pub dir_found-append :
    (dirs more : List Bytes) (path : Bytes)
    → dir_found dirs path ≡ true
    → dir_found (dirs ++ more) path ≡ true
unfolding dir_found
dir_found-append [] more path h = cc
dir_found-append (d ∷ dirs) more path h = ground (arith, dir_found-append dirs more path)

-- The entries that the table has, or had before it was lost, are the directories that were announced,
-- and the order is right.
module _ {S : Source} where
  pub record IsSound (s : State S) : Type 0 where
    pub table : dirs_of s.calls ≡ s.dirs_headers_sent
    pub ordered : IsOrdered [] s.calls

  -- One more call, which the table accounts for.
  pub IsSound-call :
      (s : State S) (c : Call) (dirs : List Bytes)
      → IsSound s
      → Fits s.dirs_headers_sent c
      → dirs ≡ s.dirs_headers_sent ++ new_dirs c
      → IsSound (record s { calls = s.calls ++ (c ∷ []); dirs_headers_sent = dirs })
  IsSound-call s c dirs h fits e = record {
    table = dirs_of-append s.calls c ∙ rw h.table (sym e);
    ordered = IsOrdered-append [] s.calls c h.ordered (rw h.table fits);
  }
