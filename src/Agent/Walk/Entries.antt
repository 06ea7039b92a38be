-- ===== src/Agent/Walk/Entries.antt =====
-- What `main` of qubes-rpc/qfile-agent.c hands to the library, as a protocol.
use qubes_core_agent_linux.Base.{
  ℕ, ◌≡◌, ◌≢◌, ◌⊎◌, get_or, if◌then◌else◌, Bool, true, false, List, [], ◌∷◌, ◌++◌, replicate,
  occurs, Bytes, codes, strcmp_eq,
}
use qubes_core_agent_linux.Process.{Protocol}
use qubes_core_agent_linux.Agent.{nonabsolute}
use qubes_core_agent_linux.Agent.Parts.{IsSplit}
use qubes_core_agent_linux.Agent.Walk.{
  Call, Reply, agent, getcwd, allocate, chdir, do_fs_walk, notify_end, out_of_fuel, entered,
}

-- What is still to do: the current directory, whether symbolic links are ignored, and the arguments.
pub record Left : Type 0 where
  pub cwd : Bytes
  pub ignore_symlinks : Bool
  pub args : List Bytes

-- With the arguments; before the path of an argument, with what is left behind it; with that path;
-- in a directory for that path; with no argument left; and behind the end of the stream.
pub data Stage : Type 0 where
  finished over refused : Stage
  begun : List Bytes → Stage
  idle : Bytes → Left → Stage
  holding : Bytes → Left → Stage
  inside : Bytes → Bytes → Left → Stage

-- Behind the options at the head of the arguments: each asks to ignore symbolic links from there on.
unfoldable pub ready : Bytes → Bool → List Bytes → Stage
ready cwd ignore_symlinks [] = finished
ready cwd ignore_symlinks (a ∷ args) =
    let ignoring = ready cwd true args in
    if strcmp_eq a (codes "--ignore-symlinks")
    then ignoring
    else idle a (record { cwd = cwd; ignore_symlinks = ignore_symlinks; args = args })

abbrev pub resume : Left → Stage
resume l = ready l.cwd l.ignore_symlinks l.args

-- An argument that begins with a slash is its own path; any other is below the current directory.
abbrev pub IsPath : Bytes → Bytes → Bytes → Type 0
IsPath cwd a path =
    ((get_or a 0 0 ≡ b'/') × (path ≡ a)) ⊎ ((get_or a 0 0 ≢ b'/') × (path ≡ cwd ++ (b'/' ∷ a)))

-- The directory with the entry is the path, but for slashes at its end.
abbrev IsEntry : Bytes → Bytes → Bytes → Type 0
IsEntry path directory name =
    (entry : Bytes) × (k : ℕ) × (directory ≡ entered entry)
    × (path ≡ entry ++ (b'/' ∷ (name ++ replicate k b'/')))
    × (name ≢ [])
    × (occurs b'/' name ≡ false)

abbrev IsHarmless : Call → Type 0
IsHarmless getcwd = ⊥
IsHarmless (allocate _) = ⊥
IsHarmless (chdir _) = ⊥
IsHarmless (do_fs_walk _ _) = ⊥
IsHarmless notify_end = ⊥
IsHarmless out_of_fuel = ⊥
IsHarmless _ = Unit

unfoldable pub Allowed : Stage → Call → Type 0
Allowed (begun args) getcwd = Unit
Allowed (idle a l) (allocate path) = IsPath l.cwd a path
Allowed finished notify_end = Unit
Allowed (holding path l) (chdir directory) = Unit
Allowed (inside path directory l) (do_fs_walk name ignore_symlinks) =
    IsEntry path directory name × (ignore_symlinks ≡ l.ignore_symlinks)
Allowed s c = IsHarmless c

unfoldable pub next : Stage → (c : Call) → Reply c → Stage
next (begun args) getcwd cwd = ready cwd false args
next (idle a l) (allocate path) true = holding path l
next finished notify_end r = over
next (holding path l) (chdir directory) true = inside path directory l
next (holding path l) (chdir directory) false = refused
next (inside path directory l) (do_fs_walk name ignore_symlinks) r = resume l
next s c r = s

abbrev pub Result : Stage → ℕ → Type 0
Result over n = n ≡ 0
Result _ n = ⊥

-- The program gives up only where a directory was refused, or where the path has no entry.
abbrev pub Exit : Stage → ℕ → Type 0
Exit refused n = n ≡ 1
Exit (holding path l) n = (n ≡ 1) × IsSplit path nonabsolute
Exit _ n = ⊥

abbrev pub entries : Protocol agent ℕ
entries = record { Stage = Stage; Allowed = Allowed; next = next; Result = Result; Exit = Exit }

abbrev Resumes : Left → Stage → Unit {0} → Type 0
Resumes l s _ = s ≡ resume l

abbrev IsFinished : Stage → Unit {0} → Type 0
IsFinished s _ = s ≡ finished
