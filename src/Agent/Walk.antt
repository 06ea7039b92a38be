-- ===== src/Agent/Walk.antt =====
-- `main` of qubes-rpc/qfile-agent.c. The library walks the directory tree and sends it; the progress
-- reports are calls here.
pub mod Entries
use qubes_core_agent_linux.Base.{
  ℕ, ◌+◌, Bool, true, false, List, [], ◌∷◌, length, drop, String, Bytes, codes, strcmp_eq,
  if◌then◌else◌,
}
use qubes_core_agent_linux.Process.{Interface, Program, returns, exits, calls, ◌>>=◌, ◌>>◌, request}
use qubes_core_agent_linux.Agent.{Split, parts, nonabsolute, no_fuel, get_abs_path, split_loop}

pub data Flag : Type 0 where
  progress_flag_normal progress_flag_init progress_flag_done : Flag

-- `allocate` is the `strdup` or `asprintf` of a path. Two calls have no reply: `null_entry` is the use
-- of a path for which there was no memory, which C leaves undefined, and `out_of_fuel` is the end of
-- the fuel of the loop over slashes.
pub data Call : Type 0 where
  pack_init getcwd notify_end null_entry out_of_fuel : Call
  notify_progress : ℕ → Flag → Call
  allocate chdir gui_fatal : Bytes → Call
  do_fs_walk : Bytes → Bool → Call

abbrev pub Reply : Call → Type 0
Reply getcwd = Bytes
Reply (allocate _) = Bool
Reply (chdir _) = Bool
Reply null_entry = ⊥
Reply out_of_fuel = ⊥
Reply pack_init = Unit
Reply notify_end = Unit
Reply (notify_progress _ _) = Unit
Reply (gui_fatal _) = Unit
Reply (do_fs_walk _ _) = Unit

abbrev pub agent : Interface
agent = record { Call = Call; Reply = Reply }

abbrev pub fatal : String → Program agent (Unit {0})
fatal message = calls (gui_fatal (codes message)) λ _. exits 1

-- The directory to enter: an empty one is the root.
abbrev pub entered : Bytes → Bytes
entered [] = codes "/"
entered (c ∷ entry) = c ∷ entry

-- Behind the loop over slashes.
abbrev pub walk_parts : Bool → Split → Program agent (Unit {0})
walk_parts ignore_symlinks (parts entry name) = do
  inside ← request (chdir (entered entry))
  if inside then request (do_fs_walk name ignore_symlinks) else fatal "chdir"
walk_parts ignore_symlinks nonabsolute = fatal "Internal error: nonabsolute filenames not allowed"
walk_parts ignore_symlinks no_fuel = calls out_of_fuel λ r. absurd r

unfoldable pub walk_path : Bool → Bytes → Program agent (Unit {0})
walk_path ignore_symlinks path = do
  made ← request (allocate path)
  if made
      then walk_parts ignore_symlinks (split_loop (length path + 1) path)
      else calls null_entry λ r. absurd r

-- The loop over the arguments.
unfoldable pub walk_all : Bytes → Bool → List Bytes → Program agent (Unit {0})
walk_all cwd ignore_symlinks [] = returns tt
walk_all cwd ignore_symlinks (a ∷ args) =
    let ignoring = walk_all cwd true args in
    let others = walk_all cwd ignore_symlinks args in
    if strcmp_eq a (codes "--ignore-symlinks")
    then ignoring
    else (do walk_path ignore_symlinks (get_abs_path cwd a); others)

unfoldable pub main : List Bytes → Program agent ℕ
main argv = do
  request pack_init
  request (notify_progress 0 progress_flag_init)
  cwd ← request getcwd
  walk_all cwd false (drop 1 argv)
  request notify_end
  request (notify_progress 0 progress_flag_done)
  returns 0
