-- ===== src/FileEditor/Stages.antt =====
-- The protocol for what qubes-rpc/vm-file-editor.c removes.
use qubes_core_agent_linux.Base.{ℕ, ◌≡◌, Option, none, some, Bytes}
use qubes_core_agent_linux.Process.{Protocol}
use qubes_core_agent_linux.FileEditor.{
  Call, Reply, editor, mkdtemp, strdup, open_new, unlink, rmdir,
}

-- Before the file is created, with the copied name of the
-- directory; with the directory made; with the file created; and with
-- the names of the file and the directory that are still to be removed.
pub data Stage : Type 0 where
  outside : Option Bytes → Stage
  temporary : Bytes → Stage
  created : Option Bytes → Bytes → Stage
  pending : Option Bytes → Option Bytes → Stage

abbrev IsHarmless : Call → Type 0
IsHarmless (strdup _) = ⊥
IsHarmless (open_new _) = ⊥
IsHarmless (unlink _) = ⊥
IsHarmless (rmdir _) = ⊥
IsHarmless _ = Unit

-- The file that was created is removed, then the directory, and nothing else.
unfoldable pub Allowed : Stage → Call → Type 0
Allowed (outside d) (open_new name) = Unit
Allowed (temporary made) (strdup name) = name ≡ made
Allowed (created d made) (strdup name) = name ≡ made
Allowed (pending f d) (unlink name) = f ≡ some name
Allowed (pending f d) (rmdir name) = (f ≡ none) × (d ≡ some name)
Allowed s c = IsHarmless c

unfoldable pub next : Stage → (c : Call) → Reply c → Stage
next (outside d) (mkdtemp template) (some made) = temporary made
next (temporary made) (strdup name) copy = outside copy
next (outside d) (open_new name) (some fd) = created d name
next (created d made) (strdup name) copy = pending copy d
next (pending f d) (unlink name) r = pending none d
next (pending f d) (rmdir name) r = pending f none
next s c r = s

-- Behind the creation of the file, a process ends only with nothing left to remove.
abbrev pub Exit : Stage → ℕ → Type 0
Exit (outside d) n = n ≡ 1
Exit (temporary made) n = ⊥
Exit (created d made) n = ⊥
Exit (pending f d) n = (f ≡ none) × (d ≡ none)

abbrev pub removal : Protocol editor (Unit {0})
removal = record { Stage = Stage; Allowed = Allowed; next = next; Result = λ _ _. ⊥; Exit = Exit }
