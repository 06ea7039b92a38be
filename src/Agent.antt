-- ===== src/Agent.antt =====
-- The paths of qubes-rpc/qfile-agent.c, which sends files and directories: `get_abs_path`, and the
-- loop of `main` that parts a path into a directory to enter and an entry to send.
pub mod Parts
pub mod Walk
pub mod Progress
use qubes_core_agent_linux.Base.{
  ℕ, zero, suc, [], ◌∷◌, ◌++◌, Option, none, some, get_or, ◌==◌, Bytes, if◌then◌else◌,
}

-- With memory for the text.
unfoldable pub get_abs_path : Bytes → Bytes → Bytes
get_abs_path cwd pathname =
    if get_or pathname 0 0 == b'/' then pathname else cwd ++ (b'/' ∷ pathname)

-- A path cut at its last slash, which becomes a NUL.
pub record Cut : Type 0 where
  pub entry : Bytes
  pub behind : Bytes

unfoldable pub cut_last : Bytes → Option Cut
cut_last [] = none
cut_last (c ∷ s) = elim (cut_last s) [
  | some cut ↦ some (record { entry = c ∷ cut.entry; behind = cut.behind })
  | none ↦ if c == b'/' then some (record { entry = []; behind = s }) else none
]

-- How the loop ends: with the directory and the entry, with "nonabsolute filenames not allowed", or
-- without fuel.
pub data Split : Type 0 where
  parts : Bytes → Bytes → Split
  nonabsolute no_fuel : Split

-- What follows on one cut; `again` is the next round.
abbrev pub after_cut : Bytes → Bytes → Split → Split
after_cut entry [] again = again
after_cut entry (c ∷ name) again = parts entry (c ∷ name)

-- `do … while (sep[1] == 0)`. Each round shortens the path.
unfoldable pub split_loop : ℕ → Bytes → Split
unfolding cut_last
split_loop zero entry = no_fuel
split_loop (suc fuel) entry = elim (cut_last entry) [
  | none ↦ nonabsolute
  | some cut ↦ (let again = split_loop fuel cut.entry in after_cut cut.entry cut.behind again)
]
