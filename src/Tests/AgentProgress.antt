-- ===== src/Tests/AgentProgress.antt =====
-- Progress reports of qfile-agent at small numbers.
use qubes_core_agent_linux.Base.{All, ℕ, ◌≡◌, refl, [], ◌∷◌, ◌++◌, List, arith, Bytes, codes, take}
use qubes_core_agent_linux.Process.{Obeys}
use qubes_core_agent_linux.Agent.Walk.{
  Flag, progress_flag_normal, progress_flag_init, progress_flag_done,
}
use qubes_core_agent_linux.Agent.Progress.{
  Counters, digits, lld, console_message, gui_message, notify_all,
}
use qubes_core_agent_linux.Agent.Progress.Text.{IsDigit, number_from, number-gui_message}
use qubes_core_agent_linux.Agent.Progress.Totals.{IsClose, Totals, whatever, notify_all-IsClose}

message : console_message 2_100_000 4096 ≡ codes "sent 2050/4096 KB\r"
unfolding console_message lld digits take
message = refl

-- `strtoull` and `strtoul` of these values.
abbrev as_size : Bytes → ℕ
as_size _ = 4096

abbrev as_descriptor : Bytes → ℕ
as_descriptor _ = 5

abbrev fresh : Counters
fresh = record { total = 0; prev_total = 0 }

fresh-IsClose : IsClose 1000 fresh
fresh-IsClose = record { behind = omega arith; close = omega arith }

abbrev flags : List (ℕ × Flag)
flags = (0, progress_flag_init) ∷ (4000, progress_flag_normal) ∷ (0, progress_flag_done) ∷ []

notify_all-IsClose_example :
    Obeys (whatever (Totals 1000 4000)) tt (notify_all as_size as_descriptor 1000 fresh flags)
notify_all-IsClose_example = notify_all-IsClose as_size as_descriptor 1000 fresh flags fresh-IsClose

number-gui_message_example :
    (text : Bytes) × (gui_message 2_100_000 ≡ text ++ codes "\n")
    × All IsDigit text
    × (number_from 0 text ≡ 2_100_000)
number-gui_message_example = number-gui_message 2_100_000 (omega arith)
