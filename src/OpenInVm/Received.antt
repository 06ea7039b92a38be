-- ===== src/OpenInVm/Received.antt =====
-- `main` of qubes-rpc/qopen-in-vm.c keeps to the protocol for the user's file.
use qubes_core_agent_linux.Base.{ℕ, ◌<◌, ◌≡◌, Bool, ltb, Bytes}
use qubes_core_agent_linux.OpenInVm.{Temp}
use qubes_core_agent_linux.OpenInVm.Stages.{Stage, over, measured}

abbrev IsOver : Stage → Unit {0} → Type 0
IsOver over _ = Unit
IsOver (measured fname t size) _ = 0 < size
IsOver _ _ = ⊥

abbrev IsMeasured : Bytes → Temp → Stage → Bool → Type 0
IsMeasured fname t s b = (size : ℕ) × (s ≡ measured fname t size) × (b ≡ ltb 0 size)
