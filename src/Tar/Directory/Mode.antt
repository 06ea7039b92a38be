-- ===== src/Tar/Directory/Mode.antt =====
-- The type bits that `S_IFDIR` and `S_IFREG` put into a mode without any: checked for each of the
-- 4096 modes.
use qubes_core_agent_linux.Base.{
  ℕ, zero, suc, ◌<◌, ◌≡◌, refl, Bool, true, false, not, arith, bit_or, if◌then◌else◌,
}
use qubes_core_agent_linux.Tar.Directory.Ordering.{is_dir}

-- The modes below a bound that have the type of a directory or of a regular file as asked.
typed : Bool → ℕ → Bool
typed dir mode = if dir then is_dir (bit_or mode 0x4000) else not (is_dir (bit_or mode 0x8000))

every_mode : Bool → ℕ → Bool
every_mode dir zero = true
every_mode dir (suc bound) = if typed dir bound then every_mode dir bound else false

every_mode-typed :
    (dir : Bool) (bound mode : ℕ)
    → mode < bound
    → every_mode dir bound ≡ true
    → typed dir mode ≡ true
unfolding every_mode
every_mode-typed dir zero mode below all = absurd (omega arith)
every_mode-typed dir (suc bound) mode below all = ground (arith, every_mode-typed dir bound mode)

dir_modes : every_mode true 0x1000 ≡ true
unfolding every_mode typed is_dir
dir_modes = refl

file_modes : every_mode false 0x1000 ≡ true
unfolding every_mode typed is_dir
file_modes = refl

pub is_dir-s_ifdir : (mode : ℕ) → mode < 0x1000 → is_dir (bit_or mode 0x4000) ≡ true
unfolding typed
is_dir-s_ifdir mode h = every_mode-typed true 0x1000 mode h dir_modes

pub is_dir-s_ifreg : (mode : ℕ) → mode < 0x1000 → is_dir (bit_or mode 0x8000) ≡ false
unfolding typed
is_dir-s_ifreg mode h = let t = every_mode-typed false 0x1000 mode h file_modes in ground arith
