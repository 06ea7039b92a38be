-- ===== src/Tests/Checks.antt =====
-- Predicates on long concrete lists, by evaluation.
use qubes_core_agent_linux.Base.{
  ◌≡◌, Bool, true, not, ◌&&◌, [], ◌∷◌, arith, All, Bytes, IsByte, NonNul, ltb, ◌==◌,
}

unfoldable pub all_bytes : Bytes → Bool
all_bytes [] = true
all_bytes (c ∷ s) = ltb c 256 && all_bytes s

pub all_bytes_sound : (s : Bytes) → all_bytes s ≡ true → All IsByte s
unfolding all_bytes
all_bytes_sound [] h = tt
all_bytes_sound (c ∷ s) h = ground (arith, all_bytes_sound s)

unfoldable pub all_nonnul : Bytes → Bool
all_nonnul [] = true
all_nonnul (c ∷ s) = not (c == 0) && all_nonnul s

pub all_nonnul_sound : (s : Bytes) → all_nonnul s ≡ true → All NonNul s
unfolding all_nonnul
all_nonnul_sound [] h = tt
all_nonnul_sound (c ∷ s) h = ground (arith, all_nonnul_sound s)
