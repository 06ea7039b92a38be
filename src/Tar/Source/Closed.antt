-- ===== src/Tar/Source/Closed.antt =====
-- What stays true of the outside world, whatever the program calls.
use qubes_core_agent_linux.Base.{ℕ}
use qubes_core_agent_linux.Tar.Source.{Source}

pub record IsClosed (S : Source) (W : S.World → Type 0) : Type 0 where
  pub read_all : (n : ℕ) (w : S.World) → W w → W (S.read_all n w).1
  pub copy_file_with_crc : (n : ℕ) (w : S.World) → W w → W (S.copy_file_with_crc n w).world
  pub lseek : (n : ℕ) (w : S.World) → W w → W (S.lseek n w).1
  pub malloc : (n : ℕ) (w : S.World) → W w → W (S.malloc n w).1
