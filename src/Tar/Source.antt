-- ===== src/Tar/Source.antt =====
-- What qubes-rpc/tar2qfile.c takes from elsewhere: memory, the position in the input file, and the
-- functions of libqubes-rpc-filecopy that read the input. All are over an unknown state of the
-- outside world.
pub mod Memory
pub mod Closed
use qubes_core_agent_linux.Base.{
  ℕ, ◌≤◌, ◌<◌, ◌≡◌, ◌⊎◌, Bool, true, Option, none, some, length, take, drop, Bytes,
}

-- What `copy_file_with_crc` returns; `other` stands for the codes that the program does not name.
pub data CopyStatus : Type 0 where
  copy_file_ok copy_file_write_error : CopyStatus
  other : ℕ → CopyStatus

-- What `lseek` comes to: 0 or more, or -1 with `ESPIPE`, `EAGAIN` or another `errno`.
pub data Seek : Type 0 where
  moved espipe eagain failed : Seek

pub record Source : Type 1 where
  pub World : Type 0
  -- `read_all (fd, buf, n)`: the bytes read, or `none` for its failure
  pub read_all : ℕ → World → Option Bytes × World
  -- `copy_file_with_crc (1, fd, n)`: the status, and the bytes that went out
  pub copy_file_with_crc : ℕ → World → record { status : CopyStatus; bytes : Bytes; world : World }
  -- `lseek (fd, n, SEEK_CUR)`
  pub lseek : ℕ → World → Seek × World
  -- `malloc (n)`, or `realloc` to that size: whether there was memory
  pub malloc : ℕ → World → Bool × World

-- A source over an input of finitely many bytes: what the documentation of these functions says.
pub record IsStream (S : Source) : Type 0 where
  pub input : S.World → Bytes
  pub read_all_enough :
      (n : ℕ) (w : S.World)
      → n ≤ length (input w)
      → ((S.read_all n w).0 ≡ some (take n (input w)))
        × (input (S.read_all n w).1 ≡ drop n (input w))
  pub read_all_short : (n : ℕ) (w : S.World) → length (input w) < n → (S.read_all n w).0 ≡ none
  pub copy_enough :
      (n : ℕ) (w : S.World)
      → n ≤ length (input w)
      → ((S.copy_file_with_crc n w).status ≡ copy_file_ok)
        × ((S.copy_file_with_crc n w).bytes ≡ take n (input w))
        × (input (S.copy_file_with_crc n w).world ≡ drop n (input w))
  -- No call gives input back.
  pub read_all_shrinks :
      (n : ℕ) (w : S.World) → length (input (S.read_all n w).1) ≤ length (input w)
  pub copy_shrinks :
      (n : ℕ) (w : S.World) → length (input (S.copy_file_with_crc n w).world) ≤ length (input w)
  pub lseek_shrinks : (n : ℕ) (w : S.World) → length (input (S.lseek n w).1) ≤ length (input w)
  pub malloc_input : (n : ℕ) (w : S.World) → input (S.malloc n w).1 ≡ input w

-- The input is a pipe, in which it is not possible to move and a try leaves all as it is, or a file,
-- in which a move leaves bytes out.
pub record PipeOrFile (S : Source) (L : IsStream S) : Type 0 where
  pub lseek_lem :
      (n : ℕ) (w : S.World)
      → (((S.lseek n w).0 ≡ espipe) × (L.input (S.lseek n w).1 ≡ L.input w))
        ⊎ (((S.lseek n w).0 ≡ moved) × (L.input (S.lseek n w).1 ≡ drop n (L.input w)))

-- There is memory for every request.
pub record HasMemory (S : Source) : Type 0 where
  pub malloc_succeeds : (n : ℕ) (w : S.World) → (S.malloc n w).0 ≡ true
