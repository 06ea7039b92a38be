-- ===== src/Tests/Archive.antt =====
-- Small archives, the way an archiver writes them.
use qubes_core_agent_linux.Base.{
  ℕ, ◌-◌, ◌%◌, [], ◌∷◌, ◌++◌, length, replicate, take, drop, Bytes, String, codes, strncpy,
}
use qubes_core_agent_linux.Tar.Octal.RoundTrip.{octal_field}
use qubes_core_agent_linux.Tar.Header.Checksum.{sum, blanked}
use qubes_core_agent_linux.Tar.Header.Seal.{seal}

abbrev terminated : ℕ → ℕ → Bytes
terminated w n = octal_field w n ++ (0 ∷ [])

-- A header block with its checksum field blank.
unfoldable pub raw_block : Bytes → Bytes → ℕ → ℕ → Bytes
unfolding octal_field strncpy
raw_block prefix name type size =
    strncpy 100 name
    ++ (terminated 7 0o644
        ++ (replicate 16 0
            ++ (terminated 11 size
                ++ (terminated 11 0o7_000
                    ++ (replicate 8 b' '
                        ++ ((type ∷ [])
                            ++ (replicate 100 0
                                ++ (codes "ustar"
                                    ++ ((0 ∷ codes "00")
                                        ++ (replicate 80 0
                                            ++ (strncpy 155 prefix ++ replicate 12 0)))))))))))

unfoldable pub block_of : String → ℕ → ℕ → Bytes
unfolding raw_block seal sum blanked take drop
block_of name type size = seal (raw_block [] (codes name) type size)

-- A file with its content and padding.
unfoldable pub file_of : String → String → Bytes
unfolding block_of
file_of name text =
    block_of name b'0' (length (codes text))
    ++ (codes text ++ replicate ((512 - length (codes text) % 512) % 512) 0)

-- A header whose prefix and name run into the fields behind them.
unfoldable pub endless_block : Bytes
unfolding seal sum blanked octal_field take drop
endless_block = seal (
    replicate 100 b'n'
    ++ (replicate 157 b'0'
        ++ (codes "ustar" ++ ((0 ∷ codes "00") ++ (replicate 80 0 ++ replicate 167 b'p')))))
