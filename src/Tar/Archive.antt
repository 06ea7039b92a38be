-- ===== src/Tar/Archive.antt =====
-- Archives that qubes-rpc/tar2qfile.c is made for, and what it is to send for each: the abstract view
-- of the program, which knows of members with names and contents, but of no blocks, buffers or input.
pub mod Reaches
pub mod Directories
pub mod Content
pub mod Skip
pub mod Entry
pub mod Round
pub mod Taken
pub mod Blank
pub mod Tail
pub mod NoMemory
pub mod Extraction
pub mod Delivery
use qubes_core_agent_linux.Base.{
  ℕ, ◌+◌, ◌-◌, ◌*◌, ◌%◌, ◌≡◌, true, not, List, [], ◌∷◌, ◌++◌, length, replicate, All, ltb, ◌==◌,
  bit_or, Bytes, if◌then◌else◌,
}
use qubes_core_agent_linux.Tar.Octal.{oct, asc_ul}
use qubes_core_agent_linux.Tar.Header.{block_size, Field, typeflag, field, first_byte, ustar_id}
use qubes_core_agent_linux.Tar.Name.Clean.{IsClean, full_name}
use qubes_core_agent_linux.Tar.Filter.{Filters, apply_filters, all_matched}
use qubes_core_agent_linux.Tar.Source.{copy_file_ok}
use qubes_core_agent_linux.Tar.Machine.{FileHeader, Call, write_headers, content}
use qubes_core_agent_linux.Tar.Directory.{dir_found, dir_header}
use qubes_core_agent_linux.Tar.Directory.Ordering.{parents}
use qubes_core_agent_linux.Tar.Entry.{s_ifreg, read_header}

pub record Member : Type 0 where
  pub block : Bytes
  pub content : Bytes

-- A header block that the program accepts, with a name that ends in its fields and the size of the
-- content.
pub record IsMember (m : Member) : Type 0 where
  pub whole : length m.block ≡ block_size
  pub valid : ustar_id m.block block_size ≡ true
  pub clean : IsClean m.block
  pub sized : asc_ul (field Field.size m.block) oct ≡ length m.content

-- The zeros that fill the last block of a content.
unfoldable pub padding : ℕ → ℕ
padding n = if ltb 0 (n % block_size) then block_size - n % block_size else 0

abbrev pub encode_member : Member → Bytes → Bytes
encode_member m rest = m.block ++ (m.content ++ (replicate (padding (length m.content)) 0 ++ rest))

-- The members, and what follows on them.
unfoldable pub encode : List Member → Bytes → Bytes
encode [] tail = tail
encode (m ∷ ms) tail = encode_member m (encode ms tail)

-- The end of an archive.
abbrev pub empty_blocks : ℕ → Bytes
empty_blocks blocks = replicate (block_size * blocks) 0

-- The table of directories behind some paths, and the headers for those that were not in it.
unfoldable pub note_dir : List Bytes → Bytes → List Bytes
note_dir dirs path = if dir_found dirs path then dirs else dirs ++ (path ∷ [])

unfoldable pub table : List Bytes → List Bytes → List Bytes
table dirs [] = dirs
table dirs (path ∷ paths) = table (note_dir dirs path) paths

unfoldable pub fresh_call : FileHeader → List Bytes → Bytes → List Call
fresh_call h dirs path =
    if dir_found dirs path then [] else write_headers (dir_header h path) path ∷ []

unfoldable pub fresh : FileHeader → List Bytes → List Bytes → List Call
fresh h dirs [] = []
fresh h dirs (path ∷ paths) = fresh_call h dirs path ++ fresh h (note_dir dirs path) paths

-- The header of a file and its content.
abbrev pub with_type : FileHeader → FileHeader
with_type h = record h { mode = bit_or h.mode s_ifreg }

abbrev pub file_calls : FileHeader → Bytes → Bytes → List Call
file_calls h name bytes = write_headers (with_type h) name ∷ content copy_file_ok bytes ∷ []

-- What is remembered from one member to the next.
pub record Seen : Type 0 where
  pub dirs : List Bytes
  pub filters : Filters

-- What is done with a member.
pub data Outcome : Type 0 where
  skipped : Seen → Outcome
  extracted : Seen → List Call → Outcome
  finished : Outcome

abbrev pub name_of : Member → Bytes
name_of m = full_name m.block

abbrev pub header_of : Member → FileHeader
header_of m = read_header m.block (length (name_of m) + 1)

unfoldable pub regular : Seen → Member → Outcome
regular v m =
    let d = apply_filters (name_of m) v.filters in
    if not d.should_extract
    then (if all_matched d.after
        then finished
        else skipped (record { dirs = v.dirs; filters = d.after }))
    else extracted (record { dirs = table v.dirs (parents (name_of m)); filters = d.after })
        (fresh (header_of m) v.dirs (parents (name_of m))
          ++ file_calls (header_of m) (name_of m) m.content)

unfoldable pub outcome : Seen → Member → Outcome
outcome v m = if first_byte typeflag m.block == b'0' then regular v m else skipped v

-- What goes out for the whole archive.
unfoldable pub sent : Seen → List Member → List Call
sent v [] = []
sent v (m ∷ ms) = elim (outcome v m) [
  | skipped v' ↦ sent v' ms
  | extracted v' calls ↦ calls ++ sent v' ms
  | finished ↦ []
]
