-- ===== src/Tar.antt =====
-- qubes-rpc/tar2qfile.c, which reads a ustar archive and sends its files as a qfile stream.
pub mod Octal
pub mod Header
pub mod Name
pub mod Filter
pub mod Source
pub mod Machine
pub mod Directory
pub mod Entry
pub mod Processor
pub mod Archive
pub mod Main
