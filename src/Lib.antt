-- ===== src/Lib.antt =====
-- The C programs of qubes-core-agent-linux that move files between qubes, under qubes-rpc/.
--
-- The parts, and the files that model them:
--
-- * qubes-rpc/tar2qfile.c reads a ustar archive from a file or a pipe and sends the regular files
--   in it as a qfile stream. Tar models it. `main` (Tar/Main) opens the input and hands it, with
--   the filters, to `tar_file_processor` (Tar/Processor), which reads blocks of 512 bytes. It gives
--   a block where a header is due to `ustar_rd` (Tar/Entry), looks for the next header behind a
--   file with `tar_trail` (Tar/Header), and seeks or reads over content that is not wanted. `ustar_rd`
--   tests the block with `ustar_id` and `tar_chksm` (Tar/Header), puts the name together in a
--   global buffer (Tar/Name), reads the fields with `asc_ul` (Tar/Octal), asks the filters
--   (Tar/Filter), sends a header for each new directory on the way (Tar/Directory), then the
--   header and the content of the file. Tar/Archive is the abstract view of all this: archives as
--   lists of members, and what is to be sent for one.
-- * qubes-rpc/qfile-agent.c sends files and directories from the disk as such a stream. Agent has
--   how it takes each path apart, with fuel for the loop that drops slashes at the end;
--   Agent/Walk has its `main`, which enters a directory for each path and lets the library send
--   the entry. Agent/Progress has `notify_progress`, which the library calls back with what it has
--   sent, over counters that are passed on.
-- * qubes-rpc/qfile-unpacker.c receives the stream in another qube: Unpacker. `main` takes on the
--   groups of the user (`prepare_creds_return_dir`), finds the incoming directory (`target`),
--   reads the options, mounts the directory, and forks; the child gives up its privileges and
--   unpacks.
-- * qubes-rpc/qopen-in-vm.c sends one file to a disposable VM and takes it back: OpenInVm, with
--   the buffer for the name in OpenInVm/Name.
-- * qubes-rpc/vm-file-editor.c is the other end there: FileEditor. It reads the name from the
--   buffer (`read_name`), stores and opens the file, and sends it back if it was changed.
-- * qubes-rpc/gui-fatal.c shows the messages of the others in a dialog: GuiFatal. In their models
--   a message is a call.
--
-- Unpacker, OpenInVm, FileEditor, GuiFatal, Agent/Walk and Agent/Progress are programs over calls
-- (Process): each call of the system or of the library is a node with a branch for every reply, and
-- `fork` has a branch for each process. A protocol is a set of stages with the calls that each allows; a
-- theorem that a program obeys it holds for all replies.
--
-- State. In Tar, Tar/Machine holds the globals and what outlives a call as a record; a statement
-- is a function on it that goes on, returns MEMORY_ALLOC_FAILED, ends the process, or does what C
-- leaves undefined, as a search of the table of directories behind a failed allocation for it would. What the program sends or reports is a list of calls. Tar/Source is the
-- interface to libqubes-rpc-filecopy, to `lseek` and to memory, which are not in this repository:
-- an outside world of any type, with the documented behaviour as named hypotheses (`IsStream`,
-- `PipeOrFile`, `HasMemory`, and for the descriptors of `main` the record `IsFiles` of
-- Tar/Main/Sent). Tar/Source/Memory shows that they can hold.
--
-- Numbers. Bytes are numbers below 256 where it matters; an `unsigned long` or `size_t` wraps at
-- 2 ^ 64 and the `unsigned int` of the checksum at 2 ^ 32, as written. A counter of files or
-- filters is a number.
--
-- Fuel. `processor_loop` has fuel for its rounds. Each round reads a block, so more fuel than
-- whole blocks is enough. `read_loop` gets as much as the bytes to skip: a round takes off at
-- least one. `seek_loop` has three tries more, as in the source.
--
-- Base holds the tests on numbers, the lists measured by native numbers, and the string functions
-- of the C library. Tests holds runs at concrete data.
--
-- Not modelled: debugging output under `#ifdef DEBUG`, the fields of the `struct stat` that nobody
-- reads, the texts of error messages, and the scripts, services and packaging around the programs.
pub mod Agent
pub mod Base
pub mod FileEditor
pub mod GuiFatal
pub mod OpenInVm
pub mod Process
pub mod Tar
pub mod Tests
pub mod Unpacker
