-- ===== src/Lib.antt =====
-- A file system in three memory-mapped files: file_data holds the bytes of the files, dir_table an
-- entry of 72 bytes for each file, and hash_data a tree of hashes over the blocks of file_data.
--
-- The program's parts, and the modules that model them:
--   structs.h        Structs: the constants, and the structs file_t (FileEntry), arr_t (Arr) and
--                    filesys_t (Filesys). Pointers to file_t are addresses in a Heap that the state
--                    carries, so that both arrays share the structs as in the program.
--   <string.h>       Memory: memcpy, memset, memcmp, strncmp and strcmp, as far as they are used, on
--                    byte memories that are functions from addresses; little-endian integers.
--                    Memory/Order has the order of strings, Memory/Copy what is read behind a copy.
--   helper.c/.h      Helper: one function for each function and macro, under its name.
--                    Helper/NullBytes compares the two functions that write null bytes.
--   arr.c            Arr: the arrays sorted by offset and by name. Arr/Search has the binary search,
--                    Arr/Shift, Arr/ShiftDown, Arr/Insert and Arr/Remove the moves of elements,
--                    Arr/Names, Arr/Lookup and Arr/Sorted the array by name, Arr/Offsets the
--                    array by offset, Arr/Member and Arr/Frame what an array holds and what leaves
--                    it alone.
--   myfilesystem.c   Hash: fletcher, hash_node, compute_hash_tree, compute_hash_block,
--                    compute_hash_block_range and verify_hash_range, with the reads and writes of
--                    the hashes (Hash/Reads), one update (Hash/Tree), a range (Hash/Range),
--                    verification (Hash/Verify), the whole tree (Hash/Build) and the words of a
--                    hash (Hash/Words).
--                    Filesystem: the file operations, a module for each, with their proofs in child
--                    modules. Filesystem/Catalog has the invariant of the two arrays,
--                    Filesystem/Layout that of the places of files in file_data (Layout/Splice one
--                    file more or less), Filesystem/Space the search for a free entry and a gap
--                    (Space/Index and Space/Counted the entries, Space/Gap and Space/Found the gap),
--                    Filesystem/Repack the repack (Repack/Moves one file, Repack/Rounds one round,
--                    Repack/Packs all files, Repack/Kept what stays, Repack/Tracks which bytes
--                    change, Repack/Overlap what goes wrong behind a resize to 0),
--                    Filesystem/Create create_file (Create/Fresh, Create/Inserts and Create/Places
--                    the new struct, Create/Empty and Create/Append an empty file, Create/Based and
--                    Create/Behind the state before and behind a repack, Create/Files,
--                    Create/Assembly and Create/Nonempty a file with bytes, Create/Outcome all),
--                    Filesystem/Read read_file (Read/Reads its bytes, Read/Results its results and
--                    those of file_size), Filesystem/Write write_file (Write/InPlace a write that
--                    keeps the length), Filesystem/Delete delete_file and file_size
--                    (Delete/Removes), Filesystem/Resize resize_file,
--                    Filesystem/Rename rename_file (Rename/Order when the order is kept,
--                    Rename/Renames each case), Filesystem/Mount init_fs (Mount/Entries the
--                    entries of dir_table).
--                    Filesystem/Valid has the invariant of the whole state and the operations that
--                    keep it (Valid/Owned, Valid/Deletes, Valid/Writes, Valid/Renames,
--                    Valid/Repacks, Valid/Stored with its Repacks, Creates and Changes for the
--                    bytes of dir_table, and Valid/Steps for sequences), and Filesystem/View the
--                    dictionary from names to bytes that a client sees (View/Operations,
--                    View/Renames and View/Refines each operation, View/Promises sequences).
--   myfuse.c         Fuse: the FUSE callbacks and main. Fuse/Paths has the paths of files,
--                    Fuse/Lookups what getattr and open see, Fuse/Transfers read and write, and
--                    Fuse/Listing readdir.
-- Sample is a small state (Sample/Whole shows that it is valid), Witnesses applies the theorems to
-- it, and Runs evaluates the operations, among them runs that lose a file by a rename and that leave
-- a wrong hash behind a resize.
--
-- How the state corresponds. A function that changes the file system returns the new state; one that
-- can fail an assert returns a Run, whose abort is the failed assert. The mutex is held from the
-- first to the last line of each operation, so operations do not interleave, and the model has no
-- lock. Sizes and offsets are natural numbers; uint64_t and size_t sums and differences wrap
-- (add64, sub64), `used` is held as the bit pattern of its int64_t, lengths of files are cut to 32
-- bits. Indices that may be -1 are integers (ℤ). int32_t indices of arrays and of dir_table are
-- bounded by 65536 entries and cannot wrap; those of init_fs are cut from the lengths of the files.
-- The indices of nodes do not wrap in a tree of at most 2^24 leaves, which 4 GiB of file_data have;
-- but the int32_t address of a block in hash_node does from 2^31 bytes on (leaf_address, with two's
-- complement wrap-around), and the theorems on reads and on compute_hash_tree stay below that. A
-- C string is the list of its bytes before the terminator. A comparison result is
-- its sign (Ordering).
--
-- Loops. Counted loops recurse on the rounds left. The binary search runs on fuel, the number of
-- elements, of which each round drops one at least. The loops from a node of the hash tree up to the
-- root run on the node's index, since a parent has a smaller index and node 0 has none. The loop of
-- compute_hash_tree gets twice the number of leaves and one more, since each level is half as large
-- as the one below. The search for a gap in new_file_offset gets one round for each file and one
-- more.
--
-- Not modelled: open, fstat, mmap, msync, munmap, close and pthread calls (the operating system's;
-- the bytes and lengths of the three files are arguments of init_fs), allocation failure, libfuse
-- (fuse_main, the filler of readdir and the mapping of a named file are parameters of Fuse; the
-- context's private data is an argument of each callback), and the test programs.
pub mod Common
pub mod Structs
pub mod Memory
pub mod Helper
pub mod Arr
pub mod Hash
pub mod Filesystem
pub mod Fuse
mod Sample
mod Witnesses
mod Runs
