-- ===== src/Filesystem/Repack/Overlap.antt =====
-- What `repack_helper` does to a file that was resized to 0 bytes and now lies inside another one.
use virtual_file_system.Common.{ℕ, ◌+◌, ◌^◌, ◌≤◌, ◌<◌, ◌≡◌, ◌≢◌}
use virtual_file_system.Structs.{max_file_data_len, Ptr, Filesys}
use virtual_file_system.Filesystem.Repack.Moves.{offset_at, length_at}

-- Three files: one at the offset 0, one of 0 bytes at an offset inside of it, as `resize_file` leaves
-- it where the space is used again, and one behind both.
pub record IsOverlaid (fs : Filesys) : Type 0 where
  pub size : fs.o_list.size ≡ 3
  pub positive : 0 < fs.used
  pub small : fs.used < 2 ^ 63
  pub first : offset_at fs.o_list fs.heap 0 ≡ 0
  pub lies_inside : offset_at fs.o_list fs.heap 1 < length_at fs.o_list fs.heap 0
  pub empty : length_at fs.o_list fs.heap 1 ≡ 0
  pub behind : length_at fs.o_list fs.heap 0 ≤ offset_at fs.o_list fs.heap 2
  pub some_bytes : 0 < length_at fs.o_list fs.heap 2
  pub fits : offset_at fs.o_list fs.heap 2 + length_at fs.o_list fs.heap 2 ≤ max_file_data_len
  pub distinct : fs.o_list.list 0 ≢ fs.o_list.list 2

module _ (fs : Filesys) (v : IsOverlaid fs) where
  abbrev p : Ptr
  p = fs.o_list.list 2

  abbrev new_offset : ℕ
  new_offset = offset_at fs.o_list fs.heap 1
