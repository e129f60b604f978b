-- ===== src/Filesystem/Space.antt =====
-- `new_file_index` and `new_file_offset`: where a new file goes in dir_table and file_data.
pub mod Index
pub mod Counted
pub mod Gap
pub mod Found
use virtual_file_system.Common.{
  ℕ, true, false, zero, suc, ◌+◌, ◌==◌, ◌||◌, Option, none, some, leb, if◌then◌else◌, ℤ, pos,
  negsuc, add64, sub64, Run, ok, abort, out_of_fuel, ◌>>=◌, ◌>>◌, assert,
}
use virtual_file_system.Structs.{max_file_data_len, FileEntry, Ptr, Filesys}
use virtual_file_system.Helper.{find_next_nonzero_file}
use virtual_file_system.Filesystem.Repack.{repack_helper}

-- The loop of `new_file_index`: `k` rounds from entry `i` on.
unfoldable pub index_loop : ℕ → ℕ → (ℕ → ℕ) → Option ℕ
index_loop zero i index = none
index_loop (suc k) i index =
    let rest = index_loop k (i + 1) index in if index i == 0 then some i else rest

-- `new_file_index`
unfoldable pub new_file_index : Filesys → Run ℕ
new_file_index fs = elim (index_loop fs.index_len 0 fs.index) [ none ↦ abort | some i ↦ ok i ]

-- `o_index + 1`, for an index that is -1 at least
abbrev pub next_index : FileEntry → ℕ
next_index f = elim f.o_index [ pos i ↦ i + 1 | negsuc _ ↦ 0 ]

-- How the search between files ends: at a gap that is large enough, or behind the last file.
pub data GapSearch : Type 0 where
  gap : ℕ → GapSearch
  last : Ptr → GapSearch

-- The loop of `new_file_offset`. The index in the array grows in each round: with `size` rounds
-- it cannot run out.
unfoldable pub gap_loop : ℕ → ℕ → Ptr → Option Ptr → Filesys → Run GapSearch
gap_loop zero length prev curr fs = out_of_fuel
gap_loop (suc fuel) length prev curr fs = elim curr [
  | none ↦ ok (last prev)
  | some p ↦
      let start_curr_file = (fs.heap.cell p).offset in
      let end_prev_file = add64 (fs.heap.cell prev).offset (fs.heap.cell prev).length in
      let next = find_next_nonzero_file (next_index (fs.heap.cell p)) fs.o_list fs.heap in
      elim (leb length (sub64 start_curr_file end_prev_file)) [
        | true ↦ ok (gap end_prev_file)
        | false ↦ gap_loop fuel length p next fs
      ]
]

-- The end of `new_file_offset`, behind the loop.
unfoldable pub offset_behind : ℕ → ℤ → GapSearch → Filesys → ℕ × ℤ × Filesys
offset_behind length hash_offset (gap offset) fs = (offset, hash_offset, fs)
offset_behind length hash_offset (last p) fs =
    let end_last_file = add64 (fs.heap.cell p).offset (fs.heap.cell p).length in
    let (hash_offset', fs') = repack_helper fs in
    if leb length (sub64 fs.file_data_len end_last_file)
    then (end_last_file, hash_offset, fs)
    else (fs'.used, hash_offset', fs')

-- `new_file_offset`, with the value of `*hash_offset` before and after it
unfoldable pub new_file_offset : ℕ → ℤ → Filesys → Run (ℕ × ℤ × Filesys)
new_file_offset length hash_offset fs = do
  assert (leb length fs.file_data_len)
  assert (leb (add64 fs.used length) fs.file_data_len)
  if length == 0
      then ok (max_file_data_len, hash_offset, fs)
      else elim (find_next_nonzero_file 0 fs.o_list fs.heap) [
        | none ↦ ok (0, hash_offset, fs)
        | some first ↦
            let f = fs.heap.cell first in
            let next = find_next_nonzero_file (next_index f) fs.o_list fs.heap in
            if fs.o_list.size == 0 || leb length f.offset then ok (0, hash_offset, fs) else do
              result ← gap_loop (fs.o_list.size + 1) length first next fs
              ok (offset_behind length hash_offset result fs)
      ]
