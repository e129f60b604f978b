-- ===== src/Filesystem/Repack/Rounds.antt =====
-- The rounds of the loop of `repack_helper`.
use virtual_file_system.Common.{
  ℕ, suc, ◌+◌, ◌-◌, ◌≡◌, refl, true, false, ltb, leb, ◌==◌, ◌&&◌, not, is_negative, pos, minus_one,
  if◌then◌else◌, ℤ, add64,
}
use virtual_file_system.Structs.{max_file_data_len, Filesys}
use virtual_file_system.Filesystem.Repack.{repack_loop}
use virtual_file_system.Filesystem.Repack.Moves.{move_one}

pub repack_loop-stop :
    (k i : ℕ) (hash_offset : ℤ) (fs' : Filesys)
    → leb max_file_data_len (fs'.heap.cell (fs'.o_list.list i)).offset ≡ true
    → repack_loop (suc k) i hash_offset fs' ≡ (hash_offset, fs')
unfolding repack_loop
repack_loop-stop k i hash_offset fs' t = rw t refl

-- The end of the file in the slot before, and the state and hash offset behind a round.
abbrev pub end_before : ℕ → Filesys → ℕ
end_before i fs' =
    add64 (fs'.heap.cell (fs'.o_list.list (i - 1))).offset
      (fs'.heap.cell (fs'.o_list.list (i - 1))).length

abbrev pub round : ℕ → Filesys → Filesys
round i fs' = move_one (fs'.o_list.list i) (end_before i fs') fs'

abbrev pub round_hash : ℕ → ℤ → Filesys → ℤ
round_hash i hash_offset fs' =
    if ltb (end_before i fs') (fs'.heap.cell (fs'.o_list.list i)).offset
      && (is_negative hash_offset && not ((fs'.heap.cell (fs'.o_list.list i)).length == 0))
    then pos ((round i fs').heap.cell (fs'.o_list.list i)).offset
    else hash_offset

pub repack_loop-next :
    (k i : ℕ) (hash_offset : ℤ) (fs' : Filesys)
    → leb max_file_data_len (fs'.heap.cell (fs'.o_list.list i)).offset ≡ false
    → repack_loop (suc k) i hash_offset fs'
      ≡ repack_loop k (i + 1) (round_hash i hash_offset fs') (round i fs')
unfolding repack_loop
repack_loop-next k i hash_offset fs' t = rw t refl

-- The hash offset with which the loop starts.
abbrev pub first_hash : Filesys → ℤ
first_hash fs =
    if ltb 0 (fs.heap.cell (fs.o_list.list 0)).offset
      && not ((fs.heap.cell (fs.o_list.list 0)).length == 0)
    then pos 0
    else minus_one
