-- ===== src/Fuse.antt =====
-- The FUSE callbacks of myfuse.c. The file system is `FILESYSTEM`, the private data of the FUSE
-- context, which may be NULL. A callback that changes it returns the new state.
pub mod Paths
pub mod Lookups
pub mod Transfers
pub mod Listing
use virtual_file_system.Common.{
  ℕ, zero, suc, ◌+◌, ◌-◌, ◌^◌, Bool, true, false, ◌||◌, ◌&&◌, length, get_or, ltb, leb, ◌==◌, not,
  if◌then◌else◌, Ordering, List, [], ◌∷◌, Option, none, some, ℤ, pos, negsuc, is_negative, add64,
  sub64, Run, ok, abort, ◌>>=◌,
}
use virtual_file_system.Structs.{CString, Bytes, Filesys}
use virtual_file_system.Memory.{memcpy, strncmp, strcmp}
use virtual_file_system.Filesystem.Create.{create_file}
use virtual_file_system.Filesystem.Resize.{resize_file}
use virtual_file_system.Filesystem.Delete.{delete_file, file_size}
use virtual_file_system.Filesystem.Rename.{is_same_name, rename_file}
use virtual_file_system.Filesystem.Read.{read_file}
use virtual_file_system.Filesystem.Write.{to_int32, write_file}
use virtual_file_system.Filesystem.Mount.{init_fs, close_fs}

-- The error numbers of <errno.h> that the callbacks return.
pub data Errno : Type 0 where
  einval enoent enotdir eisdir enospc eio eexist : Errno

-- What a callback returns: a number, or a negated error number.
pub data Reply : Type 0 where
  value : ℤ → Reply
  error : Errno → Reply

-- `return 0`
abbrev pub success : Reply
success = value (pos 0)

-- `st_mode`: 0, S_IFDIR or S_IFREG
pub data Mode : Type 0 where
  unset directory regular : Mode

-- The fields of `struct stat` that are set. The size is the bit pattern of an `off_t`.
pub record Stat : Type 0 where
  pub size : ℕ
  pub mode : Mode

-- "/"
abbrev pub root : CString
root = 47 ∷ []

-- The bit pattern of an `int64_t`.
unfoldable pub to_size : ℤ → ℕ
to_size (pos n) = n
to_size (negsuc n) = 2 ^ 64 - 1 - n

-- `(int)n`, for the bit pattern of an unsigned number
abbrev pub to_reply : ℕ → Reply
to_reply n = value (to_int32 (pos n))

-- `assert(FILESYSTEM != NULL)`
unfoldable pub filesystem : Option Filesys → Run Filesys
filesystem none = abort
filesystem (some fs) = ok fs

-- The copy of `path + 1` and its terminator. The copy of an empty path, which FUSE never passes,
-- has no terminator, and is an undefined string.
unfoldable pub path_name : CString → Run CString
path_name [] = abort
path_name (_ ∷ name) = ok name

-- `strcmp(path, "/") == 0`
abbrev pub is_root : CString → Bool
is_root path = is_same_name path root

-- `myfuse_getattr`
unfoldable pub myfuse_getattr : CString → Stat → Option Filesys → Run (Reply × Stat)
myfuse_getattr path result context = do
  fs ← filesystem context
  elim (strncmp 1 path root) [
    | Ordering.lt ↦ ok (error einval, result)
    | Ordering.gt ↦ ok (error einval, result)
    | Ordering.eq ↦
        if is_root path then ok (success, record { size = fs.used; mode = directory }) else do
          name ← path_name path
          size ← file_size name fs
          if is_negative size
              then ok (error enoent, record { size = 0; mode = unset })
              else ok (success, record { size = to_size size; mode = regular })
  ]

-- The loop of `myfuse_readdir`: `k` calls of `filler` from index `i` on.
unfoldable pub fill_loop {ℓ} : {B : Type ℓ} → ℕ → ℕ → (B → CString → B) → B → Filesys → B
fill_loop zero i filler buf fs = buf
fill_loop (suc k) i filler buf fs =
    fill_loop k (i + 1) filler (filler buf (fs.heap.cell (fs.n_list.list i)).name) fs

-- `myfuse_readdir`, for any callback `filler` and its buffer
unfoldable pub myfuse_readdir {ℓ} :
    {B : Type ℓ} → CString → B → (B → CString → B) → Option Filesys → Run (Reply × B)
myfuse_readdir path buf filler context = do
  fs ← filesystem context
  if is_root path
      then ok (success, fill_loop fs.n_list.size 0 filler buf fs)
      else ok (error enotdir, buf)

-- `myfuse_unlink`
unfoldable pub myfuse_unlink : Option CString → Option Filesys → Run (Reply × Filesys)
myfuse_unlink path context = do
  fs ← filesystem context
  elim path [
    | none ↦ ok (error einval, fs)
    | some path ↦ if is_root path then ok (error eisdir, fs) else do
      name ← path_name path
      (ret, fs) ← delete_file name fs
      ok (if ret == 1 then error enoent else success, fs)
  ]

-- `myfuse_rename`
unfoldable pub myfuse_rename :
    Option CString → Option CString → Option Filesys → Run (Reply × Filesys)
myfuse_rename oldpath newpath context = do
  fs ← filesystem context
  elim oldpath [
    | none ↦ ok (error einval, fs)
    | some oldpath ↦ elim newpath [
      | none ↦ ok (error einval, fs)
      | some newpath ↦ if is_root oldpath || is_root newpath then ok (error eisdir, fs) else do
        old ← path_name oldpath
        new ← path_name newpath
        (ret, fs) ← rename_file old new fs
        ok (if ret == 1 then error enoent else success, fs)
    ]
  ]

-- `myfuse_truncate`
unfoldable pub myfuse_truncate : Option CString → ℤ → Option Filesys → Run (Reply × Filesys)
myfuse_truncate path length context = do
  fs ← filesystem context
  elim path [
    | none ↦ ok (error einval, fs)
    | some path ↦
        if is_negative length
        then ok (error einval, fs)
        else if is_root path
        then ok (error eisdir, fs)
        else do
          name ← path_name path
          (ret, fs) ← resize_file name (to_size length) fs
          ok (if ret == 1 then error enoent else if ret == 2 then error enospc else success, fs)
  ]

-- `myfuse_open`
unfoldable pub myfuse_open : Option CString → Option Filesys → Run Reply
myfuse_open path context = do
  fs ← filesystem context
  elim path [
    | none ↦ ok (error einval)
    | some path ↦ if is_root path then ok (error eisdir) else do
      name ← path_name path
      size ← file_size name fs
      ok (if is_negative size then error enoent else success)
  ]

-- `offset >= size`, and `offset > size`, for a size that is not negative
abbrev pub is_at_end : ℤ → ℕ → Bool
is_at_end (pos offset) size = leb size offset
is_at_end (negsuc _) size = false

abbrev pub is_behind_end : ℤ → ℕ → Bool
is_behind_end (pos offset) size = ltb size offset
is_behind_end (negsuc _) size = false

-- `myfuse_read`
unfoldable pub myfuse_read :
    Option CString → Option Bytes → ℕ → ℤ → Option Filesys → Run (Reply × Option Bytes)
myfuse_read path buf length offset context = do
  fs ← filesystem context
  elim path [
    | none ↦ ok (error einval, buf)
    | some path ↦ elim buf [
      | none ↦ ok (error einval, none)
      | some bytes ↦ if is_root path then ok (error eisdir, some bytes) else do
        name ← path_name path
        size ← file_size name fs
        elim size [
          | negsuc _ ↦ ok (error enoent, some bytes)
          | pos f_size ↦ if is_at_end offset f_size then ok (success, some bytes) else do
            let rest = sub64 f_size (to_size offset)
            let read_length = if ltb rest length then rest else length
            (ret, bytes) ← read_file name (to_size offset) read_length bytes fs
            ok (if ret == 3 then error eio else to_reply read_length, some bytes)
        ]
    ]
  ]

-- `myfuse_write`. The copy of the buffer in `temp` holds the `write_length` bytes that are written.
unfoldable pub myfuse_write :
    Option CString → Option Bytes → ℕ → ℤ → Option Filesys → Run (Reply × Filesys)
myfuse_write path buf length offset context = do
  fs ← filesystem context
  elim path [
    | none ↦ ok (error einval, fs)
    | some path ↦ elim buf [
      | none ↦ ok (error einval, fs)
      | some bytes ↦ if is_root path then ok (error eisdir, fs) else do
        name ← path_name path
        size ← file_size name fs
        elim size [
          | negsuc _ ↦ ok (error enoent, fs)
          | pos f_size ↦ if is_behind_end offset f_size then ok (error einval, fs) else do
            let free = sub64 fs.file_data_len fs.used
            let growth = sub64 (add64 (to_size offset) length) f_size
            let write_length = if ltb free growth then free else length
            let temp = memcpy (λ _. 0) 0 bytes 0 write_length
            (_, fs) ← write_file name (to_size offset) write_length temp fs
            ok (to_reply write_length, fs)
        ]
    ]
  ]

-- `myfuse_release`
unfoldable pub myfuse_release : Option CString → Reply
myfuse_release path = success

-- `myfuse_create`
unfoldable pub myfuse_create : Option CString → Option Filesys → Run (Reply × Filesys)
myfuse_create path context = do
  fs ← filesystem context
  elim path [
    | none ↦ ok (error einval, fs)
    | some path ↦ if is_root path then ok (error eisdir, fs) else do
      name ← path_name path
      (ret, fs) ← create_file name 0 fs
      ok (if ret == 1 then error eexist else if ret == 2 then error enospc else success, fs)
  ]

-- The three names that `main` sets, which may be NULL.
pub record FileNames : Type 0 where
  pub file_data : Option CString
  pub directory_table : Option CString
  pub hash_data : Option CString

-- `myfuse_init`. What opening and mapping a file gives, its bytes and its length, is a parameter.
unfoldable pub myfuse_init : (CString → Bytes × ℕ) → FileNames → Run (Option Filesys)
myfuse_init map_file names = elim names.file_data [
  | none ↦ ok none
  | some file_name ↦ elim names.directory_table [
    | none ↦ ok none
    | some dir_name ↦ elim names.hash_data [
      | none ↦ ok none
      | some hash_name ↦ do
        let file = map_file file_name
        let dir = map_file dir_name
        let hash = map_file hash_name
        fs ← init_fs file.0 file.1 dir.0 dir.1 hash.0 hash.1
        ok (some fs)
    ]
  ]
]

-- `myfuse_destroy`
unfoldable pub myfuse_destroy : Option Filesys → Option Filesys
myfuse_destroy none = none
myfuse_destroy (some fs) = some (close_fs fs)

-- The option "--files" of `main`.
abbrev pub files_option : CString
files_option = 45 ∷ 45 ∷ 102 ∷ 105 ∷ 108 ∷ 101 ∷ 115 ∷ []

-- The names that `main` sets before it calls `fuse_main`, and the `argc` that it passes on.
unfoldable pub parse_args : List CString → ℕ × FileNames
parse_args argv =
    let argc = length argv in
    if leb 5 argc && is_same_name (get_or argv (argc - 4) []) files_option
    then (
      argc - 4,
      record {
        file_data = some (get_or argv (argc - 3) []);
        directory_table = some (get_or argv (argc - 2) []);
        hash_data = some (get_or argv (argc - 1) []);
      },
    )
    else (argc, record { file_data = none; directory_table = none; hash_data = none })

-- `main`, for any `fuse_main`
unfoldable pub main {ℓ} : {A : Type ℓ} → (ℕ → List CString → FileNames → A) → List CString → A
main fuse_main argv = let (argc, names) = parse_args argv in fuse_main argc argv names
