-- ===== src/Witnesses/Callbacks.antt =====
-- The theorems on the FUSE callbacks applied at concrete inputs.
use virtual_file_system.Common.{
  ℕ, ◌+◌, ◌<◌, ◌≡◌, ◌≢◌, ◌⊎◌, ◌↔◌, refl, List, [], ◌∷◌, none, some, take, pos, ok, arith,
}
use virtual_file_system.Structs.{CString, Bytes, Ptr, Filesys}
use virtual_file_system.Memory.{memcpy}
use virtual_file_system.Arr.Member.{Member}
use virtual_file_system.Filesystem.Catalog.{Finds}
use virtual_file_system.Fuse.{
  value, success, error, Errno.enoent, Stat, Mode.directory, Mode.regular, Mode.unset, root,
  myfuse_getattr, myfuse_readdir, myfuse_open, myfuse_unlink, myfuse_create, myfuse_read,
  myfuse_write,
}
use virtual_file_system.Fuse.Paths.{path_of}
use virtual_file_system.Fuse.Lookups.{
  myfuse_getattr-Finds, myfuse_getattr-myfuse_unlink, myfuse_getattr-myfuse_create,
}
use virtual_file_system.Fuse.Transfers.{at_most, myfuse_read-bytes, myfuse_read-myfuse_write}
use virtual_file_system.Fuse.Listing.{
  fill_all, IsAlphabetical, Lists, myfuse_readdir-IsAlphabetical,
}
use virtual_file_system.Sample.{
  sample, sample_heap, name_a, name_c, sample-IsCatalog, sample-IsHashed, sample-IsSized,
  sample-Finds, name_c-Finds,
}

abbrev stat : Stat
stat = record { size = 7; mode = directory }

abbrev bytes : Bytes
bytes k = k + 7

myfuse_getattr-Finds_example :
    ((p : Ptr) × Finds sample name_a (some p)
      × (myfuse_getattr (path_of name_a) stat (some sample)
          ≡ ok (success, record { size = (sample_heap.cell p).length; mode = regular }))
      × (myfuse_open (some (path_of name_a)) (some sample) ≡ ok success))
    ⊎ (Finds sample name_a none
        × (myfuse_getattr (path_of name_a) stat (some sample)
            ≡ ok (error enoent, record { size = 0; mode = unset }))
        × (myfuse_open (some (path_of name_a)) (some sample) ≡ ok (error enoent)))
myfuse_getattr-Finds_example = myfuse_getattr-Finds name_a stat sample (λ e. cc) sample-IsCatalog

myfuse_getattr-myfuse_unlink_example :
    (fs' : Filesys) × (myfuse_unlink (some (path_of name_a)) (some sample) ≡ ok (success, fs'))
    × (myfuse_getattr (path_of name_a) stat (some fs')
        ≡ ok (error enoent, record { size = 0; mode = unset }))
    × ((other : CString)
        → other ≢ []
        → take 63 other ≢ take 63 name_a
        → myfuse_getattr (path_of other) stat (some fs')
          ≡ myfuse_getattr (path_of other) stat (some sample))
myfuse_getattr-myfuse_unlink_example =
    myfuse_getattr-myfuse_unlink name_a stat sample 0 (λ e. cc) sample-IsCatalog sample-Finds

myfuse_getattr-myfuse_create_example :
    (fs' : Filesys) × (myfuse_create (some (path_of name_c)) (some sample) ≡ ok (success, fs'))
    × (myfuse_getattr (path_of name_c) stat (some fs')
        ≡ ok (success, record { size = 0; mode = regular }))
    × ((other : CString)
        → other ≢ []
        → take 63 other ≢ take 63 name_c
        → myfuse_getattr (path_of other) stat (some fs')
          ≡ myfuse_getattr (path_of other) stat (some sample))
myfuse_getattr-myfuse_create_example =
    myfuse_getattr-myfuse_create name_c stat sample (λ e. cc) sample-IsCatalog refl (omega arith)
      name_c-Finds (omega arith)

myfuse_read-bytes_example :
    myfuse_read (some (path_of name_a)) (some bytes) 100 (pos 250) (some sample)
    ≡ ok (value (pos (at_most 100 50)), some (memcpy bytes 0 sample.file 250 (at_most 100 50)))
myfuse_read-bytes_example =
    myfuse_read-bytes name_a 100 250 bytes sample 0 (λ e. cc) sample-IsCatalog sample-IsHashed
      sample-IsSized sample-Finds (omega arith)
      (record { range = omega arith; leaves = omega arith }) (omega arith)

-- The sample with 100 free bytes.
abbrev nearly_full : Filesys
nearly_full = record sample { used = 924 }

myfuse_read-myfuse_write_example :
    (fs' : Filesys) × (myfuse_write (some (path_of name_a)) (some bytes) 20 (pos 280) (some sample)
      ≡ ok (value (pos 20), fs'))
    × ((dst' : Bytes) × (myfuse_read (some (path_of name_a)) (some (λ _. 0)) 20 (pos 280) (some fs')
          ≡ ok (value (pos 20), some dst'))
        × ((k : ℕ) → k < 20 → dst' k ≡ bytes k))
myfuse_read-myfuse_write_example =
    myfuse_read-myfuse_write name_a 20 280 bytes (λ _. 0) sample 0 (λ e. cc) sample-IsCatalog
      sample-IsHashed sample-IsSized sample-Finds (omega arith)
      (record { range = omega arith; leaves = omega arith }) (omega arith) (omega arith)
      (omega arith) (omega arith) (omega arith)

abbrev listed : List CString
listed = name_c ∷ []

myfuse_readdir-IsAlphabetical_example :
    (names : List CString) × (myfuse_readdir root listed (λ buf name. name ∷ buf) (some sample)
      ≡ ok (success, fill_all (λ buf name. name ∷ buf) listed names))
    × IsAlphabetical names
    × ((name : CString)
        → Lists names name
          ↔ ((p : Ptr) × Member sample.n_list p × ((sample_heap.cell p).name ≡ name)))
myfuse_readdir-IsAlphabetical_example =
    myfuse_readdir-IsAlphabetical (λ buf name. name ∷ buf) listed sample sample-IsCatalog
