-- ===== src/Witnesses/Renames.antt =====
-- The theorems on renames applied at concrete inputs.
use virtual_file_system.Common.{◌≡◌, refl, ◌↔◌, take, ok, arith}
use virtual_file_system.Structs.{Filesys}
use virtual_file_system.Filesystem.Rename.{rename_file}
use virtual_file_system.Filesystem.Rename.Order.{FitsAt}
use virtual_file_system.Filesystem.Rename.Renames.{
  Renamed, RenameOutcome, rename_file-IsCatalog_iff, rename_file-cases,
}
use virtual_file_system.Filesystem.Catalog.{IsCatalog}
use virtual_file_system.Sample.{sample, name_a, name_b, name_c, sample-IsCatalog, name_c-Finds}

rename_file-IsCatalog_iff_example :
    (fs' : Filesys) × (rename_file name_a name_c sample ≡ ok (0, fs'))
    × Renamed 0 name_c sample fs'
    × (IsCatalog fs' ↔ FitsAt 0 (take 63 name_c) sample)
rename_file-IsCatalog_iff_example =
    rename_file-IsCatalog_iff name_a name_c sample 0 sample-IsCatalog (omega arith) refl
      name_c-Finds (λ e. cc)

rename_file-cases_example : RenameOutcome name_a name_b sample
rename_file-cases_example = rename_file-cases name_a name_b sample sample-IsCatalog
