-- ===== src/Witnesses/Creates.antt =====
-- The theorem on creation applied at concrete inputs.
use virtual_file_system.Common.{refl, arith}
use virtual_file_system.Filesystem.Create.Empty.{CreateOutcome, create_file-CreatedEmpty}
use virtual_file_system.Sample.{sample, name_c, sample-IsCatalog}

create_file-CreatedEmpty_example : CreateOutcome name_c sample
create_file-CreatedEmpty_example =
    create_file-CreatedEmpty name_c sample sample-IsCatalog refl (λ e. cc) (omega arith)
