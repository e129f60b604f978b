-- ===== src/Fuse/Paths.antt =====
-- The paths of files.
use virtual_file_system.Common.{◌≡◌, ◌≢◌, refl, false, [], ◌∷◌}
use virtual_file_system.Structs.{CString}
use virtual_file_system.Memory.{strcmp}
use virtual_file_system.Fuse.{is_root}

-- The path of the file with a name.
abbrev pub path_of : CString → CString
path_of name = 47 ∷ name

-- The path of a file whose name is not empty is not that of the root.
pub is_root-path_of : (name : CString) → name ≢ [] → is_root (path_of name) ≡ false
unfolding strcmp
is_root-path_of [] ne = absurd (ne refl)
is_root-path_of (x ∷ name) ne = refl
