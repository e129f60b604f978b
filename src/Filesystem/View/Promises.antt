-- ===== src/Filesystem/View/Promises.antt =====
-- A dictionary from names to byte lists, and that the file system implements it in every sequence.
use virtual_file_system.Common.{ℕ, ◌≡◌, ◌≢◌, ◌⊎◌, none, some, List, [], ◌∷◌}
use virtual_file_system.Structs.{CString}
use virtual_file_system.Filesystem.Valid.Steps.{
  Event, created, deleted, wrote, renamed, packed, Steps,
}
use virtual_file_system.Filesystem.View.{Contents, Updated, MovedTo, null_bytes, overwrite}

abbrev Same : Contents → Contents → Type 0
Same old new = (x : CString) → new x ≡ old x

-- What a call promises to do with the dictionary, and which code it returns. The creation of a file
-- that may be added fails with 2 if there is no room for it.
abbrev pub Promise : Event → Contents → Contents → Type 0
Promise (created name length code) old new =
    ((code ≡ 0) × (old name ≡ none) × Updated name (some (null_bytes length)) old new)
    ⊎ (((code ≡ 1) × (old name ≢ none) × Same old new)
        ⊎ ((code ≡ 2) × (old name ≡ none) × Same old new))
Promise (deleted name code) old new =
    ((code ≡ 0) × ((bytes : List ℕ) × (old name ≡ some bytes)) × Updated name none old new)
    ⊎ ((code ≡ 1) × (old name ≡ none) × Same old new)
Promise (wrote name offset written code) old new =
    (code ≡ 0)
    × ((bytes : List ℕ) × (old name ≡ some bytes)
        × Updated name (some (overwrite offset written bytes)) old new)
Promise (renamed from to code) old new =
    ((code ≡ 0)
      × (old to ≡ none)
      × ((bytes : List ℕ) × (old from ≡ some bytes) × MovedTo from to (some bytes) old new))
    ⊎ (((code ≡ 0) × (old from ≢ none) × (from ≡ to) × Same old new)
        ⊎ ((code ≡ 1) × ((old from ≡ none) ⊎ (old to ≢ none)) × Same old new))
Promise packed old new = Same old new

-- A run of the dictionary in which each call keeps its promise, the last one first.
pub data Promises (old : Contents) : List Event → Contents → Type 0 where
  none_yet : Promises old [] old
  and_then :
      (events : List Event) (event : Event) (d d' : Contents)
      → Promises old events d
      → Promise event d d'
      → Promises old (event ∷ events) d'
