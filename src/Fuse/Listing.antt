-- ===== src/Fuse/Listing.antt =====
-- `myfuse_readdir` lists every file once, in alphabetical order.
use native.Mathlib.Decide.{ℕ_discrete}
use virtual_file_system.Common.{
  ℕ, zero, suc, ◌+◌, ◌≤◌, ◌<◌, ◌≡◌, refl, sym, ap, Ordering, List, [], ◌∷◌, some, ◌⊎◌, inl, inr,
  ◌↔◌, ok, arith,
}
use virtual_file_system.Structs.{CString, Ptr, Filesys}
use virtual_file_system.Memory.{strncmp, strcmp}
use virtual_file_system.Arr.Names.{name_at}
use virtual_file_system.Arr.Member.{Member}
use virtual_file_system.Filesystem.Catalog.{IsCatalog}
use virtual_file_system.Fuse.{success, root, filesystem, fill_loop, myfuse_readdir}

-- The calls of a filler on a list of names, in order.
abbrev pub fill_all {ℓ} : {B : Type ℓ} → (B → CString → B) → B → List CString → B
fill_all filler buf [] = buf
fill_all filler buf (name ∷ names) = fill_all filler (filler buf name) names

-- The names of `k` files, from slot `i` of the array by name on.
abbrev pub names_from : ℕ → ℕ → Filesys → List CString
names_from zero i fs = []
names_from (suc k) i fs = name_at fs.n_list fs.heap i ∷ names_from k (i + 1) fs

-- Names that rise strictly: none stands twice.
pub data IsAlphabetical : List CString → Type 0 where
  nil : IsAlphabetical []
  one : (name : CString) → IsAlphabetical (name ∷ [])
  more :
      {first second : CString} {rest : List CString}
      → strncmp 63 first second ≡ Ordering.lt
      → IsAlphabetical (second ∷ rest)
      → IsAlphabetical (first ∷ second ∷ rest)

-- A name stands in a list.
abbrev pub Lists : List CString → CString → Type 0
Lists [] name = ⊥
Lists (x ∷ names) name = (x ≡ name) ⊎ Lists names name

fill_loop-fill_all {ℓ} :
    {B : Type ℓ} (k i : ℕ) (filler : B → CString → B) (buf : B) (fs : Filesys)
    → fill_loop k i filler buf fs ≡ fill_all filler buf (names_from k i fs)
unfolding fill_loop
fill_loop-fill_all zero i filler buf fs = refl
fill_loop-fill_all (suc k) i filler buf fs = fill_loop-fill_all k (i + 1) filler _ fs

module _ (fs : Filesys) (v : IsCatalog fs) where
  names_from-IsAlphabetical :
      (k i : ℕ) → i + k ≤ fs.n_list.size → IsAlphabetical (names_from k i fs)
  names_from-IsAlphabetical zero i q = nil
  names_from-IsAlphabetical (suc zero) i q = one (name_at fs.n_list fs.heap i)
  names_from-IsAlphabetical (suc (suc k)) i q =
      more (v.sorted.rises i (i + 1) (omega arith) (omega arith))
        (names_from-IsAlphabetical (suc k) (i + 1) (omega arith))

  Lists-of_names :
      (k i : ℕ) (name : CString)
      → i + k ≤ fs.n_list.size
      → Lists (names_from k i fs) name
      → (p : Ptr) × Member fs.n_list p × ((fs.heap.cell p).name ≡ name)
  Lists-of_names zero i name q h = absurd h
  Lists-of_names (suc k) i name q (inl e) = (fs.n_list.list i, (i, omega arith, refl), e)
  Lists-of_names (suc k) i name q (inr h) = Lists-of_names k (i + 1) name (omega arith) h

  Lists-slot :
      (k i j : ℕ) → i ≤ j → j < i + k → Lists (names_from k i fs) (name_at fs.n_list fs.heap j)
  Lists-slot zero i j p q = absurd (omega arith)
  Lists-slot (suc k) i j p q = elim (ℕ_discrete i j) [
    | yes e ↦ inl (ap (name_at fs.n_list fs.heap) e)
    | no ne ↦ inr (Lists-slot k (i + 1) j (omega arith) (omega arith))
  ]

-- On a file system whose arrays are valid, `myfuse_readdir` of the root returns 0, and its buffer is
-- that of calls of the filler on a list of names, in order: the names rise strictly, so that
-- none stands twice, and they are exactly the names of the files.
pub myfuse_readdir-IsAlphabetical {ℓ} :
    {B : Type ℓ} (filler : B → CString → B) (buf : B) (fs : Filesys)
    → IsCatalog fs
    → (names : List CString) × (myfuse_readdir root buf filler (some fs)
        ≡ ok (success, fill_all filler buf names))
      × IsAlphabetical names
      × ((name : CString)
          → Lists names name ↔ ((p : Ptr) × Member fs.n_list p × ((fs.heap.cell p).name ≡ name)))
unfolding myfuse_readdir filesystem strcmp
myfuse_readdir-IsAlphabetical filler buf fs v = (
  names_from fs.n_list.size 0 fs,
  ap (λ b. ok (success, b)) (fill_loop-fill_all fs.n_list.size 0 filler buf fs),
  names_from-IsAlphabetical fs v fs.n_list.size 0 (omega arith),
  λ name. (
    Lists-of_names fs v fs.n_list.size 0 name (omega arith),
    λ (p, (i, q, e), same).
        rw (sym same) (rw (sym e) (Lists-slot fs v fs.n_list.size 0 i (omega arith) (omega arith))),
  ),
)
