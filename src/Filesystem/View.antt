-- ===== src/Filesystem/View.antt =====
-- What a client sees of a file system: for each name, the bytes of the file that has it.
pub mod Operations
pub mod Renames
pub mod Refines
pub mod Promises
use native.Mathlib.Decide.{ℕ_discrete}
use virtual_file_system.Common.{
  ℕ, zero, suc, ◌+◌, ◌-◌, ◌≤◌, ◌<◌, ◌≡◌, ◌≢◌, refl, sym, ap, ◌∙◌, ◌⊎◌, inl, inr, Option, none, some,
  List, [], ◌∷◌, take, Run, ok, abort, out_of_fuel, arith,
}
use virtual_file_system.Structs.{CString, Ptr, Filesys, Bytes}
use virtual_file_system.Memory.{memcpy}
use virtual_file_system.Memory.Copy.{memcpy-inside, memcpy-outside, memcpy-none, memcpy-first}
use virtual_file_system.Filesystem.Create.{find_file}
use virtual_file_system.Filesystem.Catalog.{IsCatalog, Finds, find_file-Member, find_file-none}

-- The `length` bytes from `offset` on.
abbrev pub bytes_from : Bytes → ℕ → ℕ → List ℕ
bytes_from file offset zero = []
bytes_from file offset (suc length) = file offset ∷ bytes_from file (offset + 1) length

abbrev pub file_bytes : Filesys → Ptr → List ℕ
file_bytes fs p = bytes_from fs.file (fs.heap.cell p).offset (fs.heap.cell p).length

pub list_discrete : (x y : List ℕ) → Dec (x ≡ y)
list_discrete [] [] = yes refl
list_discrete [] (b ∷ y) = no (λ e. cc)
list_discrete (a ∷ x) [] = no (λ e. cc)
list_discrete (a ∷ x) (b ∷ y) = elim (ℕ_discrete a b) [
  | yes e ↦ elim (list_discrete x y) [ yes e' ↦ yes (rw (e, e') refl) | no ne ↦ no (λ same. ne cc) ]
  | no ne ↦ no (λ same. ne cc)
]

-- The abstract state.
abbrev pub Contents : Type 0
Contents = CString → Option (List ℕ)

abbrev pub found_bytes : Filesys → Run (Option Ptr) → Option (List ℕ)
found_bytes fs (ok (some p)) = some (file_bytes fs p)
found_bytes fs (ok none) = none
found_bytes fs abort = none
found_bytes fs out_of_fuel = none

abbrev pub view : Filesys → Contents
view fs name = found_bytes fs (find_file name fs)

-- The name has the new value, and the other names have their old ones. Names of which the first 63
-- bytes are the same are one name.
abbrev pub Updated : CString → Option (List ℕ) → Contents → Contents → Type 0
Updated name value old new =
    (x : CString)
    → ((take 63 x ≡ take 63 name) × (new x ≡ value))
      ⊎ ((take 63 x ≢ take 63 name) × (new x ≡ old x))

-- The new name has the value, the old name has none, and the other names have their old values.
abbrev pub MovedTo : CString → CString → Option (List ℕ) → Contents → Contents → Type 0
MovedTo from to value old new =
    (x : CString)
    → ((take 63 x ≡ take 63 to) × (new x ≡ value))
      ⊎ (((take 63 x ≢ take 63 to) × (take 63 x ≡ take 63 from) × (new x ≡ none))
          ⊎ ((take 63 x ≢ take 63 to) × (take 63 x ≢ take 63 from) × (new x ≡ old x)))

abbrev pub null_bytes : ℕ → List ℕ
null_bytes zero = []
null_bytes (suc n) = 0 ∷ null_bytes n

-- The bytes `new` in place of those from position `k` on.
abbrev pub overwrite : ℕ → List ℕ → List ℕ → List ℕ
overwrite k new [] = []
overwrite zero [] (b ∷ bs) = b ∷ bs
overwrite zero (d ∷ ds) (b ∷ bs) = d ∷ overwrite zero ds bs
overwrite (suc k) new (b ∷ bs) = b ∷ overwrite k new bs

-- The same bytes, maybe at another place.
pub bytes_from-same :
    (x y : Bytes) (d s n : ℕ)
    → ((k : ℕ) → k < n → x (d + k) ≡ y (s + k))
    → bytes_from x d n ≡ bytes_from y s n
bytes_from-same x y d s zero h = refl
bytes_from-same x y d s (suc n) h =
    let none_d : d + 0 ≡ d = omega arith in
    let none_s : s + 0 ≡ s = omega arith in
    let first : x d ≡ y s = rw (none_d, none_s) at (h 0 (omega arith)) in
    let rest : bytes_from x (d + 1) n ≡ bytes_from y (s + 1) n =
      bytes_from-same x y (d + 1) (s + 1) n (λ k q.
        let next_d : d + 1 + k ≡ d + (k + 1) = omega arith in
        let next_s : s + 1 + k ≡ s + (k + 1) = omega arith in
        rw (next_d, next_s) (h (k + 1) (omega arith))) in
    rw (first, rest) refl

pub bytes_from-zeros :
    (x : Bytes) (d n : ℕ) → ((k : ℕ) → k < n → x (d + k) ≡ 0) → bytes_from x d n ≡ null_bytes n
bytes_from-zeros x d zero h = refl
bytes_from-zeros x d (suc n) h =
    let none_d : d + 0 ≡ d = omega arith in
    let first : x d ≡ 0 = rw none_d at (h 0 (omega arith)) in
    let rest : bytes_from x (d + 1) n ≡ null_bytes n = bytes_from-zeros x (d + 1) n (λ k q.
      let next_d : d + 1 + k ≡ d + (k + 1) = omega arith in rw next_d (h (k + 1) (omega arith))) in
    rw (first, rest) refl

-- The bytes of a copy behind its first.
memcpy-behind :
    (file buf : Bytes) (o s c i : ℕ)
    → memcpy file o buf s (suc c) (o + 1 + i) ≡ memcpy file (o + 1) buf (s + 1) c (o + 1 + i)
unfolding memcpy
memcpy-behind file buf o s c i =
    let e : s + (o + 1 + i - o) ≡ s + 1 + (o + 1 + i - (o + 1)) = omega arith in rw e (ground arith)

-- A copy into a range, seen in the range.
pub bytes_from-memcpy :
    (file buf : Bytes) (o k s c n : ℕ)
    → k + c ≤ n
    → bytes_from (memcpy file (o + k) buf s c) o n
      ≡ overwrite k (bytes_from buf s c) (bytes_from file o n)
bytes_from-memcpy file buf o k s c zero q = refl
bytes_from-memcpy file buf o zero s zero (suc n) q =
    ap (λ m. bytes_from m o (suc n)) (memcpy-none file (o + 0) buf s 0)
bytes_from-memcpy file buf o zero s (suc c) (suc n) q =
    let here : o + 0 ≡ o = omega arith in
    let first : memcpy file o buf s (suc c) o ≡ buf s =
      memcpy-first file o buf s (suc c) (omega arith) in
    let next : o + 1 + 0 ≡ o + 1 = omega arith in
    let rest : bytes_from (memcpy file o buf s (suc c)) (o + 1) n
        ≡ bytes_from (memcpy file (o + 1 + 0) buf (s + 1) c) (o + 1) n =
      bytes_from-same (memcpy file o buf s (suc c)) (memcpy file (o + 1 + 0) buf (s + 1) c) (o + 1)
        (o + 1) n (λ i p. rw next (memcpy-behind file buf o s c i)) in
    ap (λ a. bytes_from (memcpy file a buf s (suc c)) o (suc n)) here
    ∙ (ap (λ z. z ∷ bytes_from (memcpy file o buf s (suc c)) (o + 1) n) first
        ∙ ap (λ t. buf s ∷ t)
            (rest ∙ bytes_from-memcpy file buf (o + 1) zero (s + 1) c n (omega arith)))
bytes_from-memcpy file buf o (suc k) s c (suc n) q =
    let next : o + suc k ≡ o + 1 + k = omega arith in
    let first : memcpy file (o + 1 + k) buf s c o ≡ file o =
      memcpy-outside file (o + 1 + k) buf s c o (inl (omega arith)) in
    ap (λ a. bytes_from (memcpy file a buf s c) o (suc n)) next
    ∙ (ap (λ z. z ∷ bytes_from (memcpy file (o + 1 + k) buf s c) (o + 1) n) first
        ∙ ap (λ t. file o ∷ t) (bytes_from-memcpy file buf (o + 1) k s c n (omega arith)))

module _ (fs : Filesys) (v : IsCatalog fs) (name : CString) where
  pub view-some : (p : Ptr) → Finds fs name (some p) → view fs name ≡ some (file_bytes fs p)
  view-some p f = ap (found_bytes fs) (find_file-Member fs v name p f.0 f.1)

  pub view-none : Finds fs name none → view fs name ≡ none
  view-none f = ap (found_bytes fs) (find_file-none fs v name f)
