-- ===== src/Arr/Frame.antt =====
-- A change of the other array's positions keeps an array indexed and sorted.
use virtual_file_system.Common.{ℕ, ◌<◌, ◌≡◌, ap, ◌∙◌, arith}
use virtual_file_system.Structs.{ArrType, by_offset, by_name, FileEntry, Ptr, Heap, Arr}
use virtual_file_system.Arr.{position}
use virtual_file_system.Arr.Shift.{SameBut}
use virtual_file_system.Arr.Insert.{IsIndexed}
use virtual_file_system.Arr.Names.{IsNameSorted, name_at}

-- The fields that no array changes.
abbrev pub SameFile : FileEntry → FileEntry → Type 0
SameFile f g =
    (f.name ≡ g.name) × (f.offset ≡ g.offset) × (f.length ≡ g.length) × (f.index ≡ g.index)

pub SameFile-SameBut : (type : ArrType) (f g : FileEntry) → SameBut type f g → SameFile f g
SameFile-SameBut by_offset f g e = (
  ap (λ (x : FileEntry). x.name) e,
  ap (λ (x : FileEntry). x.offset) e,
  ap (λ (x : FileEntry). x.length) e,
  ap (λ (x : FileEntry). x.index) e,
)
SameFile-SameBut by_name f g e = (
  ap (λ (x : FileEntry). x.name) e,
  ap (λ (x : FileEntry). x.offset) e,
  ap (λ (x : FileEntry). x.length) e,
  ap (λ (x : FileEntry). x.index) e,
)

pub SameFile-trans : (f g k : FileEntry) → SameFile f g → SameFile g k → SameFile f k
SameFile-trans f g k p q = (p.0 ∙ q.0, p.1 ∙ q.1, p.2 ∙ q.2, p.3 ∙ q.3)

module _ (a : Arr) (h h' : Heap) where
  pub IsIndexed-n_list :
      a.type ≡ by_name
      → ((q : Ptr) → SameBut by_offset (h'.cell q) (h.cell q))
      → IsIndexed a h
      → IsIndexed a h'
  IsIndexed-n_list t same indexed i p q =
      rw t (ap (λ (x : FileEntry). x.n_index) (same (a.list i)) ∙ (rw t at (indexed i p q)))

  pub IsIndexed-o_list :
      a.type ≡ by_offset
      → ((q : Ptr) → SameBut by_name (h'.cell q) (h.cell q))
      → IsIndexed a h
      → IsIndexed a h'
  IsIndexed-o_list t same indexed i p q =
      rw t (ap (λ (x : FileEntry). x.o_index) (same (a.list i)) ∙ (rw t at (indexed i p q)))

  pub IsNameSorted-SameFile :
      ((q : Ptr) → SameFile (h'.cell q) (h.cell q)) → IsNameSorted a h → IsNameSorted a h'
  IsNameSorted-SameFile same s = record {
    type = s.type;
    rises = λ i j p q. rw ((same (a.list i)).0, (same (a.list j)).0) (s.rises i j p q);
    nonempty = λ i q. rw ((same (a.list i)).0) (s.nonempty i q);
  }

  pub IsNameSorted-names :
      ((i : ℕ) → i < a.size → name_at a h' i ≡ name_at a h i) → IsNameSorted a h → IsNameSorted a h'
  IsNameSorted-names same s = record {
    type = s.type;
    rises = λ i j p q. rw (same i (omega arith), same j q) (s.rises i j p q);
    nonempty = λ i q. rw (same i q) (s.nonempty i q);
  }

  pub IsIndexed-positions :
      ((i : ℕ)
        → i < a.size
        → position a.type (h'.cell (a.list i)) ≡ position a.type (h.cell (a.list i)))
      → IsIndexed a h
      → IsIndexed a h'
  IsIndexed-positions same indexed i p q = same i (omega arith) ∙ indexed i p q
