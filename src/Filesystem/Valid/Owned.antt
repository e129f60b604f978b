-- ===== src/Filesystem/Valid/Owned.antt =====
-- A new file gets an entry of dir_table that is free.
use virtual_file_system.Common.{ℕ, ◌≡◌, ◌≢◌, sym, ap, ◌∙◌, inl, inr, arith}
use virtual_file_system.Structs.{CString, Ptr, Filesys}
use virtual_file_system.Arr.Shift.{update_ne}
use virtual_file_system.Arr.Member.{Member}
use virtual_file_system.Filesystem.Valid.{IsOwned}
use virtual_file_system.Filesystem.Create.Inserts.{Created}

module _ (name : CString) (offset length index : ℕ) (fs fs' : Filesys) (o : IsOwned fs)
    (made : Created name offset length index fs fs') (free : fs.index index ≡ 0) where
  -- No old file has the entry.
  other_entry : (q : Ptr) → Member fs.n_list q → (fs.heap.cell q).index ≢ index
  other_entry q m e = o.taken q m (rw e free)

  new_taken : (q : Ptr) → q ≡ fs.heap.next → fs'.index (fs'.heap.cell q).index ≢ 0
  new_taken q e = rw e (rw (made.taken, made.new_index) (ground arith))

  old_taken : (q : Ptr) → Member fs.n_list q → fs'.index (fs'.heap.cell q).index ≢ 0
  old_taken q m =
      rw (made.taken, (made.old q m).3)
        (rw (update_ne fs.index index (fs.heap.cell q).index 1 (other_entry q m)) (o.taken q m))

  new_entry :
      (p q : Ptr)
      → Member fs.n_list p
      → q ≡ fs.heap.next
      → (fs'.heap.cell p).index ≢ (fs'.heap.cell q).index
  new_entry p q m e same =
      other_entry p m
        (sym (made.old p m).3 ∙ (same ∙ (ap (λ z. (fs'.heap.cell z).index) e ∙ made.new_index)))

  pub Created-IsOwned : IsOwned fs'
  Created-IsOwned = record {
    taken =
        λ q m. elim ((made.members q).0 m) [ inl old ↦ old_taken q old | inr e ↦ new_taken q e ];
    own = λ p q m m' same. elim ((made.members p).0 m) [
      | inl old ↦ elim ((made.members q).0 m') [
        | inl old' ↦ o.own p q old old' (sym (made.old p old).3 ∙ (same ∙ (made.old q old').3))
        | inr e ↦ absurd (new_entry p q old e same)
      ]
      | inr e ↦ elim ((made.members q).0 m') [
        | inl old' ↦ absurd (new_entry q p old' e (sym same))
        | inr e' ↦ e ∙ sym e'
      ]
    ];
  }
