-- ===== src/Filesystem/View/Operations.antt =====
-- The operations refine those of a dictionary from names to byte lists.
use native.Mathlib.Decide.{dec_lt, ℕ_discrete}
use virtual_file_system.Common.{
  ℕ, ◌+◌, ◌≤◌, ◌<◌, ◌≡◌, ◌≢◌, refl, sym, ap, ◌∙◌, ◌⊎◌, inl, inr, Option, none, some, take, ok,
  arith,
}
use virtual_file_system.Structs.{CString, Ptr, Filesys, Bytes}
use virtual_file_system.Memory.{memcpy}
use virtual_file_system.Memory.Copy.{memcpy-outside}
use virtual_file_system.Arr.Member.{Member}
use virtual_file_system.Filesystem.Create.{find_file}
use virtual_file_system.Filesystem.Create.Based.{KeepsContents}
use virtual_file_system.Filesystem.Create.Files.{CreatedFile}
use virtual_file_system.Filesystem.Delete.Removes.{Deleted}
use virtual_file_system.Filesystem.Repack.Moves.{offset_at, length_at}
use virtual_file_system.Filesystem.Layout.{apart_all}
use virtual_file_system.Filesystem.Catalog.{IsCatalog, Finds, find_file-Finds, Member-unique}
use virtual_file_system.Filesystem.Valid.{IsValid}
use virtual_file_system.Filesystem.View.{
  list_discrete, bytes_from, file_bytes, view, Updated, null_bytes, overwrite, bytes_from-same,
  bytes_from-zeros, bytes_from-memcpy, view-some, view-none,
}

-- What `name` shows does not depend on other files. If the files of `fs` that have a name other
-- than `name` are those of `fs'` and have their bytes there, both show the same for other names.
module _ (fs fs' : Filesys) (v : IsCatalog fs) (v' : IsCatalog fs') (x : CString)
    (there : (p : Ptr)
      → Finds fs x (some p)
      → Finds fs' x (some p) × (file_bytes fs' p ≡ file_bytes fs p))
    (absent : Finds fs x none → Finds fs' x none) where
  pub view-same : view fs' x ≡ view fs x
  view-same = go (find_file-Finds fs v x)
    where
      go : ((r : Option Ptr) × (find_file x fs ≡ ok r) × Finds fs x r) → view fs' x ≡ view fs x
      go (some p, e, f) =
          view-some fs' v' x p (there p f).0 ∙ (ap some (there p f).1 ∙ sym (view-some fs v x p f))
      go (none, e, f) = view-none fs' v' x (absent f) ∙ sym (view-none fs v x f)

pub KeepsContents-file_bytes :
    (fs fs' : Filesys) (p : Ptr)
    → KeepsContents fs fs'
    → Member fs.n_list p
    → file_bytes fs' p ≡ file_bytes fs p
KeepsContents-file_bytes fs fs' p keeps m =
    let (same_length, same_bytes) = keeps p m in
    rw same_length (
      bytes_from-same fs'.file fs.file (fs'.heap.cell p).offset (fs.heap.cell p).offset
        (fs.heap.cell p).length same_bytes)

-- `create_file`: the name, which no file had, shows null bytes.
module _ (name : CString) (length : ℕ) (fs fs' : Filesys) (w : IsValid fs)
    (made : CreatedFile name length fs fs') where
  created-Member : Member fs'.n_list made.p
  created-Member = (made.members made.p).1 (inr refl)

  created_absent : (x : CString) → take 63 x ≢ take 63 name → Finds fs x none → Finds fs' x none
  created_absent x ne absent q m same = elim ((made.members q).0 m) [
    | inl old ↦ absent q old (sym (made.names q old) ∙ same)
    | inr e ↦ ne (sym (sym made.new_name ∙ (ap (λ z. (fs'.heap.cell z).name) (sym e) ∙ same)))
  ]

  created_bytes : file_bytes fs' made.p ≡ null_bytes length
  created_bytes =
      rw made.new_length (bytes_from-zeros fs'.file (fs'.heap.cell made.p).offset length made.zeros)

  pub CreatedFile-Updated : Updated name (some (null_bytes length)) (view fs) (view fs')
  CreatedFile-Updated x = elim (list_discrete (take 63 x) (take 63 name)) [
    | yes e ↦ inl (
      e,
      view-some fs' made.valid.catalog x made.p (created-Member, made.new_name ∙ sym e)
          ∙ ap some created_bytes,
    )
    | no ne ↦ inr (
      ne,
      view-same fs fs' w.catalog made.valid.catalog x
          (λ p f. (
            ((made.members p).1 (inl f.0), made.names p f.0 ∙ f.1),
            KeepsContents-file_bytes fs fs' p made.contents f.0,
          ))
          (created_absent x ne),
    )
  ]

-- `delete_file`: the name shows no file.
module _ (name : CString) (fs fs' : Filesys) (w : IsValid fs) (p : Ptr) (f : Finds fs name (some p))
    (d : Deleted p fs fs') where
  deleted_bytes : (q : Ptr) → file_bytes fs' q ≡ file_bytes fs q
  deleted_bytes q = rw (ap (λ (z : Filesys). z.file) d.rest, (d.same q).1, (d.same q).2) refl

  pub Deleted-Updated : Updated name none (view fs) (view fs')
  Deleted-Updated x = elim (list_discrete (take 63 x) (take 63 name)) [
    | yes e ↦ inl (
      e,
      view-none fs' d.valid x (λ q m same. ((d.members q).0 m).1 (
          Member-unique fs w.catalog q p ((d.members q).0 m).0 f.0
            (sym (d.same q).0 ∙ (same ∙ (e ∙ sym f.1))))),
    )
    | no ne ↦ inr (
      ne,
      view-same fs fs' w.catalog d.valid x
          (λ q g. (
            (
              (d.members q).1
                  (g.0, λ here. ne (sym g.1 ∙ (ap (λ z. (fs.heap.cell z).name) here ∙ f.1))),
              (d.same q).0 ∙ g.1,
            ),
            deleted_bytes q,
          ))
          (λ absent q m same. absent q ((d.members q).0 m).0 (sym (d.same q).0 ∙ same)),
    )
  ]

-- `write_file` inside the bounds of a file: the name shows the new bytes in place of the old.
module _ (name : CString) (offset count : ℕ) (buf : Bytes) (fs : Filesys) (w : IsValid fs) (p : Ptr)
    (f : Finds fs name (some p)) (inside : offset + count ≤ (fs.heap.cell p).length) (hash : Bytes)
    (v' : IsCatalog (record fs {
      file = memcpy fs.file ((fs.heap.cell p).offset + offset) buf 0 count;
      hash = hash;
    })) where
  abbrev after : Filesys
  after = record fs {
    file = memcpy fs.file ((fs.heap.cell p).offset + offset) buf 0 count;
    hash = hash;
  }

  -- The bytes of another file are outside of the written range.
  other_outside :
      (q : Ptr)
      → Member fs.n_list q
      → q ≢ p
      → (i : ℕ) → i < (fs.heap.cell q).length
      → ((fs.heap.cell q).offset + i < (fs.heap.cell p).offset + offset)
        ⊎ ((fs.heap.cell p).offset + offset + count ≤ (fs.heap.cell q).offset + i)
  other_outside q m ne i short =
      let (a, in_a, at_p) = (w.catalog.paired p).0 f.0 in
      let (b, in_b, at_q) = (w.catalog.paired q).0 m in
      let offset_p : offset_at fs.o_list fs.heap a ≡ (fs.heap.cell p).offset =
        ap (λ z. (fs.heap.cell z).offset) at_p in
      let length_p : length_at fs.o_list fs.heap a ≡ (fs.heap.cell p).length =
        ap (λ z. (fs.heap.cell z).length) at_p in
      let offset_q : offset_at fs.o_list fs.heap b ≡ (fs.heap.cell q).offset =
        ap (λ z. (fs.heap.cell z).offset) at_q in
      let length_q : length_at fs.o_list fs.heap b ≡ (fs.heap.cell q).length =
        ap (λ z. (fs.heap.cell z).length) at_q in
      elim (dec_lt a b) [
        | yes left ↦ inr (omega (arith, apart_all fs w.solid a b left in_b))
        | no above ↦ elim (ℕ_discrete a b) [
          | yes e ↦ absurd (ne (sym at_q ∙ (ap fs.o_list.list (sym e) ∙ at_p)))
          | no differ ↦ inl (omega (arith, apart_all fs w.solid b a (omega arith) in_a))
        ]
      ]

  other_bytes : (q : Ptr) → Member fs.n_list q → q ≢ p → file_bytes after q ≡ file_bytes fs q
  other_bytes q m ne =
      bytes_from-same after.file fs.file (fs.heap.cell q).offset (fs.heap.cell q).offset
        (fs.heap.cell q).length
        (λ i short.
          memcpy-outside fs.file ((fs.heap.cell p).offset + offset) buf 0 count
            ((fs.heap.cell q).offset + i) (other_outside q m ne i short))

  pub written-Updated :
      Updated name
        (some (overwrite offset (bytes_from buf 0 count) (file_bytes fs p)))
        (view fs)
        (view after)
  written-Updated x = elim (list_discrete (take 63 x) (take 63 name)) [
    | yes e ↦ inl (
      e,
      view-some after v' x p (f.0, f.1 ∙ sym e)
          ∙ ap some (
              bytes_from-memcpy fs.file buf (fs.heap.cell p).offset offset 0 count
                (fs.heap.cell p).length inside),
    )
    | no ne ↦ inr (
      ne,
      view-same fs after w.catalog v' x
          (λ q g. (
            g,
            other_bytes q g.0 (λ here. ne (sym g.1 ∙ (ap (λ z. (fs.heap.cell z).name) here ∙ f.1))),
          ))
          (λ absent. absent),
    )
  ]
