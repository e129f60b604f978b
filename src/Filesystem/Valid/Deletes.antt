-- ===== src/Filesystem/Valid/Deletes.antt =====
-- `delete_file` keeps the invariant.
use native.Mathlib.Decide.{dec_lt}
use virtual_file_system.Common.{
  ℕ, ◌+◌, ◌-◌, ◌≤◌, ◌<◌, ◌≡◌, refl, sym, ap, ◌∙◌, ◌⊎◌, inl, inr, none, some, update, sub64, ok,
  arith,
}
use virtual_file_system.Structs.{CString, FileEntry, Ptr, Filesys}
use virtual_file_system.Arr.Shift.{update_ne}
use virtual_file_system.Arr.Member.{Member}
use virtual_file_system.Filesystem.Repack.Moves.{offset_at, length_at}
use virtual_file_system.Filesystem.Layout.{IsSolid, IsSolid-used, apart_all, sum_below}
use virtual_file_system.Filesystem.Layout.Splice.{Spliced, sum_below-Spliced}
use virtual_file_system.Filesystem.Space.Counted.{IsCounted, count_taken-release}
use virtual_file_system.Filesystem.Delete.{delete_file}
use virtual_file_system.Filesystem.Delete.Removes.{Deleted, delete_file-Deleted}
use virtual_file_system.Filesystem.Create.Based.{IsHashed-same}
use virtual_file_system.Filesystem.Catalog.{Finds}
use virtual_file_system.Filesystem.Valid.{IsOwned, IsValid}

module _ (fs fs' : Filesys) (w : IsValid fs) (p : Ptr) (m : Member fs.n_list p)
    (d : Deleted p fs fs') where
  abbrev n : ℕ
  n = fs'.o_list.size

  same_offset : (q : Ptr) → (fs'.heap.cell q).offset ≡ (fs.heap.cell q).offset
  same_offset q = (d.same q).1

  same_length : (q : Ptr) → (fs'.heap.cell q).length ≡ (fs.heap.cell q).length
  same_length q = (d.same q).2

  inside : d.slot ≤ n
  inside = omega (arith, d.listed.0, d.size)

  -- A field of the files in the array by offset, of which that of `p` is removed.
  field-Spliced :
      (field : FileEntry → ℕ)
      → ((q : Ptr) → field (fs'.heap.cell q) ≡ field (fs.heap.cell q))
      → Spliced d.slot n
          (field (fs.heap.cell p))
          (λ j. field (fs'.heap.cell (fs'.o_list.list j)))
          (λ j. field (fs.heap.cell (fs.o_list.list j)))
  field-Spliced field same = record {
    low = λ j q. sym (same (fs'.o_list.list j) ∙ ap (λ z. field (fs.heap.cell z)) (d.before j q));
    at = ap (λ z. field (fs.heap.cell z)) d.listed.1;
    high = λ j q r. sym (
        same (fs'.o_list.list j)
        ∙ ap (λ z. field (fs.heap.cell z)) (d.behind j q (omega (arith, d.size))));
  }

  offsets :
      Spliced d.slot n
        (fs.heap.cell p).offset
        (offset_at fs'.o_list fs'.heap)
        (offset_at fs.o_list fs.heap)
  offsets = field-Spliced (λ f. f.offset) same_offset

  lengths :
      Spliced d.slot n
        (fs.heap.cell p).length
        (length_at fs'.o_list fs'.heap)
        (length_at fs.o_list fs.heap)
  lengths = field-Spliced (λ f. f.length) same_length

  len_same : fs'.file_data_len ≡ fs.file_data_len
  len_same = ap (λ (z : Filesys). z.file_data_len) d.rest

  -- The new position of a file and its old one.
  moved :
      (j : ℕ)
      → j < n
      → (i : ℕ) × (i < fs.o_list.size)
        × (offset_at fs.o_list fs.heap i ≡ offset_at fs'.o_list fs'.heap j)
        × (length_at fs.o_list fs.heap i ≡ length_at fs'.o_list fs'.heap j)
        × (((j < d.slot) × (i ≡ j)) ⊎ ((d.slot ≤ j) × (i ≡ j + 1)))
  moved j q = elim (dec_lt j d.slot) [
    | yes low ↦ (j, omega (arith, d.size), offsets.low j low, lengths.low j low, inl (low, refl))
    | no high ↦ (
      j + 1,
      omega (arith, d.size),
      offsets.high j (omega arith) q,
      lengths.high j (omega arith) q,
      inr (omega arith, refl),
    )
  ]

  deleted_total :
      sum_below (length_at fs.o_list fs.heap) fs.o_list.size
      ≡ sum_below (length_at fs'.o_list fs'.heap) n + (fs.heap.cell p).length
  deleted_total = rw (sym d.size) (
      sum_below-Spliced d.slot n (fs.heap.cell p).length (length_at fs'.o_list fs'.heap)
        (length_at fs.o_list fs.heap) inside lengths)

  deleted-IsSolid : IsSolid fs'
  deleted-IsSolid =
      let used : fs'.used ≡ sub64 fs.used (fs.heap.cell p).length =
        ap (λ (z : Filesys). z.used) d.rest in
      record {
        apart = λ i q.
            let (a, inside_a, at_a, of_a, side_a) = moved i (omega arith) in
            let (b, inside_b, at_b, of_b, side_b) = moved (i + 1) q in
            omega (
              arith,
              apart_all fs w.solid a b (omega (arith, side_a, side_b)) inside_b,
              at_a,
              of_a,
              at_b,
            );
        lies = λ j q.
            let (i, inside_i, at, of, side) = moved j q in
            elim (w.solid.lies i inside_i) [
              | inl (low, some_bytes, fits) ↦
                  inl (omega (arith, at), omega (arith, of), omega (arith, at, of, len_same))
              | inr (end, empty) ↦ inr (omega (arith, at), omega (arith, of))
            ];
        total =
            rw used
              (omega (arith, deleted_total, w.solid.total, IsSolid-used fs w.solid, w.solid.limit));
        limit = rw len_same w.solid.limit;
      }

  deleted-IsCounted : IsCounted fs'
  deleted-IsCounted =
      let index_same : fs'.index ≡ update fs.index (fs.heap.cell p).index 0 =
        ap (λ (z : Filesys). z.index) d.rest in
      let len : fs'.index_len ≡ fs.index_len = ap (λ (z : Filesys). z.index_len) d.rest in
      let count : fs'.index_count ≡ fs.index_count - 1 =
        ap (λ (z : Filesys). z.index_count) d.rest in
      rw (index_same, len, count)
        (omega (
          arith,
          count_taken-release fs.index fs.index_len (fs.heap.cell p).index (w.catalog.slot p m)
              (w.owned.taken p m),
          w.counted,
        ))

  -- The other files keep their entries.
  deleted-IsOwned : IsOwned fs'
  deleted-IsOwned =
      let index_same : fs'.index ≡ update fs.index (fs.heap.cell p).index 0 =
        ap (λ (z : Filesys). z.index) d.rest in
      record {
        taken = λ q m'.
            let (old, ne) = (d.members q).0 m' in
            rw (index_same, (d.same q).3)
              (rw
                (update_ne fs.index (fs.heap.cell p).index (fs.heap.cell q).index 0
                  (λ e. ne (w.owned.own q p old m e)))
                (w.owned.taken q old));
        own = λ q r m' m'' e.
            w.owned.own q r ((d.members q).0 m').0 ((d.members r).0 m'').0
              (sym (d.same q).3 ∙ (e ∙ (d.same r).3));
      }

  pub Deleted-IsValid : IsValid fs'
  Deleted-IsValid = record {
    catalog = d.valid;
    solid = deleted-IsSolid;
    counted = deleted-IsCounted;
    owned = deleted-IsOwned;
    hashed =
        IsHashed-same fs fs' (ap (λ (z : Filesys). z.file) d.rest)
          (ap (λ (z : Filesys). z.hash) d.rest) (ap (λ (z : Filesys). z.leaf_offset) d.rest)
          w.hashed;
    sized = record {
      blocks = rw (len_same, ap (λ (z : Filesys). z.leaf_offset) d.rest) w.sized.blocks;
      limit = rw len_same w.sized.limit;
    };
  }

-- What `delete_file` can do on a valid file system.
abbrev pub DeleteOutcome : CString → Filesys → Type 0
DeleteOutcome name fs =
    ((delete_file name fs ≡ ok (1, fs)) × Finds fs name none)
    ⊎ ((p : Ptr) × Finds fs name (some p)
        × ((fs' : Filesys) × (delete_file name fs ≡ ok (0, fs')) × Deleted p fs fs' × IsValid fs'))

pub delete_file-IsValid : (name : CString) (fs : Filesys) → IsValid fs → DeleteOutcome name fs
delete_file-IsValid name fs w = elim (delete_file-Deleted name fs w.catalog) [
  | inl missing ↦ inl missing
  | inr (p, f, (fs', run, d)) ↦ inr (p, f, (fs', run, d, Deleted-IsValid fs fs' w p f.0 d))
]
