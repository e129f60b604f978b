-- ===== src/Arr/Shift.antt =====
-- What `arr_rshift` and `arr_lshift` do to the slots of an array and to the positions that its
-- elements hold.
use native.Mathlib.Decide.{dec_lt, ℕ_discrete}
use virtual_file_system.Common.{
  pos_injective, ℕ, zero, suc, ◌+◌, ◌≤◌, ◌<◌, ◌≡◌, ◌≢◌, refl, sym, ap, ◌∙◌, update, ℤ, pos,
  minus_one, increment, arith,
}
use virtual_file_system.Structs.{ArrType, by_offset, by_name, FileEntry, Ptr, Heap, Arr, store}
use virtual_file_system.Arr.{position, set_position, rshift_loop}

-- The entries differ at most in the position that an array of the type keeps in them.
abbrev pub SameBut : ArrType → FileEntry → FileEntry → Type 0
SameBut type f g = set_position type minus_one f ≡ set_position type minus_one g

pub position-set_position :
    (type : ArrType) (i : ℤ) (f : FileEntry) → position type (set_position type i f) ≡ i
position-set_position by_offset i f = refl
position-set_position by_name i f = refl

pub SameBut-set_position :
    (type : ArrType) (i : ℤ) (f : FileEntry) → SameBut type (set_position type i f) f
SameBut-set_position by_offset i f = refl
SameBut-set_position by_name i f = refl

pub update_self {ℓ} : {A : Type ℓ} (f : ℕ → A) (i : ℕ) (v : A) → update f i v i ≡ v
update_self f i v = ground arith

pub update_ne {ℓ} : {A : Type ℓ} (f : ℕ → A) (i j : ℕ) (v : A) → j ≢ i → update f i v j ≡ f j
update_ne f i j v h = ground arith

-- The element in slot `i` holds the position `i`, for `n` slots from `start` on.
abbrev pub Indexed : ℕ → ℕ → ArrType → (ℕ → Ptr) → Heap → Type 0
Indexed start n type list h =
    (i : ℕ) → start ≤ i → i < start + n → position type (h.cell (list i)) ≡ pos i

-- The state after the `k` elements from slot `start` on have moved up by one.
pub record ShiftedUp (k start : ℕ) (a : Arr) (h : Heap) (r : Arr × Heap) : Type 0 where
  pub size : r.0.size ≡ a.size
  pub capacity : r.0.capacity ≡ a.capacity
  pub type : r.0.type ≡ a.type
  pub low : (j : ℕ) → j ≤ start → r.0.list j ≡ a.list j
  pub moved : (j : ℕ) → start ≤ j → j < start + k → r.0.list (j + 1) ≡ a.list j
  pub high : (j : ℕ) → start + k < j → r.0.list j ≡ a.list j
  pub positions :
      (j : ℕ) → start ≤ j → j < start + k → position a.type (r.1.cell (a.list j)) ≡ pos (j + 1)
  pub others :
      (q : Ptr) → ((j : ℕ) → start ≤ j → j < start + k → q ≢ a.list j) → r.1.cell q ≡ h.cell q
  pub same : (q : Ptr) → SameBut a.type (r.1.cell q) (h.cell q)
  pub live : r.1.live ≡ h.live
  pub next : r.1.next ≡ h.next

module _ (a : Arr) (h : Heap) (p : Ptr) (k start : ℕ) where
  pub store-SameBut :
      (i : ℤ) (q : Ptr)
      → SameBut a.type (update h.cell p (set_position a.type i (h.cell p)) q) (h.cell q)
  store-SameBut i q = elim (ℕ_discrete q p) [
    | yes e ↦ rw e (
        rw (update_self h.cell p (set_position a.type i (h.cell p)))
          (SameBut-set_position a.type i (h.cell p)))
    | no ne ↦ rw (update_ne h.cell p q (set_position a.type i (h.cell p)) ne)
  ]

-- The first round of `arr_rshift`: the last element moves up.
module _ (k start : ℕ) (a : Arr) (h : Heap) (at : Indexed start (suc k) a.type a.list h) where
  abbrev last_up : Ptr
  last_up = a.list (start + k)

  abbrev last_entry : FileEntry
  last_entry = set_position a.type (increment (position a.type (h.cell last_up))) (h.cell last_up)

  abbrev arr_up : Arr
  arr_up = record a { list = update a.list (start + k + 1) last_up }

  abbrev heap_up : Heap
  heap_up = store last_up last_entry h

  distinct : (j : ℕ) → start ≤ j → j < start + k → a.list j ≢ last_up
  distinct j q r e =
      let same : pos j ≡ pos (start + k) =
        sym (at j q (omega arith)) ∙ (rw e (at (start + k) (omega arith) (omega arith))) in
      absurd (omega (arith, pos_injective same))

  Indexed-up : Indexed start k a.type arr_up.list heap_up
  Indexed-up j q r =
      rw (update_ne a.list (start + k + 1) j last_up (omega arith)) (
        rw (update_ne h.cell last_up (a.list j) last_entry (distinct j q r)) (at j q (omega arith)))

  last_position : position a.type last_entry ≡ pos (start + k + 1)
  last_position =
      position-set_position a.type (increment (position a.type (h.cell last_up))) (h.cell last_up)
      ∙ (rw (at (start + k) (omega arith) (omega arith)) (ap pos (omega arith)))

  slot : (j : ℕ) → j < start + k → update a.list (start + k + 1) last_up j ≡ a.list j
  slot j low = update_ne a.list (start + k + 1) j last_up (omega arith)

  untouched : (j : ℕ) → start ≤ j → j < start + k → last_up ≢ arr_up.list j
  untouched j q low = rw (slot j low) (λ e. distinct j q low (sym e))

  ShiftedUp-suc :
      {r : Arr × Heap} → ShiftedUp k start arr_up heap_up r → ShiftedUp (suc k) start a h r
  ShiftedUp-suc {r} ih = record {
    size = ih.size;
    capacity = ih.capacity;
    type = ih.type;
    low = λ j q. ih.low j q ∙ update_ne a.list (start + k + 1) j last_up (omega arith);
    moved = λ j q t. elim (dec_lt j (start + k)) [
      | yes low ↦ ih.moved j q low ∙ slot j low
      | no high ↦
          (let top : j ≡ start + k = omega arith in
            rw top
              (ih.high (start + k + 1) (omega arith) ∙ update_self a.list (start + k + 1) last_up))
    ];
    high =
        λ j q. ih.high j (omega arith) ∙ update_ne a.list (start + k + 1) j last_up (omega arith);
    positions = λ j q t. elim (dec_lt j (start + k)) [
      | yes low ↦ rw (slot j low) at (ih.positions j q low)
      | no high ↦
          (let top : j ≡ start + k = omega arith in
            rw top (
              rw (ih.others last_up untouched)
                (rw (update_self h.cell last_up last_entry) last_position)))
    ];
    others = λ q out.
        ih.others q (λ j t low. rw (slot j low) (out j t (omega arith)))
        ∙ update_ne h.cell last_up q last_entry (out (start + k) (omega arith) (omega arith));
    same = λ q.
        ih.same q
        ∙ store-SameBut a h last_up k start (increment (position a.type (h.cell last_up))) q;
    live = ih.live;
    next = ih.next;
  }

pub rshift_loop-ShiftedUp :
    (k start : ℕ) (a : Arr) (h : Heap)
    → Indexed start k a.type a.list h
    → ShiftedUp k start a h (rshift_loop k start a h)
unfolding rshift_loop
rshift_loop-ShiftedUp zero start a h at = record {
  size = refl;
  capacity = refl;
  type = refl;
  low = λ j q. refl;
  moved = λ j q r. absurd (omega arith);
  high = λ j q. refl;
  positions = λ j q r. absurd (omega arith);
  others = λ q out. refl;
  same = λ q. refl;
  live = refl;
  next = refl;
}
rshift_loop-ShiftedUp (suc k) start a h at = ShiftedUp-suc k start a h at (
    rshift_loop-ShiftedUp k start (arr_up k start a h at) (heap_up k start a h at)
      (Indexed-up k start a h at))
