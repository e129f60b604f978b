-- ===== src/Arr/ShiftDown.antt =====
-- What `arr_lshift` does to the slots of an array and to the positions that its elements hold.
use native.Mathlib.Decide.{dec_lt}
use virtual_file_system.Common.{
  pos_injective, ℕ, zero, suc, ◌+◌, ◌-◌, ◌≤◌, ◌<◌, ◌≡◌, ◌≢◌, refl, sym, ◌∙◌, update, pos, decrement,
  arith,
}
use virtual_file_system.Structs.{FileEntry, Ptr, Heap, Arr, store}
use virtual_file_system.Arr.{position, set_position, lshift_loop}
use virtual_file_system.Arr.Shift.{
  SameBut, Indexed, update_self, update_ne, store-SameBut, position-set_position,
}

-- The state after the `k` elements behind slot `base` have moved down by one.
pub record ShiftedDown (k base : ℕ) (a : Arr) (h : Heap) (r : Arr × Heap) : Type 0 where
  pub size : r.0.size ≡ a.size
  pub capacity : r.0.capacity ≡ a.capacity
  pub type : r.0.type ≡ a.type
  pub low : (j : ℕ) → j < base → r.0.list j ≡ a.list j
  pub moved : (j : ℕ) → base ≤ j → j < base + k → r.0.list j ≡ a.list (j + 1)
  pub positions :
      (j : ℕ) → base ≤ j → j < base + k → position a.type (r.1.cell (a.list (j + 1))) ≡ pos j
  pub others :
      (q : Ptr) → ((j : ℕ) → base ≤ j → j < base + k → q ≢ a.list (j + 1)) → r.1.cell q ≡ h.cell q
  pub same : (q : Ptr) → SameBut a.type (r.1.cell q) (h.cell q)
  pub live : r.1.live ≡ h.live
  pub next : r.1.next ≡ h.next

-- The first round of `arr_lshift`: the element behind slot `base` moves down.
module _ (k base : ℕ) (a : Arr) (h : Heap) (at : Indexed (base + 1) (suc k) a.type a.list h) where
  abbrev first_down : Ptr
  first_down = a.list (base + 1)

  abbrev first_entry : FileEntry
  first_entry =
      set_position a.type (decrement (position a.type (h.cell first_down))) (h.cell first_down)

  abbrev arr_down : Arr
  arr_down = record a { list = update a.list base first_down }

  abbrev heap_down : Heap
  heap_down = store first_down first_entry h

  distinct : (j : ℕ) → base + 1 < j → j < base + 1 + suc k → a.list j ≢ first_down
  distinct j q r e =
      let same : pos j ≡ pos (base + 1) =
        sym (at j (omega arith) r) ∙ (rw e (at (base + 1) (omega arith) (omega arith))) in
      absurd (omega (arith, pos_injective same))

  slot : (j : ℕ) → base < j → update a.list base first_down j ≡ a.list j
  slot j q = update_ne a.list base j first_down (omega arith)

  Indexed-down : Indexed (base + 1 + 1) k a.type arr_down.list heap_down
  Indexed-down j q r = rw (slot j (omega arith)) (
      rw
        (update_ne h.cell first_down (a.list j) first_entry
          (distinct j (omega arith) (omega arith)))
        (at j (omega arith) (omega arith)))

  first_position : position a.type first_entry ≡ pos base
  first_position =
      position-set_position a.type (decrement (position a.type (h.cell first_down)))
        (h.cell first_down)
      ∙ (rw (at (base + 1) (omega arith) (omega arith)) (ground arith))

  untouched : (j : ℕ) → base + 1 ≤ j → j < base + 1 + k → first_down ≢ arr_down.list (j + 1)
  untouched j q r =
      rw (slot (j + 1) (omega arith)) (λ e. distinct (j + 1) (omega arith) (omega arith) (sym e))

  ShiftedDown-suc :
      {r : Arr × Heap}
      → ShiftedDown k (base + 1) arr_down heap_down r
      → ShiftedDown (suc k) base a h r
  ShiftedDown-suc {r} ih = record {
    size = ih.size;
    capacity = ih.capacity;
    type = ih.type;
    low = λ j q. ih.low j (omega arith) ∙ update_ne a.list base j first_down (omega arith);
    moved = λ j q t. elim (dec_lt base j) [
      | yes later ↦ ih.moved j (omega arith) (omega arith) ∙ slot (j + 1) (omega arith)
      | no now ↦
          (let here : j ≡ base = omega arith in
            rw here (ih.low base (omega arith) ∙ update_self a.list base first_down))
    ];
    positions = λ j q t. elim (dec_lt base j) [
      | yes later ↦ rw (slot (j + 1) (omega arith)) at (ih.positions j (omega arith) (omega arith))
      | no now ↦
          (let here : j ≡ base = omega arith in
            rw here (
              rw (ih.others first_down untouched)
                (rw (update_self h.cell first_down first_entry) first_position)))
    ];
    others = λ q out.
        ih.others q (λ j t u. rw (slot (j + 1) (omega arith)) (out j (omega arith) (omega arith)))
        ∙ update_ne h.cell first_down q first_entry (out base (omega arith) (omega arith));
    same = λ q.
        ih.same q
        ∙ store-SameBut a h first_down k base (decrement (position a.type (h.cell first_down))) q;
    live = ih.live;
    next = ih.next;
  }

pub lshift_loop-ShiftedDown :
    (k base start : ℕ) (a : Arr) (h : Heap)
    → start ≡ base + 1
    → Indexed (base + 1) k a.type a.list h
    → ShiftedDown k base a h (lshift_loop k start a h)
unfolding lshift_loop
lshift_loop-ShiftedDown zero base start a h e at = record {
  size = refl;
  capacity = refl;
  type = refl;
  low = λ j q. refl;
  moved = λ j q r. absurd (omega arith);
  positions = λ j q r. absurd (omega arith);
  others = λ q out. refl;
  same = λ q. refl;
  live = refl;
  next = refl;
}
lshift_loop-ShiftedDown (suc k) base start a h e at =
    let slot_below : start - 1 ≡ base = omega arith in
    rw slot_below (
      rw e (
        ShiftedDown-suc k base a h at (
          lshift_loop-ShiftedDown k (base + 1) (base + 1 + 1) (arr_down k base a h at)
            (heap_down k base a h at) refl (Indexed-down k base a h at))))
