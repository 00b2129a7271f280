-- ===== src/Transaction/Garbage.antt =====
-- Which slots the garbage collection empties (`collectGarbage` of
-- src/webrequest/transaction.cpp), and how long a transaction stays.
use strus_bindings.Base.{
  ℕ, zero, suc, ◌+◌, ◌-◌, ◌*◌, ◌/◌, ◌<◌, ◌≤◌, ◌%◌, ◌≡◌, refl, sym, ap, ◌∙◌, Bool, true, false, none,
  arith, length, ltb, ltb→lt, leb, ◌==◌, ◌&&◌, ◌||◌, if◌then◌else◌, Bool-cases, inl, inr,
  length-set,
}
use native.Mathlib.Nat.{mod-eq-sub-mod, mod-eq_of_lt, mod-lt, add-mul-mod_self_left, div-add-mod}
use strus_bindings.Transaction.Pool.{Pool}
use strus_bindings.Transaction.Operations.{
  slot_of, reset_slot, reset_slots, window, window_end, window_size, set_tick, set_tickflag,
  collect_unless, collect_garbage,
}
use strus_bindings.Transaction.Invariant.{slot_of-set_slot}

-- `i` or `i + m` is one of the `n` numbers from `start` on: the slot `i` is in the window.
abbrev pub in_window : (m start n i : ℕ) → Bool
in_window m start n i =
    leb start i && ltb i (start + n) || leb start (i + m) && ltb (i + m) (start + n)

pub mod_below_twice : (a m : ℕ) → a < m + m → a % m ≡ (if ltb a m then a else a - m)
mod_below_twice a m h = elim (Bool-cases (ltb a m)) [
  | inl lt ↦ rw lt (mod-eq_of_lt (ltb→lt a m lt))
  | inr ge ↦ rw ge (mod-eq-sub-mod (ground arith) ∙ mod-eq_of_lt (ground arith))
]

pub mod-mul : (t m n : ℕ) → t % m * n % m ≡ t * n % m
mod-mul t m n =
    sym (add-mul-mod_self_left (t % m * n) m (t / m * n))
    ∙ ap (λ z. z % m) (omega (arith, ap (λ (z : ℕ). z * n) (div-add-mod t m)))

module _ {C : Type 0} where
  slot_of-reset_slot :
      (p : Pool C) (s i : ℕ)
      → s < length p.ar
      → slot_of (reset_slot s p) i ≡ (if s == i then none else slot_of p i)
  unfolding reset_slot
  slot_of-reset_slot p s i h = ground (arith, slot_of-set_slot p s i none)

  pub reset_slot-sizes :
      (p : Pool C) (s : ℕ)
      → ((reset_slot s p).arsize ≡ p.arsize) × (length (reset_slot s p).ar ≡ length p.ar)
  unfolding reset_slot
  reset_slot-sizes p s = ground (arith, length-set p.ar s none)

  -- One slot after the other is emptied, and all others stay as they are.
  slot_of-reset_slots :
      (n start : ℕ) (p : Pool C) (i : ℕ)
      → start + n ≤ p.arsize + p.arsize
      → i < p.arsize
      → length p.ar ≡ p.arsize
      → slot_of (reset_slots n start p) i
        ≡ (if in_window p.arsize start n i then none else slot_of p i)
  unfolding reset_slots
  slot_of-reset_slots zero start p i h lt len = ground arith
  slot_of-reset_slots (suc n) start p i h lt len =
      let s = start % p.arsize in
      let q = reset_slot s p in
      let sizes = reset_slot-sizes p s in
      let s_lt = mod-lt start {m = p.arsize} (omega arith) in
      let ih =
        slot_of-reset_slots n (suc start) q i (rw sizes.0 (omega arith)) (rw sizes.0 lt)
          (sizes.1 ∙ len ∙ sym sizes.0) in
      ih
      ∙ rw
          (
            sizes.0,
            slot_of-reset_slot p s i (rw len s_lt),
            mod_below_twice start p.arsize (omega arith),
          )
          (ground arith)

  pub window-lt : (p : Pool C) (t : ℕ) → 1 < p.arsize → window p t < p.arsize - 1
  unfolding window
  window-lt p t h = mod-lt _ (omega arith)

  -- The window ends behind its start, and not more than one round later.
  window_end_bounds :
      (p : Pool C) (a b : ℕ)
      → a < p.arsize - 1
      → b < p.arsize - 1
      → (a ≤ window_end p a b) × (window_end p a b ≤ p.arsize + p.arsize)
  unfolding window_end
  window_end_bounds p a b h k = ground arith

  collect_unless-false :
      (log_action : Bool) (t : ℕ) (p : Pool C) (i : ℕ)
      → slot_of (collect_unless false log_action t p).0 i
        ≡ slot_of
            (reset_slots (window_size p t) (window p p.lasttick) (set_tick t (set_tickflag true p)))
            i
  unfolding collect_unless set_tickflag slot_of
  collect_unless-false log_action t p i = refl

  -- The garbage collection of an idle pool empties the slots of the window from the last tick to
  -- the new one, and leaves every other slot as it was.
  pub slot_of-collect :
      (log_action : Bool) (t : ℕ) (p : Pool C) (i : ℕ)
      → p.tickflag ≡ false
      → 1 < p.arsize
      → length p.ar ≡ p.arsize
      → i < p.arsize
      → slot_of (collect_garbage log_action t p).0 i ≡ (
          if in_window p.arsize (window p p.lasttick) (window_size p t) i
          then none
          else slot_of p i)
  unfolding collect_garbage
  slot_of-collect log_action t p i idle size len lt =
      let start = window p p.lasttick in
      let bounds =
        window_end_bounds p start (window p t) (window-lt p p.lasttick size) (window-lt p t size) in
      rw idle (
        collect_unless-false log_action t p i
        ∙ unfold set_tick set_tickflag slot_of window_size in
          slot_of-reset_slots (window_size p t) start (set_tick t (set_tickflag true p)) i
            (omega (arith, bounds.0, bounds.1)) lt len)
