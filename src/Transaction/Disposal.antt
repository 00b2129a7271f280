-- ===== src/Transaction/Disposal.antt =====
-- Transactions that the garbage collection has disposed (`collectGarbage` and `fetchTransaction` of
-- src/webrequest/transaction.cpp).
use strus_bindings.Base.{
  ℕ, zero, suc, ◌+◌, ◌-◌, ◌*◌, ◌<◌, ◌^◌, ◌%◌, ◌≡◌, ◌⊎◌, refl, sym, ap, ◌∙◌, Bool, true, false,
  Option, none, some, arith, length, length-set, ltb, ◌==◌, ==_iff, if◌then◌else◌, Bool-cases,
  Option-cases, inl, inr,
}
use native.Mathlib.Nat.{mod-eq_of_lt, mod-lt, add-mod-mod, add-zero}
use strus_bindings.Base.Int.{ℤ, pos, low_bits, low_bits-lt, rem_ℤ, ◌+ℤ◌}
use strus_bindings.Base.Result.{err}
use strus_bindings.Transaction.Id.{transaction_id}
use strus_bindings.Transaction.Id.RoundTrip.{transaction_index-pos}
use strus_bindings.Transaction.Pool.{undefined_behaviour, Transaction, Pool, minus_one, candidate}
use strus_bindings.Transaction.Operations.{
  set_refar, set_slot, slot_of, ref_of, first_slot, reset_slot, reset_slots, window, window_end,
  window_size, set_tick, set_tickflag, collect_unless, collect_garbage, fetch_transaction,
}
use strus_bindings.Transaction.Invariant.{
  Clients, Inv, slot_of-set_slot, slot_of-set_refar, ref_of-set_slot, ref_of-set_refar,
  ref_of-set_refar_self,
}
use strus_bindings.Transaction.Garbage.{
  in_window, mod_below_twice, window-lt, slot_of-collect, reset_slot-sizes,
}
use strus_bindings.Transaction.Expiry.{window-add, candidate-window}
use strus_bindings.Transaction.Faults.{fetch_transaction_unknown}

-- From `x` on a ring of `m - 1` places, the first `a` places are in the window.
in_first :
    (x m a o : ℕ)
    → x < m - 1
    → o < a
    → a < m - 1
    → let stop = (x + a) % (m - 1) in
      let end = if ltb stop x then stop + m else stop in
      in_window m x (end - x) ((x + o) % m) ≡ true
in_first x m a o h k l =
    ground (
      arith,
      mod_below_twice (x + a) (m - 1) (omega arith),
      mod_below_twice (x + o) m (omega arith),
    )

add_pos : (a b : ℕ) → pos a +ℤ pos b ≡ pos (a + b)
unfolding ◌+ℤ◌
add_pos a b = ground arith

module _ {C : Type 0} where
  -- The transaction is in its slot, or its entry of `m_refar` is unused.
  abbrev StoredOrGone : Transaction C → (slot : ℕ) → Pool C → Type 0
  StoredOrGone tr s p =
      (tr.ref < length p.refar) × ((slot_of p s ≡ some tr) ⊎ (ref_of p tr.ref ≡ minus_one))

  same_transaction :
      {t tr : Transaction C} {o : Option (Transaction C)} → o ≡ some t → o ≡ some tr → t ≡ tr
  same_transaction e f = ground (arith, e, f)

  reset_some :
      (tr t : Transaction C) (s i : ℕ) (p : Pool C)
      → slot_of p i ≡ some t
      → StoredOrGone tr s p
      → StoredOrGone tr s (set_refar t.ref minus_one (set_slot i none p))
  unfolding set_refar set_slot
  reset_some tr t s i p e (lt, inl f) = elim (Bool-cases (i == s)) [
    | inl same ↦
        (let at_s : slot_of p s ≡ some t = ap (slot_of p) (sym ((==_iff i s).0 same)) ∙ e in
          let one : t ≡ tr = same_transaction at_s f in
          (
            rw (length-set p.refar t.ref minus_one) lt,
            inr (rw one (ref_of-set_refar_self (set_slot i none p) tr.ref minus_one lt)),
          ))
    | inr other ↦ (
      rw (length-set p.refar t.ref minus_one) lt,
      inl (
          slot_of-set_refar (set_slot i none p) t.ref s minus_one
          ∙ (slot_of-set_slot p i s none ∙ rw other f)),
    )
  ]
  reset_some tr t s i p e (lt, inr f) = (
    rw (length-set p.refar t.ref minus_one) lt,
    inr (
        ground (
          arith,
          ref_of-set_refar (set_slot i none p) t.ref tr.ref minus_one,
          ref_of-set_slot p i tr.ref none,
          f,
        )),
  )

  reset_slot-StoredOrGone :
      (tr : Transaction C) (s i : ℕ) (p : Pool C)
      → StoredOrGone tr s p
      → StoredOrGone tr s (reset_slot i p)
  unfolding reset_slot
  reset_slot-StoredOrGone tr s i p h = elim (Option-cases (slot_of p i)) [
    | inl e ↦ rw (e, reset_slot) h
    | inr (t, e) ↦ rw (e, reset_slot) (reset_some tr t s i p e h)
  ]

  reset_slots-StoredOrGone :
      (n start : ℕ) (tr : Transaction C) (s : ℕ) (p : Pool C)
      → StoredOrGone tr s p
      → StoredOrGone tr s (reset_slots n start p)
  unfolding reset_slots
  reset_slots-StoredOrGone zero start tr s p h = h
  reset_slots-StoredOrGone (suc n) start tr s p h =
      reset_slots-StoredOrGone n (suc start) tr s (reset_slot (start % p.arsize) p)
        (reset_slot-StoredOrGone tr s (start % p.arsize) p h)

  reset_slots-arsize : (n start : ℕ) (p : Pool C) → (reset_slots n start p).arsize ≡ p.arsize
  unfolding reset_slots
  reset_slots-arsize zero start p = refl
  reset_slots-arsize (suc n) start p =
      reset_slots-arsize n (suc start) (reset_slot (start % p.arsize) p)
      ∙ (reset_slot-sizes p (start % p.arsize)).0

  collect_unless-StoredOrGone :
      (running log_action : Bool) (t : ℕ) (tr : Transaction C) (s : ℕ) (p : Pool C)
      → StoredOrGone tr s p
      → let q = (collect_unless running log_action t p).0 in
        StoredOrGone tr s q × (q.arsize ≡ p.arsize)
  unfolding collect_unless set_tick set_tickflag slot_of ref_of
  collect_unless-StoredOrGone true log_action t tr s p h = (h, refl)
  collect_unless-StoredOrGone false log_action t tr s p h = (
    reset_slots-StoredOrGone (window_size p t) (window p p.lasttick) tr s
        (set_tick t (set_tickflag true p)) h,
    reset_slots-arsize (window_size p t) (window p p.lasttick) (set_tick t (set_tickflag true p)),
  )

  gone :
      (tr : Transaction C) (s : ℕ) (q : Pool C)
      → slot_of q s ≡ none
      → StoredOrGone tr s q
      → ref_of q tr.ref ≡ minus_one
  gone tr s q e (lt, inl f) = absurd (ground (arith, e, f))
  gone tr s q e (lt, inr f) = f

  -- If a garbage collection of a well-formed pool empties the slot of a stored transaction with a
  -- non-negative index, then a later fetch by its id has no defined behaviour: it takes the mutex
  -- with the index -1.
  pub fetch_transaction_disposed :
      (log_action : Bool) (t : ℕ) (p : Pool C) (held : Clients C) (s n : ℕ) (tr : Transaction C)
      → Inv p held
      → slot_of p s ≡ some tr
      → tr.tidx ≡ pos n
      → n < 2 ^ 63
      → slot_of (collect_garbage log_action t p).0 s ≡ none
      → let q = (collect_garbage log_action t p).0 in
        fetch_transaction (transaction_id tr.tidx) q ≡ (err undefined_behaviour, q)
  unfolding collect_garbage
  fetch_transaction_disposed log_action t p held s n tr v e i lt empty =
      let q = (collect_garbage log_action t p).0 in
      let r_lt : low_bits p.arsize tr.tidx < p.arsize =
        low_bits-lt p.arsize tr.tidx (omega (arith, v.size)) in
      let kept =
        collect_unless-StoredOrGone p.tickflag log_action t tr s p
          (rw (v.size_refar, v.stored_ref s tr e) r_lt, inl e) in
      let entry : low_bits q.arsize tr.tidx ≡ tr.ref =
        ap (λ m. low_bits m tr.tidx) kept.1 ∙ sym (v.stored_ref s tr e) in
      fetch_transaction_unknown q (transaction_id tr.tidx) tr.tidx
        (rw i (transaction_index-pos n lt)) (ap (ref_of q) entry ∙ gone tr s q empty kept.0)

  first_place :
      (p : Pool C) (d n : ℕ) (tidx : ℤ)
      → tidx ≡ pos n
      → low_bits p.arsize (first_slot p d tidx) ≡ (candidate p d + n % p.nof_per_slot) % p.arsize
  unfolding first_slot low_bits rem_ℤ
  first_place p d n tidx i =
      ap (λ z. low_bits p.arsize (first_slot p d z)) i
      ∙ ap (low_bits p.arsize) (add_pos (candidate p d) (n % p.nof_per_slot))

  -- Take a well-formed pool without a running collection, which has more slots than it empties with
  -- a tick, and empties one at least, and a stored transaction with a non-negative index. If the
  -- transaction lies in the slot that `newTransaction` tries first at the last tick of the pool, and
  -- its lifetime times the transactions per slot is a multiple of the slots but one, and the place
  -- of its timeout is computed without overflow, then the garbage collection of the next tick
  -- disposes it, however long its lifetime is: its slot is empty then, and a fetch by its id has no
  -- defined behaviour.
  pub collect_early :
      (log_action : Bool) (p : Pool C) (held : Clients C) (n : ℕ) (tr : Transaction C)
      → Inv p held
      → p.tickflag ≡ false
      → (p.lasttick % (p.arsize - 1) + tr.max_idle_time) * p.nof_per_slot < 2 ^ 64
      → tr.max_idle_time * p.nof_per_slot % (p.arsize - 1) ≡ 0
      → 0 < p.nof_per_slot
      → p.nof_per_slot < p.arsize - 1
      → tr.tidx ≡ pos n
      → n < 2 ^ 63
      → slot_of p (low_bits p.arsize (first_slot p tr.max_idle_time tr.tidx)) ≡ some tr
      → let q = (collect_garbage log_action (p.lasttick + 1) p).0 in
        (slot_of q (low_bits p.arsize (first_slot p tr.max_idle_time tr.tidx)) ≡ none)
        × (fetch_transaction (transaction_id tr.tidx) q ≡ (err undefined_behaviour, q))
  unfolding window_size window_end
  collect_early log_action p held n tr v idle small rounds pos_n n_lt i lt e =
      let x = window p p.lasttick in
      let d = tr.max_idle_time in
      let m = p.arsize - 1 in
      let s = low_bits p.arsize (first_slot p d tr.tidx) in
      let x_lt = window-lt p p.lasttick v.size in
      let here : candidate p d ≡ x =
        candidate-window p d small
        ∙ sym (add-mod-mod x (d * p.nof_per_slot) m)
        ∙ rw (rounds, add-zero) (mod-eq_of_lt x_lt) in
      let o_lt = mod-lt n {m = p.nof_per_slot} pos_n in
      let place : s ≡ (x + n % p.nof_per_slot) % p.arsize =
        first_place p d n tr.tidx i ∙ ap (λ z. (z + n % p.nof_per_slot) % p.arsize) here in
      let empty : slot_of (collect_garbage log_action (p.lasttick + 1) p).0 s ≡ none =
        slot_of-collect log_action (p.lasttick + 1) p s idle v.size v.size_ar
          (rw place (mod-lt _ (omega (arith, v.size))))
        ∙ rw (place, window-add p p.lasttick 1)
            (ground
              (arith, in_first x p.arsize p.nof_per_slot (n % p.nof_per_slot) x_lt o_lt n_lt)) in
      (empty, fetch_transaction_disposed log_action (p.lasttick + 1) p held s n tr v e i lt empty)
