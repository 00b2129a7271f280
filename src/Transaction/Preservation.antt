-- ===== src/Transaction/Preservation.antt =====
-- The operations of the pool of transactions keep its invariant (src/webrequest/transaction.cpp).
use strus_bindings.Base.{
  ℕ, zero, suc, ◌%◌, ◌<◌, ◌≡◌, ◌≢◌, refl, ap, ◌∙◌, Bool, Option, none, arith, List, get_or,
  Bool-cases, Option-cases, ◌⊎◌, inl, inr, Bytes,
}
use native.Mathlib.Nat.{mod-lt}
use strus_bindings.Base.Int.{ℤ, pos, low_bits, low_bits-lt, eq_ℤ, eq_ℤ_iff, ◌+ℤ◌}
use strus_bindings.Base.Result.{Result, ok, err}
use strus_bindings.Transaction.Pool.{
  Error, Transaction, Pool, minus_one, int_max, is_bad_mutex, next_rand, Attempt, free, occupied,
  outside, Reserved, taken, exhausted, no_mutex, try_reserve, attempt, last_try, retry, reserve,
  Probe, at, full, no_lock, find_slot,
}
use strus_bindings.Transaction.Operations.{
  set_refar, set_slot, slot_of, ref_of, reset_slot, reset_slots, first_slot, place, after_reserve,
  new_transaction, create_transaction, to_id, make_transaction,
}
use strus_bindings.Transaction.Invariant.{
  Clients, Inv, IsFree, ref_of-set_refar_self, slot_of-set_refar, set_refar-Inv, empty-Inv,
  empty-IsFree, store-Inv,
}

pub Probe-cases : (x : Probe) → ((s : ℕ) × (x ≡ at s)) ⊎ (x ≡ full) ⊎ (x ≡ no_lock)
Probe-cases (at s) = inl (s, refl)
Probe-cases full = inr (inl refl)
Probe-cases no_lock = inr (inr refl)

module _ {C : Type 0} where
  -- What the probing finds is an empty slot of the array.
  pub find_slot-at :
      (cnt : ℕ) (slots : List (Option (Transaction C))) (m : ℕ) (e : ℤ) (s : ℕ)
      → 0 < m
      → find_slot cnt slots m e ≡ at s
      → (s < m) × (get_or slots s none ≡ none)
  unfolding find_slot
  find_slot-at zero slots m e s pos_m h = ground (arith, low_bits-lt m e pos_m)
  find_slot-at (suc cnt) slots m e s pos_m h =
      ground (arith, low_bits-lt m e pos_m, find_slot-at cnt slots m (e +ℤ pos 1) s pos_m)

  pub reset_slot-Inv :
      (p : Pool C) (held : Clients C) (s : ℕ)
      → s < p.arsize
      → Inv p held
      → Inv (reset_slot s p) held
  unfolding reset_slot
  reset_slot-Inv p held s lt v = elim (Option-cases (slot_of p s)) [
    | inl e ↦ rw (e, reset_slot) v
    | inr (tr, e) ↦
        rw (e, reset_slot)
          (set_refar-Inv (set_slot s none p) held tr.ref minus_one (empty-IsFree p held s tr lt e v)
            (empty-Inv p held s v))
  ]

  pub reset_slots-Inv :
      (n start : ℕ) (p : Pool C) (held : Clients C) → Inv p held → Inv (reset_slots n start p) held
  unfolding reset_slots
  reset_slots-Inv zero start p held v = v
  reset_slots-Inv (suc n) start p held v =
      reset_slots-Inv n (suc start) (reset_slot (start % p.arsize) p) held
        (reset_slot-Inv p held (start % p.arsize) (mod-lt start (omega (arith, v.size))) v)

  -- An entry of `m_refar` that holds -1 belongs to no transaction.
  pub unused_entry :
      (p : Pool C) (held : Clients C) (r : ℕ)
      → Inv p held
      → ref_of p r ≡ minus_one
      → IsFree r p held
  unused_entry p held r v e = record {
    not_stored = λ s tr e' q. ground (arith, v.stored_slot s tr e', e, q);
    not_held = λ c h e' q. v.held_in_use c h e' (ap (ref_of p) q ∙ e);
  }

  pub set_refar-IsFree :
      (p : Pool C) (held : Clients C) (r t : ℕ) (x : ℤ)
      → IsFree r p held
      → IsFree r (set_refar t x p) held
  set_refar-IsFree p held r t x f = record {
    not_stored = λ s tr e'. f.not_stored s tr (rw (slot_of-set_refar p t s x) at e');
    not_held = f.not_held;
  }

  next_rand-Inv :
      (address : ℕ) (p : Pool C) (held : Clients C) → Inv p held → Inv (next_rand address p).1 held
  unfolding next_rand slot_of ref_of
  next_rand-Inv address p held v = record {
    size = v.size;
    size_ar = v.size_ar;
    size_refar = v.size_refar;
    stored_ref = v.stored_ref;
    stored_slot = v.stored_slot;
    held_ref = v.held_ref;
    held_in_use = v.held_in_use;
    apart = v.apart;
    unique = v.unique;
  }

  -- A reserved entry has no owner yet. After the last failing try the entry may have one.
  abbrev pub Attempted : Clients C → Attempt × Pool C → Type 0
  Attempted held (free t, p) =
      Inv p held × IsFree (low_bits p.arsize t) p held × (ref_of p (low_bits p.arsize t) ≡ int_max)
  Attempted held (occupied t, p) = Inv p held
  Attempted held (outside, p) = Inv p held

  abbrev pub Reserves : Clients C → Reserved × Pool C → Type 0
  Reserves held (taken cnt t, p) =
      Inv p held × IsFree (low_bits p.arsize t) p held × (ref_of p (low_bits p.arsize t) ≡ int_max)
  Reserves held (exhausted t, p) = Inv p held
  Reserves held (no_mutex, p) = Inv p held

  try_reserve-Attempted :
      (tidx : ℤ) (p : Pool C) (held : Clients C) → Inv p held → Attempted held (try_reserve tidx p)
  unfolding try_reserve set_refar ref_of
  try_reserve-Attempted tidx p held v = elim (Bool-cases (is_bad_mutex tidx)) [
    | inl bad ↦ rw (bad, try_reserve) v
    | inr good ↦ elim (Bool-cases (eq_ℤ (ref_of p (low_bits p.arsize tidx)) minus_one)) [
      | inl e ↦
          let f = unused_entry p held _ v ((eq_ℤ_iff _ _).0 e) in
          rw (good, e, try_reserve)
            (
              set_refar-Inv p held (low_bits p.arsize tidx) int_max f v,
              set_refar-IsFree p held _ (low_bits p.arsize tidx) int_max f,
              ref_of-set_refar_self p (low_bits p.arsize tidx) int_max
                  (rw v.size_refar (low_bits-lt p.arsize tidx (omega (arith, v.size)))),
            )
      | inr e ↦ rw (good, e, try_reserve) v
    ]
  ]

  attempt-Attempted :
      (address : ℕ) (p : Pool C) (held : Clients C)
      → Inv p held
      → Attempted held (attempt address p)
  unfolding attempt
  attempt-Attempted address p held v =
      try_reserve-Attempted (next_rand address p).0 (next_rand address p).1 held
        (next_rand-Inv address p held v)

  last_try-Reserves :
      (held : Clients C) (x : Attempt × Pool C) → Attempted held x → Reserves held (last_try x)
  unfolding last_try
  last_try-Reserves held (free t, p) v = v
  last_try-Reserves held (occupied t, p) v = v
  last_try-Reserves held (outside, p) v = v

  retry-Reserves :
      (cnt : ℕ) (again : Pool C → Reserved × Pool C) (held : Clients C) (x : Attempt × Pool C)
      → ((p : Pool C) → Inv p held → Reserves held (again p))
      → Attempted held x
      → Reserves held (retry cnt again x)
  unfolding retry
  retry-Reserves cnt again held (free t, p) h v = v
  retry-Reserves cnt again held (occupied t, p) h v = h p v
  retry-Reserves cnt again held (outside, p) h v = v

  pub reserve-Reserves :
      (cnt : ℕ) (address : ℕ → ℕ) (p : Pool C) (held : Clients C)
      → Inv p held
      → Reserves held (reserve cnt address p)
  unfolding reserve
  reserve-Reserves zero address p held v =
      last_try-Reserves held _ (attempt-Attempted (address 0) p held v)
  reserve-Reserves (suc cnt) address p held v =
      retry-Reserves cnt (reserve cnt address) held _ (λ q w. reserve-Reserves cnt address q held w)
        (attempt-Attempted (address (suc cnt)) p held v)

  -- A new transaction goes to an empty slot, with its entry of `m_refar` reserved for it.
  pub place-Inv :
      (ctype : Bytes) (ctx : C) (idle : ℕ) (tidx : ℤ) (memory : Bool) (p : Pool C)
      (held : Clients C)
      → IsFree (low_bits p.arsize tidx) p held
      → Inv p held
      → Inv (place ctype ctx idle tidx memory p).1 held
  unfolding place
  place-Inv ctype ctx idle tidx memory p held f v =
      elim (Probe-cases (find_slot p.alloc_nof_tries p.ar p.arsize (first_slot p idle tidx))) [
        | inl (s, e) ↦
            let at_s =
              find_slot-at p.alloc_nof_tries p.ar p.arsize (first_slot p idle tidx) s
                (omega (arith, v.size)) e in
            let r = low_bits p.arsize tidx in
            let r_lt = low_bits-lt p.arsize tidx (omega (arith, v.size)) in
            elim (Bool-cases memory) [
              | inl m ↦
                  rw (e, m, place)
                    (store-Inv (set_refar r (pos s) p) held s
                      (make_transaction ctype ctx idle tidx r) at_s.0 refl
                      (ref_of-set_refar_self p r (pos s) (rw v.size_refar r_lt))
                      (set_refar-IsFree p held r r (pos s) f) (set_refar-Inv p held r (pos s) f v))
              | inr m ↦ rw (e, m, place) (set_refar-Inv p held r minus_one f v)
            ]
        | inr (inl e) ↦ rw (e, place) (set_refar-Inv p held _ minus_one f v)
        | inr (inr e) ↦ rw (e, place) v
      ]

  after_reserve-Inv :
      (ctype : Bytes) (ctx : C) (idle : ℕ) (memory : Bool) (held : Clients C)
      (x : Reserved × Pool C)
      → ((t : ℤ) → x.0 ≢ exhausted t)
      → Reserves held x
      → Inv (after_reserve ctype ctx idle memory x).1 held
  unfolding after_reserve
  after_reserve-Inv ctype ctx idle memory held (taken zero t, p) h v = v.0
  after_reserve-Inv ctype ctx idle memory held (taken (suc cnt) t, p) h v =
      place-Inv ctype ctx idle t memory p held v.1 v.0
  after_reserve-Inv ctype ctx idle memory held (exhausted t, p) h v = absurd (h t refl)
  after_reserve-Inv ctype ctx idle memory held (no_mutex, p) h v = v

  to_id-pool : (x : Result Error ℤ × Pool C) → (to_id x).1 ≡ x.1
  unfolding to_id
  to_id-pool (ok t, p) = refl
  to_id-pool (err e, p) = refl

  -- `createTransaction` keeps the invariant, also where it throws, unless all tries to reserve an
  -- entry fail.
  pub create_transaction-Inv :
      (ctype : Bytes) (ctx : C) (max_idle : ℤ) (address : ℕ → ℕ) (memory : Bool) (p : Pool C)
      (held : Clients C)
      → ((t : ℤ) → (reserve p.alloc_nof_tries address p).0 ≢ exhausted t)
      → Inv p held
      → Inv (create_transaction ctype ctx max_idle address memory p).1 held
  unfolding create_transaction new_transaction
  create_transaction-Inv ctype ctx max_idle address memory p held h v = rw to_id-pool (
      after_reserve-Inv ctype ctx _ memory held (reserve p.alloc_nof_tries address p) h
        (reserve-Reserves p.alloc_nof_tries address p held v))
