-- ===== src/Transaction/Exchange.antt =====
-- Storing and fetching transactions by their ids (src/webrequest/transaction.cpp).
use strus_bindings.Base.{
  ℕ, ◌<◌, ◌^◌, ◌≡◌, refl, sym, ap, ◌∙◌, Bool, false, none, some, arith, subst, length, lt_of_get_or,
  Bool-cases, inl, inr, Bytes,
}
use native.Mathlib.Nat.{mod-eq_of_lt}
use strus_bindings.Base.Int.{ℤ, pos, low_bits, low_bits-lt, eq_ℤ_iff}
use strus_bindings.Base.Result.{ok}
use strus_bindings.Transaction.Id.{transaction_id, transaction_index}
use strus_bindings.Transaction.Id.RoundTrip.{transaction_index-pos}
use strus_bindings.Transaction.Pool.{
  Transaction, Pool, int_max, is_bad_mutex, taken, Reserved, find_slot,
}
use strus_bindings.Transaction.Operations.{
  set_refar, set_slot, slot_of, ref_of, take_slot, fetch_index, fetch_transaction, make_transaction,
  place, first_slot,
}
use strus_bindings.Transaction.Invariant.{
  Clients, Inv, IsFree, slot_of-set_slot, ref_of-set_slot, ref_of-set_refar_self,
}
use strus_bindings.Transaction.Preservation.{Probe-cases, find_slot-at, Reserves}

is_bad_mutex-pos : (s : ℕ) → is_bad_mutex (pos s) ≡ false
unfolding is_bad_mutex
is_bad_mutex-pos s = refl

low_bits-pos : (m s : ℕ) → s < m → low_bits m (pos s) ≡ s
unfolding low_bits
low_bits-pos m s h = mod-eq_of_lt h

module _ {C : Type 0} where
  pub slot_of-lt :
      (p : Pool C) (held : Clients C) (s : ℕ) (tr : Transaction C)
      → Inv p held
      → slot_of p s ≡ some tr
      → s < p.arsize
  unfolding slot_of
  slot_of-lt p held s tr v e = rw (← v.size_ar) (lt_of_get_or p.ar s e)

  take_slot_self :
      (s : ℕ) (tr : Transaction C) (p : Pool C)
      → take_slot s tr.tidx (some tr) p ≡ (ok (some tr), set_slot s none p)
  unfolding take_slot
  take_slot_self s tr p = rw ((eq_ℤ_iff tr.tidx tr.tidx).1 refl)

  pub fetch_index-at :
      (p : Pool C) (tidx : ℤ) (s : ℕ)
      → s < p.arsize
      → ref_of p (low_bits p.arsize tidx) ≡ pos s
      → fetch_index tidx p ≡ take_slot s tidx (slot_of p s) p
  unfolding fetch_index
  fetch_index-at p tidx s lt e = simp (e, is_bad_mutex-pos s, low_bits-pos p.arsize s lt)

  fetch_index-stored :
      (p : Pool C) (held : Clients C) (s : ℕ) (tr : Transaction C)
      → Inv p held
      → slot_of p s ≡ some tr
      → fetch_index tr.tidx p ≡ (ok (some tr), set_slot s none p)
  fetch_index-stored p held s tr v e =
      fetch_index-at p tr.tidx s (slot_of-lt p held s tr v e)
        (ap (ref_of p) (sym (v.stored_ref s tr e)) ∙ v.stored_slot s tr e)
      ∙ rw e (take_slot_self s tr p)

  pub fetch_transaction-index :
      (tid : Bytes) (tidx : ℤ) (p : Pool C)
      → transaction_index tid ≡ some tidx
      → fetch_transaction tid p ≡ fetch_index tidx p
  unfolding fetch_transaction
  fetch_transaction-index tid tidx p e = rw (e, fetch_transaction)

  -- In a pool with the invariant, a stored transaction with a non-negative index is fetched by its
  -- id, and its slot is then empty.
  pub fetch_transaction-stored :
      (p : Pool C) (held : Clients C) (s n : ℕ) (tr : Transaction C)
      → Inv p held
      → slot_of p s ≡ some tr
      → tr.tidx ≡ pos n
      → n < 2 ^ 63
      → fetch_transaction (transaction_id tr.tidx) p ≡ (ok (some tr), set_slot s none p)
  fetch_transaction-stored p held s n tr v e i lt =
      fetch_transaction-index _ tr.tidx p (rw i (transaction_index-pos n lt))
      ∙ fetch_index-stored p held s tr v e

  -- A second fetch by the same id finds nothing, and changes nothing.
  pub fetch_transaction_twice :
      (p : Pool C) (held : Clients C) (s n : ℕ) (tr : Transaction C)
      → Inv p held
      → slot_of p s ≡ some tr
      → tr.tidx ≡ pos n
      → n < 2 ^ 63
      → let q = (fetch_transaction (transaction_id tr.tidx) p).1 in
        fetch_transaction (transaction_id tr.tidx) q ≡ (ok none, q)
  unfolding set_slot
  fetch_transaction_twice p held s n tr v e i lt =
      let s_lt = slot_of-lt p held s tr v e in
      let q = set_slot s none p in
      let gone : slot_of q s ≡ none = ground (arith, slot_of-set_slot p s s none, v.size_ar) in
      rw (fetch_transaction-stored p held s n tr v e i lt) (
        fetch_transaction-index _ tr.tidx q (rw i (transaction_index-pos n lt))
        ∙ fetch_index-at q tr.tidx s s_lt (
            ref_of-set_slot p s _ none
            ∙ ap (ref_of p) (sym (v.stored_ref s tr e))
            ∙ v.stored_slot s tr e)
        ∙ rw gone (unfold take_slot in refl))

  -- What a reserved entry gives to the second block of `newTransaction`.
  pub taken-Reserves :
      (held : Clients C) (x : Reserved × Pool C) {cnt : ℕ} {t : ℤ}
      → x.0 ≡ taken cnt t
      → Reserves held x
      → Inv x.1 held
        × IsFree (low_bits x.1.arsize t) x.1 held
        × (ref_of x.1 (low_bits x.1.arsize t) ≡ int_max)
  taken-Reserves held (taken cnt t, p) e v = (
    v.0,
    subst (λ z. IsFree (low_bits p.arsize z) p held) (cc) v.1,
    subst (λ z. ref_of p (low_bits p.arsize z) ≡ int_max) (cc) v.2,
  )
  taken-Reserves held _ e v = cc

  pub slot_of-stored :
      (p : Pool C) (s : ℕ) (tr : Transaction C)
      → s < length p.ar
      → slot_of (set_slot s (some tr) p) s ≡ some tr
  slot_of-stored p s tr h = ground (arith, slot_of-set_slot p s s (some tr))

  pub place-ok :
      (ctype : Bytes) (ctx : C) (idle : ℕ) (tidx : ℤ) (memory : Bool) (p : Pool C) (t : ℤ)
      (q : Pool C)
      → 0 < p.arsize
      → length p.ar ≡ p.arsize
      → length p.refar ≡ p.arsize
      → place ctype ctx idle tidx memory p ≡ (ok t, q)
      → (t ≡ tidx)
        × (s : ℕ) × (slot_of q s
            ≡ some (make_transaction ctype ctx idle tidx (low_bits q.arsize tidx)))
        × (s < q.arsize)
        × (ref_of q (low_bits q.arsize tidx) ≡ pos s)
        × (q.arsize ≡ p.arsize)
  unfolding place ref_of
  place-ok ctype ctx idle tidx memory p t q h len len_ref e =
      let tr = make_transaction ctype ctx idle tidx (low_bits p.arsize tidx) in
      elim (Probe-cases (find_slot p.alloc_nof_tries p.ar p.arsize (first_slot p idle tidx))) [
        | inl (s, found) ↦
            let at_s =
              find_slot-at p.alloc_nof_tries p.ar p.arsize (first_slot p idle tidx) s h found in
            let p1 = set_refar (low_bits p.arsize tidx) (pos s) p in
            let there = slot_of-stored p1 s tr (unfold set_refar in rw len at_s.0) in
            let entry =
              ref_of-set_refar_self p (low_bits p.arsize tidx) (pos s)
                (rw len_ref (low_bits-lt p.arsize tidx h)) in
            elim (Bool-cases memory) [
              | inl m ↦
                  let e' = rw (found, m, place) at e in
                  let after = ap (λ z. z.1) e' in
                  (
                    ground (arith, e'),
                    s,
                    rw (← after) there,
                    rw (← after) at_s.0,
                    rw (← after) entry,
                    rw (← after) refl,
                  )
              | inr m ↦ let e' = rw (found, m, place) at e in ground (arith, e')
            ]
        | inr (inl found) ↦ let e' = rw (found, place) at e in ground (arith, e')
        | inr (inr found) ↦ let e' = rw (found, place) at e in ground (arith, e')
      ]
