-- ===== src/Transaction/Lifecycle.antt =====
-- The way of a transaction through the pool: created, fetched, returned and fetched again
-- (src/webrequest/transaction.cpp).
use strus_bindings.Base.{
  ℕ, suc, ◌<◌, ◌^◌, ◌≡◌, refl, sym, ap, ◌∙◌, Bool, none, some, arith, subst, length, ◌⊎◌, inl, inr,
  Bytes,
}
use strus_bindings.Base.Int.{ℤ, pos, low_bits}
use strus_bindings.Base.Result.{Result, ok, err}
use strus_bindings.Transaction.Id.{transaction_id}
use strus_bindings.Transaction.Pool.{
  Error, return_failed, undefined_behaviour, Transaction, Pool, reserve, taken, Reserved, find_slot,
}
use strus_bindings.Transaction.Operations.{
  set_slot, slot_of, fetch_transaction, make_transaction, idle_time, create_transaction,
  new_transaction, place, after_reserve, to_id, first_slot, return_transaction,
}
use strus_bindings.Transaction.Invariant.{Clients, update, Inv, IsFree}
use strus_bindings.Transaction.Preservation.{Probe-cases, find_slot-at, reserve-Reserves, place-Inv}
use strus_bindings.Transaction.Exchange.{
  fetch_transaction-stored, taken-Reserves, place-ok, slot_of-stored,
}
use strus_bindings.Transaction.System.{System, SystemInv, after_return}
use strus_bindings.Transaction.System.Safety.{return_transaction-Inv}

module _ {C : Type 0} where
  pub after_reserve-taken :
      (ctype : Bytes) (ctx : C) (idle : ℕ) (memory : Bool) (x : Reserved × Pool C) {k : ℕ} {t : ℤ}
      → x.0 ≡ taken (suc k) t
      → after_reserve ctype ctx idle memory x ≡ place ctype ctx idle t memory x.1
  unfolding after_reserve
  after_reserve-taken ctype ctx idle memory x e = rw (e, after_reserve)

  pub to_id-ok :
      (x : Result Error ℤ × Pool C) (tid : Bytes) (q : Pool C)
      → to_id x ≡ (ok tid, q)
      → (t : ℤ) × (x ≡ (ok t, q)) × (tid ≡ transaction_id t)
  unfolding to_id
  to_id-ok (ok t, p) tid q e = (t, ground (arith, e), ground (arith, e))
  to_id-ok (err x, p) tid q e = ground (arith, e)

  place-stored :
      (ctype : Bytes) (ctx : C) (idle n : ℕ) (memory : Bool) (p q : Pool C) (held : Clients C)
      (t : ℤ)
      → Inv p held
      → IsFree (low_bits p.arsize (pos n)) p held
      → n < 2 ^ 63
      → place ctype ctx idle (pos n) memory p ≡ (ok t, q)
      → (s : ℕ) × (fetch_transaction (transaction_id t) q ≡ (
        ok (some (make_transaction ctype ctx idle (pos n) (low_bits q.arsize (pos n)))),
        set_slot s none q,
      ))
  place-stored ctype ctx idle n memory p q held t v f lt e =
      let (same, s, there, _, _, _) =
        place-ok ctype ctx idle (pos n) memory p t q (omega (arith, v.size)) v.size_ar v.size_refar
          e in
      let v' = subst (λ z. Inv z.1 held) e (place-Inv ctype ctx idle (pos n) memory p held f v) in
      (s, rw same (fetch_transaction-stored q held s n _ v' there refl lt))

  -- What `createTransaction` has stored under a non-negative index is found again by the id it
  -- returned, with the type, the context and the lifetime that were passed. The premise on the
  -- counter says that the reservation did not need its last two tries.
  pub fetch_transaction-create :
      (ctype : Bytes) (ctx : C) (max_idle : ℤ) (address : ℕ → ℕ) (memory : Bool) (p q : Pool C)
      (held : Clients C) (k n : ℕ) (tid : Bytes)
      → Inv p held
      → (reserve p.alloc_nof_tries address p).0 ≡ taken (suc k) (pos n)
      → n < 2 ^ 63
      → create_transaction ctype ctx max_idle address memory p ≡ (ok tid, q)
      → (s : ℕ) × (fetch_transaction tid q ≡ (
        ok (
            some (
              make_transaction ctype ctx
                (idle_time p.max_idle_time max_idle)
                (pos n)
                (low_bits q.arsize (pos n)))),
        set_slot s none q,
      ))
  unfolding create_transaction new_transaction
  fetch_transaction-create ctype ctx max_idle address memory p q held k n tid v e lt c =
      let x = reserve p.alloc_nof_tries address p in
      let idle = idle_time p.max_idle_time max_idle in
      let (t, placed, named) = to_id-ok _ tid q c in
      let w = taken-Reserves held x e (reserve-Reserves p.alloc_nof_tries address p held v) in
      let placed' = sym (after_reserve-taken ctype ctx idle memory x e) ∙ placed in
      rw named (place-stored ctype ctx idle n memory x.1 q held t w.0 w.1 lt placed')

  return_transaction-ok :
      (h : Transaction C) (p q : Pool C)
      → 0 < p.arsize
      → length p.ar ≡ p.arsize
      → return_transaction h p ≡ (ok tt, q)
      → (s : ℕ) × (slot_of q s ≡ some h)
  unfolding return_transaction
  return_transaction-ok h p q pos_m len e =
      let first = first_slot p h.max_idle_time h.tidx in
      elim (Probe-cases (find_slot p.alloc_nof_tries p.ar p.arsize first)) [
        | inl (s, found) ↦
            let at_s = find_slot-at p.alloc_nof_tries p.ar p.arsize first s pos_m found in
            let e' = rw (found, return_transaction) at e in
            (s, rw (← ap (λ z. z.1) e') (unfold slot_of in slot_of-stored p s h (rw len at_s.0)))
        | inr (inl found) ↦ let e' = rw (found, return_transaction) at e in ground (arith, e')
        | inr (inr found) ↦ let e' = rw (found, return_transaction) at e in ground (arith, e')
      ]

  pub return_transaction-fails :
      (h : Transaction C) (p q : Pool C) (x : Error)
      → return_transaction h p ≡ (err x, q)
      → (x ≡ return_failed) ⊎ (x ≡ undefined_behaviour)
  unfolding return_transaction
  return_transaction-fails h p q x e =
      elim (Probe-cases
        (find_slot p.alloc_nof_tries p.ar p.arsize (first_slot p h.max_idle_time h.tidx))) [
          | inl (s, found) ↦
              let e' = rw (found, return_transaction) at e in absurd (ground (arith, e'))
          | inr (inl found) ↦
              let e' = rw (found, return_transaction) at e in inl (ground (arith, e'))
          | inr (inr found) ↦
              let e' = rw (found, return_transaction) at e in inr (ground (arith, e'))
        ]

  -- A transaction with a non-negative index that a client holds and returns, without an error, is
  -- found again under its id, unchanged.
  pub fetch_transaction-return :
      (s : System C) (c n : ℕ) (h : Transaction C) (q : Pool C)
      → SystemInv s
      → s.held c ≡ some h
      → h.tidx ≡ pos n
      → n < 2 ^ 63
      → return_transaction h s.pool ≡ (ok tt, q)
      → (i : ℕ) × (fetch_transaction (transaction_id h.tidx) q ≡ (ok (some h), set_slot i none q))
  unfolding after_return
  fetch_transaction-return s c n h q v e i lt r =
      let (slot, there) = return_transaction-ok h s.pool q (omega (arith, v.size)) v.size_ar r in
      let v' = subst (λ z. SystemInv (after_return c z s)) r (return_transaction-Inv c h s e v) in
      (slot, fetch_transaction-stored q (update s.held c none) slot n h v' there i lt)
