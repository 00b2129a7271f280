-- ===== src/Transaction/System/Safety.antt =====
-- Every call of a client keeps the invariant of the pool of transactions
-- (src/webrequest/transaction.cpp).
use strus_bindings.Base.{
  ℕ, ◌≡◌, refl, Bool, true, false, Option, none, some, arith, inl, inr, Bytes,
}
use strus_bindings.Base.Int.{pos, low_bits-lt}
use strus_bindings.Transaction.Pool.{Transaction, Pool, minus_one, find_slot}
use strus_bindings.Transaction.Operations.{
  set_refar, slot_of, ref_of, drop_transaction, first_slot, return_transaction, set_tick,
  set_tickflag, collect_unless, collect_garbage, window, window_size,
}
use strus_bindings.Transaction.Invariant.{
  Clients, update, Inv, ref_of-set_refar_self, set_refar-Inv, store-Inv, release-Inv,
  release-IsFree,
}
use strus_bindings.Transaction.Preservation.{
  Probe-cases, find_slot-at, reset_slots-Inv, create_transaction-Inv, set_refar-IsFree,
}
use strus_bindings.Transaction.System.{
  System, Call, creates, fetches, returns, drops, collects, fetch_as, after_return, return_as,
  drop_as, step, HasEntry, Runs, start, call, SystemInv, fetch_transaction-Inv,
}

module _ {C : Type 0} where
  fetch_as-Inv :
      (c : ℕ) (tid : Bytes) (o : Option (Transaction C)) (s : System C)
      → s.held c ≡ o
      → SystemInv s
      → SystemInv (fetch_as c tid o s)
  unfolding fetch_as
  fetch_as-Inv c tid none s e v = fetch_transaction-Inv tid s.pool s.held c e v
  fetch_as-Inv c tid (some h) s e v = v

  pub return_transaction-Inv :
      (c : ℕ) (h : Transaction C) (s : System C)
      → s.held c ≡ some h
      → SystemInv s
      → SystemInv (after_return c (return_transaction h s.pool) s)
  unfolding return_transaction after_return
  return_transaction-Inv c h s e v =
      let p = s.pool in
      let rest = update s.held c none in
      let first = first_slot p h.max_idle_time h.tidx in
      let f = release-IsFree p s.held c h e v in
      let v' = release-Inv p s.held c v in
      elim (Probe-cases (find_slot p.alloc_nof_tries p.ar p.arsize first)) [
        | inl (i, found) ↦
            let at_i =
              find_slot-at p.alloc_nof_tries p.ar p.arsize first i (omega (arith, v.size)) found in
            let r = v.held_ref c h e in
            let r_lt = low_bits-lt p.arsize h.tidx (omega (arith, v.size)) in
            rw (found, return_transaction)
              (store-Inv (set_refar h.ref (pos i) p) rest i h at_i.0 r
                (ref_of-set_refar_self p h.ref (pos i) (rw (v.size_refar, r) r_lt))
                (set_refar-IsFree p rest h.ref h.ref (pos i) f)
                (set_refar-Inv p rest h.ref (pos i) f v'))
        | inr (inl found) ↦ rw (found, return_transaction) v
        | inr (inr found) ↦ rw (found, return_transaction) v
      ]

  return_as-Inv :
      (c : ℕ) (o : Option (Transaction C)) (s : System C)
      → s.held c ≡ o
      → SystemInv s
      → SystemInv (return_as c o s)
  unfolding return_as
  return_as-Inv c none s e v = v
  return_as-Inv c (some h) s e v = return_transaction-Inv c h s e v

  drop_as-Inv :
      (c : ℕ) (o : Option (Transaction C)) (s : System C)
      → s.held c ≡ o
      → SystemInv s
      → SystemInv (drop_as c o s)
  unfolding drop_as drop_transaction
  drop_as-Inv c none s e v = v
  drop_as-Inv c (some h) s e v =
      set_refar-Inv s.pool (update s.held c none) h.ref minus_one
        (release-IsFree s.pool s.held c h e v) (release-Inv s.pool s.held c v)

  set_tick-Inv :
      (p : Pool C) (held : Clients C) (timecount : ℕ) → Inv p held → Inv (set_tick timecount p) held
  unfolding set_tick slot_of ref_of
  set_tick-Inv p held timecount v = record {
    size = v.size;
    size_ar = v.size_ar;
    size_refar = v.size_refar;
    stored_ref = v.stored_ref;
    stored_slot = v.stored_slot;
    held_ref = v.held_ref;
    held_in_use = v.held_in_use;
    apart = v.apart;
    unique = v.unique;
  }

  set_tickflag-Inv :
      (b : Bool) (p : Pool C) (held : Clients C) → Inv p held → Inv (set_tickflag b p) held
  unfolding set_tickflag slot_of ref_of
  set_tickflag-Inv b p held v = record {
    size = v.size;
    size_ar = v.size_ar;
    size_refar = v.size_refar;
    stored_ref = v.stored_ref;
    stored_slot = v.stored_slot;
    held_ref = v.held_ref;
    held_in_use = v.held_in_use;
    apart = v.apart;
    unique = v.unique;
  }

  collect_unless-Inv :
      (running log_action : Bool) (timecount : ℕ) (p : Pool C) (held : Clients C)
      → Inv p held
      → Inv (collect_unless running log_action timecount p).0 held
  unfolding collect_unless
  collect_unless-Inv true log_action timecount p held v = v
  collect_unless-Inv false log_action timecount p held v = set_tickflag-Inv false _ held (
      reset_slots-Inv (window_size p timecount) (window p p.lasttick) _ held
        (set_tick-Inv _ held timecount (set_tickflag-Inv true p held v)))

  step-Inv : (k : Call C) (s : System C) → HasEntry k s → SystemInv s → SystemInv (step k s)
  unfolding step
  step-Inv (creates ctype ctx max_idle address memory) s h v =
      create_transaction-Inv ctype ctx max_idle address memory s.pool s.held h v
  step-Inv (fetches c tid) s h v = fetch_as-Inv c tid (s.held c) s refl v
  step-Inv (returns c) s h v = return_as-Inv c (s.held c) s refl v
  step-Inv (drops c) s h v = drop_as-Inv c (s.held c) s refl v
  step-Inv (collects log_action timecount) s h v =
      unfold collect_garbage in
      collect_unless-Inv s.pool.tickflag log_action timecount s.pool s.held v

  -- Any run of creates, fetches, returns, drops and garbage collections keeps the invariant, if no
  -- create in it runs out of tries to reserve an entry of `m_refar`: each stored or fetched
  -- transaction owns the entry its index selects, alone, and that of a stored one holds its slot.
  pub Runs-Inv : {s t : System C} → SystemInv s → Runs s t → SystemInv t
  Runs-Inv v start = v
  Runs-Inv v (call {t} r k h) = step-Inv k t h (Runs-Inv v r)
