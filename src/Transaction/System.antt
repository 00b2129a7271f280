-- ===== src/Transaction/System.antt =====
-- The pool of transactions with its clients: each request handler fetches one transaction, returns
-- it after the request, or lets it go (webrequest/transaction.hpp, webrequest/transaction.cpp).
pub mod Safety
use strus_bindings.Base.{
  ℕ, zero, suc, ◌+◌, ◌-◌, ◌%◌, ◌<◌, ◌≤◌, ◌^◌, ◌≡◌, ◌≢◌, refl, sym, ap, ◌∙◌, Bool, true, false,
  Option, none, some, arith, List, [], ◌∷◌, length, ltb, ◌==◌, ◌&&◌, if◌then◌else◌, get_or, set,
  get_or-set, length-set, Bool-cases, Option-cases, ◌⊎◌, inl, inr, Bytes,
}
use strus_bindings.Base.Int.{ℤ, pos, negsuc, low_bits, low_bits-lt, eq_ℤ, eq_ℤ_iff, ◌+ℤ◌}
use strus_bindings.Base.Result.{Result, ok, err}
use strus_bindings.Transaction.Id.{transaction_index}
use strus_bindings.Transaction.Pool.{
  Error, undefined_behaviour, Transaction, Pool, minus_one, is_bad_mutex, exhausted, reserve, at,
  full, no_lock, find_slot,
}
use strus_bindings.Transaction.Operations.{
  set_refar, set_slot, slot_of, ref_of, drop_transaction, reset_slots, first_slot,
  create_transaction, take_slot, fetch_index, fetch_transaction, return_transaction,
  collect_garbage, window, window_size,
}
use strus_bindings.Transaction.Invariant.{
  Clients, update, Inv, IsFree, ref_of-set_refar_self, slot_of-set_refar, ref_of-set_slot,
  set_refar-Inv, empty-Inv, empty-IsFree, store-Inv, hold-Inv, release-Inv, release-IsFree,
}
use strus_bindings.Transaction.Preservation.{
  Probe-cases, find_slot-at, reset_slots-Inv, create_transaction-Inv, set_refar-IsFree,
}

module _ (C : Type 0) where
  pub record System : Type 0 where
    pub pool : Pool C
    pub held : Clients C

  pub data Call : Type 0 where
    creates : Bytes → C → (max_idle : ℤ) → (ℕ → ℕ) → (memory : Bool) → Call
    fetches : (client : ℕ) → (tid : Bytes) → Call
    returns drops : (client : ℕ) → Call
    collects : (log_action : Bool) → (timecount : ℕ) → Call

module _ {C : Type 0} where
  -- What a client gets from a fetch.
  abbrev pub fetched : Result Error (Option (Transaction C)) × Pool C → Option (Transaction C)
  fetched (ok o, p) = o
  fetched (err e, p) = none

  -- A client that holds a transaction fetches no other.
  fetch_as : ℕ → Bytes → Option (Transaction C) → System C → System C
  fetch_as c tid none s =
      let r = fetch_transaction tid s.pool in
      record { pool = r.1; held = update s.held c (fetched r) }
  fetch_as c tid (some h) s = s

  -- A client whose transaction finds no slot goes on holding it.
  unfoldable pub after_return : ℕ → Result Error (Unit {0}) × Pool C → System C → System C
  after_return c (ok u, p) s = record { pool = p; held = update s.held c none }
  after_return c (err e, p) s = record s { pool = p }

  return_as : ℕ → Option (Transaction C) → System C → System C
  unfolding after_return
  return_as c none s = s
  return_as c (some h) s = after_return c (return_transaction h s.pool) s

  drop_as : ℕ → Option (Transaction C) → System C → System C
  drop_as c none s = s
  drop_as c (some h) s = record { pool = drop_transaction h s.pool; held = update s.held c none }

  unfoldable pub step : Call C → System C → System C
  unfolding fetch_as return_as drop_as
  step (creates ctype ctx max_idle address memory) s = record s {
    pool = (create_transaction ctype ctx max_idle address memory s.pool).1;
  }
  step (fetches c tid) s = fetch_as c tid (s.held c) s
  step (returns c) s = return_as c (s.held c) s
  step (drops c) s = drop_as c (s.held c) s
  step (collects log_action timecount) s = record s {
    pool = (collect_garbage log_action timecount s.pool).0;
  }

  -- No call that creates a transaction runs out of tries to reserve an entry of `m_refar`.
  abbrev pub HasEntry : Call C → System C → Type 0
  HasEntry (creates ctype ctx max_idle address memory) s =
      (t : ℤ) → (reserve s.pool.alloc_nof_tries address s.pool).0 ≢ exhausted t
  HasEntry _ s = Unit

  pub data Runs (s : System C) : System C → Type 0 where
    start : Runs s s
    call : {t : System C} → Runs s t → (k : Call C) → HasEntry k t → Runs s (step k t)

  abbrev pub SystemInv : System C → Type 0
  SystemInv s = Inv s.pool s.held

  take_slot-Inv :
      (i : ℕ) (tidx : ℤ) (o : Option (Transaction C)) (p : Pool C) (held : Clients C) (c : ℕ)
      → slot_of p i ≡ o
      → i < p.arsize
      → held c ≡ none
      → Inv p held
      → Inv (take_slot i tidx o p).1 (update held c (fetched (take_slot i tidx o p)))
  unfolding take_slot
  take_slot-Inv i tidx none p held c e lt idle v = release-Inv p held c v
  take_slot-Inv i tidx (some tr) p held c e lt idle v = elim (Bool-cases (eq_ℤ tidx tr.tidx)) [
    | inl same ↦
        rw (same, take_slot)
          (hold-Inv (set_slot i none p) held c tr idle (v.stored_ref i tr e)
            (rw (ref_of-set_slot p i tr.ref none, v.stored_slot i tr e) (λ q. cc))
            (empty-IsFree p held i tr lt e v) (empty-Inv p held i v))
    | inr other ↦ rw (other, take_slot) (release-Inv p held c v)
  ]

  fetch_index-Inv :
      (tidx : ℤ) (p : Pool C) (held : Clients C) (c : ℕ)
      → held c ≡ none
      → Inv p held
      → Inv (fetch_index tidx p).1 (update held c (fetched (fetch_index tidx p)))
  unfolding fetch_index
  fetch_index-Inv tidx p held c idle v =
      let eidx = ref_of p (low_bits p.arsize tidx) in
      elim (Bool-cases (is_bad_mutex eidx)) [
        | inl bad ↦ rw (bad, fetch_index) (release-Inv p held c v)
        | inr good ↦
            rw (good, fetch_index)
              (take_slot-Inv (low_bits p.arsize eidx) tidx _ p held c refl
                (low_bits-lt p.arsize eidx (omega (arith, v.size))) idle v)
      ]

  fetch_transaction-Inv :
      (tid : Bytes) (p : Pool C) (held : Clients C) (c : ℕ)
      → held c ≡ none
      → Inv p held
      → Inv (fetch_transaction tid p).1 (update held c (fetched (fetch_transaction tid p)))
  unfolding fetch_transaction
  fetch_transaction-Inv tid p held c idle v = elim (Option-cases (transaction_index tid)) [
    | inl e ↦ rw (e, fetch_transaction) (release-Inv p held c v)
    | inr (t, e) ↦ rw (e, fetch_transaction) (fetch_index-Inv t p held c idle v)
  ]
