-- ===== src/Transaction/Operations.antt =====
-- The operations of class TransactionPool and the destructor of class Transaction
-- (src/webrequest/transaction.hpp, src/webrequest/transaction.cpp). Each returns what the call
-- returns or throws, and the pool after it, also after an exception.
use strus_bindings.Base.{
  ℕ, zero, suc, ◌+◌, ◌-◌, ◌*◌, ◌%◌, Bool, true, false, Option, none, some, List, [], ◌∷◌, ltb,
  if◌then◌else◌, Bytes, get_or, set,
}
use strus_bindings.Base.Int.{ℤ, pos, negsuc, rem_ℤ, low_bits, eq_ℤ, ◌+ℤ◌}
use strus_bindings.Base.Result.{Result, ok, err}
use strus_bindings.Transaction.Id.{transaction_id, transaction_index}
use strus_bindings.Transaction.Pool.{
  Error, out_of_memory, allocation_failed, slot_failed, return_failed, illegal_id,
  undefined_behaviour, Transaction, Pool, minus_one, is_bad_mutex, candidate, Reserved, taken,
  exhausted, no_mutex, reserve, at, full, no_lock, find_slot,
}

-- the lifetime asked for, or that of the pool where it is not in the range of the pool
unfoldable pub idle_time : (max_idle : ℕ) → ℤ → ℕ
idle_time max_idle (pos zero) = max_idle
idle_time max_idle (pos (suc n)) = if ltb max_idle (suc n) then max_idle else suc n
idle_time max_idle (negsuc n) = max_idle

module _ {C : Type 0} where
  unfoldable pub set_refar : ℕ → ℤ → Pool C → Pool C
  set_refar r x p = record p { refar = set p.refar r x }

  unfoldable pub set_slot : ℕ → Option (Transaction C) → Pool C → Pool C
  set_slot s o p = record p { ar = set p.ar s o }

  unfoldable pub slot_of : Pool C → ℕ → Option (Transaction C)
  slot_of p s = get_or p.ar s none

  unfoldable pub ref_of : Pool C → ℕ → ℤ
  ref_of p r = get_or p.refar r minus_one

  -- the slot that the probing of `newTransaction` and of `returnTransaction` begins with
  unfoldable pub first_slot : Pool C → (max_idle : ℕ) → (tidx : ℤ) → ℤ
  unfolding candidate rem_ℤ
  first_slot p max_idle tidx = pos (candidate p max_idle) +ℤ rem_ℤ tidx p.nof_per_slot

  abbrev pub make_transaction : Bytes → C → (idle : ℕ) → (tidx : ℤ) → (ref : ℕ) → Transaction C
  make_transaction ctype ctx idle tidx ref = record {
    context_type = ctype;
    context = ctx;
    ref = ref;
    max_idle_time = idle;
    tidx = tidx;
  }

  -- the second block of `newTransaction`; `memory` tells whether the allocations succeed
  unfoldable pub place : Bytes → C → ℕ → ℤ → (memory : Bool) → Pool C → Result Error ℤ × Pool C
  unfolding find_slot first_slot set_refar set_slot
  place ctype ctx idle tidx memory p =
      let r = low_bits p.arsize tidx in
      let tr = make_transaction ctype ctx idle tidx r in
      elim (find_slot p.alloc_nof_tries p.ar p.arsize (first_slot p idle tidx)) [
        | at s ↦
            if memory
            then (ok tidx, set_slot s (some tr) (set_refar r (pos s) p))
            else (err out_of_memory, set_refar r minus_one p)
        | full ↦ (err slot_failed, set_refar r minus_one p)
        | no_lock ↦ (err undefined_behaviour, p)
      ]

  -- what follows the first loop of `newTransaction`: a counter of 0 is taken for a failure
  unfoldable pub after_reserve :
      Bytes → C → ℕ → (memory : Bool) → Reserved × Pool C → Result Error ℤ × Pool C
  unfolding place
  after_reserve ctype ctx idle memory (taken zero tidx, p) = (err allocation_failed, p)
  after_reserve ctype ctx idle memory (taken (suc cnt) tidx, p) = place ctype ctx idle tidx memory p
  after_reserve ctype ctx idle memory (exhausted tidx, p) = place ctype ctx idle tidx memory p
  after_reserve ctype ctx idle memory (no_mutex, p) = (err undefined_behaviour, p)

  unfoldable pub new_transaction :
      Bytes → C → (max_idle : ℤ) → (ℕ → ℕ) → (memory : Bool) → Pool C → Result Error ℤ × Pool C
  unfolding after_reserve idle_time
  new_transaction ctype ctx max_idle address memory p =
      after_reserve ctype ctx (idle_time p.max_idle_time max_idle) memory
        (reserve p.alloc_nof_tries address p)

  unfoldable pub to_id : Result Error ℤ × Pool C → Result Error Bytes × Pool C
  to_id (ok tidx, p) = (ok (transaction_id tidx), p)
  to_id (err e, p) = (err e, p)

  unfoldable pub create_transaction :
      Bytes → C → (max_idle : ℤ) → (ℕ → ℕ) → (memory : Bool) → Pool C → Result Error Bytes × Pool C
  unfolding new_transaction to_id
  create_transaction ctype ctx max_idle address memory p =
      to_id (new_transaction ctype ctx max_idle address memory p)

  -- the transaction in the slot, if it has the index asked for
  unfoldable pub take_slot :
      ℕ → ℤ → Option (Transaction C) → Pool C → Result Error (Option (Transaction C)) × Pool C
  unfolding set_slot
  take_slot s tidx none p = (ok none, p)
  take_slot s tidx (some tr) p =
      if eq_ℤ tidx tr.tidx then (ok (some tr), set_slot s none p) else (ok none, p)

  -- `fetchTransaction` from the scanned index on
  unfoldable pub fetch_index : ℤ → Pool C → Result Error (Option (Transaction C)) × Pool C
  unfolding take_slot slot_of ref_of
  fetch_index tidx p =
      let eidx = ref_of p (low_bits p.arsize tidx) in
      let s = low_bits p.arsize eidx in
      if is_bad_mutex eidx then (err undefined_behaviour, p) else take_slot s tidx (slot_of p s) p

  unfoldable pub fetch_transaction : Bytes → Pool C → Result Error (Option (Transaction C)) × Pool C
  unfolding fetch_index
  fetch_transaction tid p = elim (transaction_index tid) [
    | none ↦ (err illegal_id, p)
    | some tidx ↦ fetch_index tidx p
  ]

  unfoldable pub return_transaction : Transaction C → Pool C → Result Error (Unit {0}) × Pool C
  unfolding find_slot first_slot set_refar set_slot
  return_transaction tr p =
      elim (find_slot p.alloc_nof_tries p.ar p.arsize (first_slot p tr.max_idle_time tr.tidx)) [
        | at s ↦ (ok tt, set_refar tr.ref (pos s) (set_slot s (some tr) p))
        | full ↦ (err return_failed, p)
        | no_lock ↦ (err undefined_behaviour, p)
      ]

  -- the destructor of a transaction
  unfoldable pub drop_transaction : Transaction C → Pool C → Pool C
  unfolding set_refar
  drop_transaction tr p = set_refar tr.ref minus_one p

  -- `m_ar[ aridx].reset()`
  unfoldable pub reset_slot : ℕ → Pool C → Pool C
  unfolding drop_transaction slot_of set_slot
  reset_slot s p = elim (slot_of p s) [
    | none ↦ p
    | some tr ↦ drop_transaction tr (set_slot s none p)
  ]

  -- the loop of `collectGarbage` over `count` slots
  unfoldable pub reset_slots : (count start : ℕ) → Pool C → Pool C
  unfolding reset_slot
  reset_slots zero start p = p
  reset_slots (suc count) start p = reset_slots count (suc start) (reset_slot (start % p.arsize) p)

  -- the first slot of the window that ends with the tick, `arstart` and `arend` of the source
  unfoldable pub window : Pool C → (tick : ℕ) → ℕ
  window p tick = tick % (p.arsize - 1) * p.nof_per_slot % (p.arsize - 1)

  unfoldable pub window_end : Pool C → (start stop : ℕ) → ℕ
  window_end p start stop = if ltb stop start then stop + p.arsize else stop

  -- the number of slots in the window from the last tick to `timecount`
  unfoldable pub window_size : Pool C → (timecount : ℕ) → ℕ
  unfolding window window_end
  window_size p timecount =
      window_end p (window p p.lasttick) (window p timecount) - window p p.lasttick

  -- the ids that the first loop logs
  unfoldable pub disposed : (count start : ℕ) → Pool C → List Bytes
  unfolding slot_of
  disposed zero start p = []
  disposed (suc count) start p =
      let rest = disposed count (suc start) p in
      elim (slot_of p (start % p.arsize)) [ none ↦ rest | some tr ↦ transaction_id tr.tidx ∷ rest ]

  unfoldable pub set_tickflag : Bool → Pool C → Pool C
  set_tickflag b p = record p { tickflag = b }

  unfoldable pub set_tick : ℕ → Pool C → Pool C
  set_tick timecount p = record p { lasttick = timecount }

  -- `collectGarbage`, where the flag tells whether another call is running
  unfoldable pub collect_unless :
      (running log_action : Bool) → (timecount : ℕ) → Pool C → Pool C × List Bytes
  unfolding reset_slots window_size disposed set_tickflag set_tick
  collect_unless true log_action timecount p = (p, [])
  collect_unless false log_action timecount p =
      let start = window p p.lasttick in
      let count = window_size p timecount in
      let ticked = set_tick timecount (set_tickflag true p) in
      (
        set_tickflag false (reset_slots count start ticked),
        if log_action then disposed count start ticked else [],
      )

  -- `log_action` tells whether the logger wants actions. The second part of the result is what it
  -- logs.
  unfoldable pub collect_garbage :
      (log_action : Bool) → (timecount : ℕ) → Pool C → Pool C × List Bytes
  unfolding collect_unless
  collect_garbage log_action timecount p = collect_unless p.tickflag log_action timecount p
