-- ===== src/Transaction/Tests.antt =====
-- Runs of the pool of transactions (src/webrequest/transaction.cpp) on concrete inputs.
use strus_bindings.Base.{
  ℕ, ◌+◌, ◌^◌, ◌≡◌, ◌≢◌, refl, true, none, some, arith, Bytes, codes, if◌then◌else◌,
}
use strus_bindings.Base.Int.{ℤ, pos, negsuc, rem_ℤ, low_bits, eq_ℤ, to_int64, ◌+ℤ◌}
use strus_bindings.Base.Result.{Result, ok, err}
use strus_bindings.Transaction.Construction.{IsFresh, new_pool-IsFresh}
use strus_bindings.Transaction.Exchange.{fetch_transaction-stored}
use strus_bindings.Transaction.Expiry.{collect_keeps}
use strus_bindings.Transaction.Disposal.{fetch_transaction_disposed, collect_early}
use strus_bindings.Transaction.Faults.{
  fetch_transaction_negative, fetch_transaction_unknown, create_transaction_leaks,
  create_transaction_steals,
}
use strus_bindings.Transaction.Garbage.{in_window, slot_of-collect}
use strus_bindings.Transaction.Id.RoundTrip.{transaction_index-pos, transaction_index-negsuc}
use strus_bindings.Transaction.Id.{transaction_id, transaction_index}
use strus_bindings.Transaction.Invariant.{Inv, IsFree}
use strus_bindings.Transaction.Lifecycle.{fetch_transaction-create, fetch_transaction-return}
use strus_bindings.Transaction.Operations.{
  place, create_transaction, new_transaction, idle_time, fetch_transaction, make_transaction,
  set_slot, slot_of, ref_of, return_transaction, collect_garbage, window, window_size, first_slot,
  window_end,
}
use strus_bindings.Transaction.Pool.{
  Error, undefined_behaviour, allocation_failed, Transaction, Pool, empty_pool, new_pool, grow,
  reserve, attempt, retry, last_try, try_reserve, next_rand, taken, exhausted, int_max, minus_one,
  candidate,
}
use strus_bindings.Transaction.Preservation.{unused_entry, place-Inv}
use strus_bindings.Transaction.System.Safety.{Runs-Inv}
use strus_bindings.Transaction.System.{System, SystemInv, creates, fetches, step, Runs, start, call}
use strus_bindings.Transaction.Sample.{
  free, nobody, addresses, pool, pool-Inv, index, reserved, stored, stored-Inv, transaction,
  fetching, fetching-Inv, fetching_holds,
}

ids : transaction_id (pos 0x123456789abcdef0) ≡ codes "123456789abcdef0"
unfolding transaction_id
ids = refl

ids_read : transaction_index (codes "00000000 0x1f") ≡ some (pos 31)
unfolding transaction_index to_int64
ids_read = refl

new : new_pool 100 (pos 8) (pos 0) true ≡ ok pool
unfolding new_pool
new = refl

-- 100 % 63 + 8 = 45
stored_at : slot_of stored 45 ≡ some transaction
unfolding place empty_pool grow low_bits to_int64 eq_ℤ slot_of ◌+ℤ◌
stored_at = refl

id_31_read : transaction_index (transaction_id (pos 31)) ≡ some (pos 31)
id_31_read = transaction_index-pos 31 (omega arith)

transaction_index-negsuc_example :
    transaction_index (transaction_id (negsuc 4)) ≡ some (negsuc 4 +ℤ pos (2 ^ 32))
transaction_index-negsuc_example = transaction_index-negsuc 4 (omega arith) (omega arith)

new_pool-IsFresh_example : IsFresh pool
new_pool-IsFresh_example = new_pool-IsFresh 100 (pos 8) (pos 0) true pool new

abbrev system : System ℕ
system = record { pool = pool; held = nobody }

has_entry : (t : ℤ) → (reserve pool.alloc_nof_tries addresses pool).0 ≢ exhausted t
has_entry t e = cc (reserved, e)

abbrev run : Runs system (
    step
      (fetches 3 (codes "0000000000000005"))
      (step (creates (codes "search") 7 (pos 8) addresses true) system))
run =
    call (call start (creates (codes "search") 7 (pos 8) addresses true) has_entry)
      (fetches 3 (codes "0000000000000005")) tt

Runs-Inv_example : SystemInv (
    step
      (fetches 3 (codes "0000000000000005"))
      (step (creates (codes "search") 7 (pos 8) addresses true) system))
Runs-Inv_example = Runs-Inv pool-Inv run

fetch_transaction-stored_example :
    fetch_transaction (transaction_id transaction.tidx) stored
    ≡ (ok (some transaction), set_slot 45 none stored)
fetch_transaction-stored_example =
    fetch_transaction-stored stored nobody 45 5 transaction stored-Inv stored_at refl (omega arith)

abbrev created : Result Error Bytes × Pool ℕ
created = create_transaction (codes "search") 7 (pos 8) addresses true pool

created_id : created ≡ (ok (codes "2f45e5651f9b7a4c"), created.1)
unfolding create_transaction new_transaction reserve attempt retry last_try try_reserve next_rand
    grow rem_ℤ low_bits eq_ℤ to_int64 empty_pool place ◌+ℤ◌ transaction_id
created_id = refl

fetch_transaction-create_example :
    (s : ℕ) × (fetch_transaction (codes "2f45e5651f9b7a4c") created.1 ≡ (
      ok (
          some (
            make_transaction
              (codes "search")
              7
              (idle_time pool.max_idle_time (pos 8))
              (pos index)
              (low_bits created.1.arsize (pos index)))),
      set_slot s none created.1,
    ))
unfolding empty_pool
fetch_transaction-create_example =
    fetch_transaction-create (codes "search") 7 (pos 8) addresses true pool created.1 nobody 7 index
      (codes "2f45e5651f9b7a4c") pool-Inv reserved (omega arith) created_id

abbrev returned : Pool ℕ
returned = (return_transaction transaction fetching.pool).1

returned_there : return_transaction transaction fetching.pool ≡ (ok tt, returned)
unfolding step place empty_pool grow low_bits to_int64 eq_ℤ rem_ℤ ◌+ℤ◌ fetch_transaction
    transaction_index return_transaction
returned_there = refl

fetch_transaction-return_example :
    (i : ℕ) × (fetch_transaction (transaction_id transaction.tidx) returned
      ≡ (ok (some transaction), set_slot i none returned))
fetch_transaction-return_example =
    fetch_transaction-return fetching 0 5 transaction returned fetching-Inv fetching_holds refl
      (omega arith) returned_there

fetch_transaction_negative_example :
    (fetch_transaction (transaction_id (negsuc 63)) stored).0
    ≢ ok (some (record transaction { tidx = negsuc 63 }))
fetch_transaction_negative_example =
    fetch_transaction_negative stored 63 (record transaction { tidx = negsuc 63 }) refl
      (omega arith) (omega arith)

unused : ref_of stored (low_bits stored.arsize (pos 31)) ≡ minus_one
unfolding place empty_pool grow low_bits to_int64 eq_ℤ rem_ℤ ◌+ℤ◌ ref_of
unused = refl

fetch_transaction_unknown_example :
    fetch_transaction (transaction_id (pos 31)) stored ≡ (err undefined_behaviour, stored)
fetch_transaction_unknown_example =
    fetch_transaction_unknown stored (transaction_id (pos 31)) (pos 31) id_31_read unused

emptied : slot_of (collect_garbage true 109 stored).0 45 ≡ none
unfolding place empty_pool grow low_bits to_int64 eq_ℤ rem_ℤ ◌+ℤ◌ slot_of collect_garbage window
    window_size window_end
emptied = refl

fetch_transaction_disposed_example :
    let q = (collect_garbage true 109 stored).0 in
    fetch_transaction (transaction_id transaction.tidx) q ≡ (err undefined_behaviour, q)
fetch_transaction_disposed_example =
    fetch_transaction_disposed true 109 stored nobody 45 5 transaction stored-Inv stored_at refl
      (omega arith) emptied

-- A pool that has no second try.
abbrev with_tries : ℕ → Pool ℕ → Pool ℕ
with_tries n p = record p { alloc_nof_tries = n }

with_tries-Inv : (n : ℕ) (p : Pool ℕ) → Inv p nobody → Inv (with_tries n p) nobody
unfolding slot_of ref_of
with_tries-Inv n p v = record {
  size = v.size;
  size_ar = v.size_ar;
  size_refar = v.size_refar;
  stored_ref = v.stored_ref;
  stored_slot = v.stored_slot;
  held_ref = v.held_ref;
  held_in_use = v.held_in_use;
  apart = v.apart;
  unique = v.unique;
}

abbrev last_addresses : ℕ → ℕ
last_addresses n = 140000003 + n

-- its low bits are 7
abbrev last_index : ℕ
last_index = 3406380915660388935

reserved_last : (reserve 0 last_addresses (with_tries 0 pool)).0 ≡ taken 0 (pos last_index)
unfolding reserve attempt retry last_try try_reserve next_rand grow rem_ℤ low_bits eq_ℤ to_int64
    empty_pool
reserved_last = refl

create_transaction_leaks_example :
    let (r, q) =
      create_transaction (codes "search") 7 (pos 8) last_addresses true (with_tries 0 pool) in
    (r ≡ err allocation_failed)
    × (ref_of q (low_bits q.arsize (pos last_index)) ≡ int_max)
    × IsFree (low_bits q.arsize (pos last_index)) q nobody
create_transaction_leaks_example =
    create_transaction_leaks (codes "search") 7 (pos 8) last_addresses true (with_tries 0 pool)
      nobody (pos last_index) (with_tries-Inv 0 pool pool-Inv) reserved_last

free7 : IsFree (low_bits pool.arsize (pos 7)) pool nobody
unfolding ref_of low_bits empty_pool grow
free7 = unused_entry pool nobody (low_bits pool.arsize (pos 7)) pool-Inv refl

abbrev occupied7 : Pool ℕ
occupied7 = with_tries 0 (place (codes "search") 7 8 (pos 7) true pool).1

occupied7-Inv : Inv occupied7 nobody
occupied7-Inv =
    with_tries-Inv 0 _ (place-Inv (codes "search") 7 8 (pos 7) true pool nobody free7 pool-Inv)

abbrev tried : Pool ℕ
tried = (reserve 0 last_addresses occupied7).1

exhausted_last : reserve 0 last_addresses occupied7 ≡ (exhausted (pos last_index), tried)
unfolding reserve attempt retry last_try try_reserve next_rand grow rem_ℤ low_bits eq_ℤ to_int64
    empty_pool place ◌+ℤ◌
exhausted_last = refl

abbrev robbed : Transaction ℕ
robbed = make_transaction (codes "search") 7 8 (pos 7) 7

abbrev stealing : Result Error Bytes × Pool ℕ
stealing = create_transaction (codes "other") 9 (pos 3) last_addresses true occupied7

create_transaction_steals_example :
    (fetch_transaction (transaction_id (pos 7)) stealing.1).0 ≡ ok none
unfolding reserve attempt retry last_try try_reserve next_rand grow rem_ℤ low_bits eq_ℤ to_int64
    empty_pool place ◌+ℤ◌ slot_of create_transaction new_transaction
create_transaction_steals_example =
    create_transaction_steals (codes "other") 9 (pos 3) last_addresses true occupied7 tried
      stealing.1 nobody 45 7 (pos last_index) robbed (transaction_id (pos last_index)) occupied7-Inv
      exhausted_last refl refl (λ e. cc) refl (omega arith) refl

slot_of-collect_example : slot_of (collect_garbage true 103 pool).0 45 ≡ (
    if in_window pool.arsize (window pool pool.lasttick) (window_size pool 103) 45
    then none
    else slot_of pool 45)
unfolding empty_pool grow
slot_of-collect_example =
    slot_of-collect true 103 pool 45 refl (omega arith) pool-Inv.size_ar (omega arith)

collect_keeps_example : slot_of (collect_garbage true 108 stored).0 45 ≡ slot_of stored 45
unfolding empty_pool grow place low_bits to_int64 eq_ℤ rem_ℤ ◌+ℤ◌ candidate
collect_keeps_example =
    collect_keeps true stored 8 8 0 refl (omega arith) stored-Inv.size_ar (omega arith)
      (omega arith) (omega arith)

-- A transaction with the lifetime 63 in a pool of 64 slots.
-- a transaction with the longest lifetime of a pool of 63 places
abbrev longest : Pool ℕ
longest = (place (codes "search") 7 63 (pos 5) true pool).1

longest-Inv : Inv longest nobody
longest-Inv = place-Inv (codes "search") 7 63 (pos 5) true pool nobody free pool-Inv

abbrev long_lived : Transaction ℕ
long_lived = make_transaction (codes "search") 7 63 (pos 5) 5

longest_at :
    slot_of longest (low_bits longest.arsize (first_slot longest 63 (pos 5))) ≡ some long_lived
unfolding place empty_pool grow low_bits to_int64 eq_ℤ rem_ℤ ◌+ℤ◌ slot_of first_slot
longest_at = refl

collect_early_example :
    let q = (collect_garbage true 101 longest).0 in
    (slot_of q (low_bits longest.arsize (first_slot longest 63 (pos 5))) ≡ none)
    × (fetch_transaction (transaction_id (pos 5)) q ≡ (err undefined_behaviour, q))
unfolding place empty_pool grow low_bits to_int64 eq_ℤ rem_ℤ ◌+ℤ◌
collect_early_example =
    collect_early true longest nobody 5 long_lived longest-Inv refl (omega arith) refl (omega arith)
      (omega arith) refl (omega arith) longest_at
