-- ===== src/Transaction/Sample.antt =====
-- A pool of transactions (src/webrequest/transaction.cpp) with one that is stored, and one that a
-- client holds.
use strus_bindings.Base.{ℕ, ◌+◌, ◌≡◌, refl, true, none, some, codes}
use strus_bindings.Base.Int.{pos, rem_ℤ, low_bits, eq_ℤ, to_int64, ◌+ℤ◌}
use strus_bindings.Transaction.Construction.{empty_pool-Inv}
use strus_bindings.Transaction.Id.{transaction_index}
use strus_bindings.Transaction.Invariant.{Clients, Inv, IsFree}
use strus_bindings.Transaction.Operations.{place, fetch_transaction, make_transaction, ref_of}
use strus_bindings.Transaction.Pool.{
  Transaction, Pool, empty_pool, grow, reserve, attempt, retry, last_try, try_reserve, next_rand,
  taken,
}
use strus_bindings.Transaction.Preservation.{unused_entry, place-Inv}
use strus_bindings.Transaction.System.Safety.{Runs-Inv}
use strus_bindings.Transaction.System.{System, SystemInv, fetches, step, start, call}

abbrev pub nobody : Clients ℕ
nobody c = none

abbrev pub addresses : ℕ → ℕ
addresses n = 140000000 + n

abbrev pub pool : Pool ℕ
pool = empty_pool 100 8 1

pub pool-Inv : Inv pool nobody
pool-Inv = empty_pool-Inv 100 8 1

-- the index of the first try
abbrev pub index : ℕ
index = 3406380915660388940

pub reserved : (reserve pool.alloc_nof_tries addresses pool).0 ≡ taken 8 (pos index)
unfolding reserve attempt retry last_try try_reserve next_rand grow rem_ℤ low_bits eq_ℤ to_int64
    empty_pool
reserved = refl

abbrev pub stored : Pool ℕ
stored = (place (codes "search") 7 8 (pos 5) true pool).1

pub free : IsFree (low_bits pool.arsize (pos 5)) pool nobody
unfolding ref_of low_bits empty_pool grow
free = unused_entry pool nobody (low_bits pool.arsize (pos 5)) pool-Inv refl

pub stored-Inv : Inv stored nobody
stored-Inv = place-Inv (codes "search") 7 8 (pos 5) true pool nobody free pool-Inv

abbrev pub transaction : Transaction ℕ
transaction = make_transaction (codes "search") 7 8 (pos 5) 5

abbrev pub fetching : System ℕ
fetching = step (fetches 0 (codes "0000000000000005")) (record { pool = stored; held = nobody })

pub fetching-Inv : SystemInv fetching
fetching-Inv = Runs-Inv stored-Inv (call start (fetches 0 (codes "0000000000000005")) tt)

pub fetching_holds : fetching.held 0 ≡ some transaction
unfolding step place empty_pool grow low_bits to_int64 eq_ℤ rem_ℤ ◌+ℤ◌ fetch_transaction
    transaction_index
fetching_holds = refl
