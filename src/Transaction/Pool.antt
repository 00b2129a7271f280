-- ===== src/Transaction/Pool.antt =====
-- The pool of transactions: class Transaction and class TransactionPool of
-- src/webrequest/transaction.hpp and src/webrequest/transaction.cpp. An operation is one atomic
-- step. A transaction has one owner, a slot of the pool or a client, so that the last reference to
-- it goes away when the slot is reset or the client drops it. What C++ leaves undefined here, an
-- index below the mutex array or an overflow of `int`, is the error `undefined_behaviour`.
use Prim.Native.Nat.{bit_xor}
use strus_bindings.Base.{
  ℕ, zero, suc, ◌+◌, ◌-◌, ◌*◌, ◌/◌, ◌%◌, ◌^◌, Bool, true, false, not, Option, none, some, List, ltb,
  leb, if◌then◌else◌, Bytes, get_or, set, replicate,
}
use strus_bindings.Base.Int.{ℤ, pos, negsuc, to_int64, rem_ℤ, low_bits, eq_ℤ, ◌+ℤ◌}
use strus_bindings.Base.Result.{Result, ok, err}

pub data Error : Type 0 where
  max_per_second max_duration out_of_memory allocation_failed slot_failed return_failed : Error
  illegal_id undefined_behaviour : Error

-- `ref` is the index in `refar` that `m_ref` points to.
pub record Transaction (C : Type 0) : Type 0 where
  pub context_type : Bytes
  pub context : C
  pub ref : ℕ
  pub max_idle_time : ℕ
  pub tidx : ℤ

-- `lasttick` and `rand_seed` are the words of 64 bits of an `int64_t`.
pub record Pool (C : Type 0) : Type 0 where
  pub ar : List (Option (Transaction C))
  pub refar : List ℤ
  pub arsize : ℕ
  pub lasttick : ℕ
  pub max_idle_time : ℕ
  pub nof_per_slot : ℕ
  pub alloc_nof_tries : ℕ
  pub rand_seed : ℕ
  pub tickflag : Bool

-- `std::numeric_limits<int>::max()`
abbrev pub int_max : ℤ
int_max = pos (2 ^ 31 - 1)

abbrev pub minus_one : ℤ
minus_one = negsuc 0

abbrev pub nof_mutex : ℕ
nof_mutex = 64

-- an index of `m_mutex_refar` or `m_mutex_ar` below the array
unfoldable pub is_bad_mutex : ℤ → Bool
unfolding rem_ℤ
is_bad_mutex x = elim (rem_ℤ x nof_mutex) [ pos n ↦ false | negsuc n ↦ true ]

-- while (m_arsize < min_arsize) m_arsize *= 2;
unfoldable pub grow : (fuel arsize min_arsize : ℕ) → ℕ
grow zero arsize min_arsize = arsize
grow (suc fuel) arsize min_arsize =
    let more = grow fuel (arsize * 2) min_arsize in if ltb arsize min_arsize then more else arsize

abbrev pub or_default : ℤ → ℕ → ℤ
or_default (pos zero) d = pos d
or_default (pos (suc n)) d = pos (suc n)
or_default (negsuc n) d = negsuc n

-- `0 <= x < limit`
unfoldable pub in_limit : ℤ → ℕ → Bool
in_limit (pos n) limit = ltb n limit
in_limit (negsuc n) limit = false

abbrev pub magnitude : ℤ → ℕ
magnitude (pos n) = n
magnitude (negsuc n) = 0

module _ {C : Type 0} where
  unfoldable pub empty_pool : (timecount max_idle nof : ℕ) → Pool C
  empty_pool timecount max_idle nof =
      let arsize = grow 32 64 (max_idle * nof) in
      record {
        ar = replicate arsize none;
        refar = replicate arsize minus_one;
        arsize = arsize;
        lasttick = timecount;
        max_idle_time = max_idle;
        nof_per_slot = nof;
        alloc_nof_tries = nof * 8;
        rand_seed = timecount;
        tickflag = false;
      }

  -- the constructor; `memory` tells whether `malloc` finds memory for `m_refar`
  unfoldable pub new_pool :
      (timecount : ℕ) → (max_idle nof : ℤ) → (memory : Bool) → Result Error (Pool C)
  unfolding in_limit
  new_pool timecount max_idle nof memory =
      let idle = or_default max_idle 8 in
      let per_slot = or_default nof 1 in
      if not (in_limit per_slot (2 ^ 20))
      then err max_per_second
      else if not (in_limit idle (2 ^ 20))
      then err max_duration
      else if leb (2 ^ 31) (magnitude idle * magnitude per_slot)
      then err undefined_behaviour
      else if memory
      then ok (empty_pool timecount (magnitude idle) (magnitude per_slot))
      else err out_of_memory

-- `x >> k` on an `int64_t`, which repeats the sign
shift_right : ℕ → ℕ → ℕ
shift_right w k = if ltb w (2 ^ 63) then w / 2 ^ k else (w + (2 ^ k - 1) * 2 ^ 64) / 2 ^ k

-- the scrambling of `nextRand` (splitmix64 on signed words)
scramble : ℕ → ℕ
unfolding shift_right
scramble w =
    let w1 = bit_xor w (shift_right w 30) * 0xbf58476d1ce4e5b9 % 2 ^ 64 in
    let w2 = bit_xor w1 (shift_right w1 27) * 0x94d049bb133111eb % 2 ^ 64 in
    bit_xor w2 (shift_right w2 31)

pub data Attempt : Type 0 where
  free occupied : ℤ → Attempt
  outside : Attempt

pub data Reserved : Type 0 where
  taken : (cnt : ℕ) → (tidx : ℤ) → Reserved
  exhausted : (tidx : ℤ) → Reserved
  no_mutex : Reserved

pub data Probe : Type 0 where
  at : (slot : ℕ) → Probe
  full no_lock : Probe

module _ {C : Type 0} where
  -- `address` is that of the local variable `rnd`, which the result is mixed with
  unfoldable pub next_rand : (address : ℕ) → Pool C → ℤ × Pool C
  unfolding scramble
  next_rand address p =
      let seed = scramble ((p.lasttick + p.rand_seed + 0x9e3779b97f4a7c15) % 2 ^ 64) in
      (to_int64 (bit_xor seed address), record p { rand_seed = seed })

  unfoldable pub candidate : Pool C → (max_idle : ℕ) → ℕ
  candidate p max_idle =
      (p.lasttick % (p.arsize - 1) + max_idle) * p.nof_per_slot % 2 ^ 64 % (p.arsize - 1)

  -- one round of the first loop of `newTransaction`
  unfoldable pub try_reserve : ℤ → Pool C → Attempt × Pool C
  unfolding is_bad_mutex
  try_reserve tidx p =
      let r = low_bits p.arsize tidx in
      if is_bad_mutex tidx
      then (outside, p)
      else if eq_ℤ (get_or p.refar r minus_one) minus_one
      then (free tidx, record p { refar = set p.refar r int_max })
      else (occupied tidx, p)

  -- the body of the first loop: a random index, tried under its mutex
  unfoldable pub attempt : (address : ℕ) → Pool C → Attempt × Pool C
  attempt address p = let (tidx, p1) = next_rand address p in try_reserve tidx p1

  unfoldable pub last_try : Attempt × Pool C → Reserved × Pool C
  last_try (free t, p) = (taken 0 t, p)
  last_try (occupied t, p) = (exhausted t, p)
  last_try (outside, p) = (no_mutex, p)

  unfoldable pub retry :
      (cnt : ℕ) → (Pool C → Reserved × Pool C) → Attempt × Pool C → Reserved × Pool C
  retry cnt again (free t, p) = (taken (suc cnt) t, p)
  retry cnt again (occupied t, p) = again p
  retry cnt again (outside, p) = (no_mutex, p)

  -- the first loop of `newTransaction`, from the counter `cnt`; the addresses are those of
  -- `rnd` in each call of `nextRand`
  unfoldable pub reserve : (cnt : ℕ) → (ℕ → ℕ) → Pool C → Reserved × Pool C
  reserve zero address p = last_try (attempt (address 0) p)
  reserve (suc cnt) address p = retry cnt (reserve cnt address) (attempt (address (suc cnt)) p)

  -- the loop over the slots in `newTransaction` and `returnTransaction`
  unfoldable pub find_slot :
      (cnt : ℕ) → List (Option (Transaction C)) → (arsize : ℕ) → (eidx : ℤ) → Probe
  unfolding is_bad_mutex
  find_slot zero slots arsize eidx =
      let s = low_bits arsize eidx in
      if is_bad_mutex eidx
      then no_lock
      else elim (get_or slots s none) [ none ↦ at s | some tr ↦ full ]
  find_slot (suc cnt) slots arsize eidx =
      let s = low_bits arsize eidx in
      let rest = find_slot cnt slots arsize (eidx +ℤ pos 1) in
      if is_bad_mutex eidx
      then no_lock
      else elim (get_or slots s none) [ none ↦ at s | some tr ↦ rest ]
