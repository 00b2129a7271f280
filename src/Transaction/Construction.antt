-- ===== src/Transaction/Construction.antt =====
-- The constructor of class TransactionPool (src/webrequest/transaction.cpp).
use strus_bindings.Base.{
  ℕ, zero, suc, ◌*◌, ◌<◌, ◌≤◌, ◌^◌, ◌≡◌, ap, ◌∙◌, Bool, Option, none, arith, ltb, get_or-replicate,
  length-replicate, Bool-cases, inl, inr,
}
use native.Mathlib.Nat.{pow-suc, one-le-pow}
use strus_bindings.Base.Int.{ℤ, pos, negsuc}
use strus_bindings.Base.Result.{ok}
use strus_bindings.Transaction.Pool.{
  Transaction, Pool, minus_one, grow, or_default, magnitude, empty_pool, new_pool,
}
use strus_bindings.Transaction.Operations.{slot_of, ref_of}
use strus_bindings.Transaction.Invariant.{Inv}

grow_pow : (f a m : ℕ) → (k : ℕ) × (grow f a m ≡ a * 2 ^ k)
unfolding grow
grow_pow zero a m = (0, omega arith)
grow_pow (suc f) a m = elim (Bool-cases (ltb a m)) [
  | inl more ↦ let (k, e) = grow_pow f (a * 2) m in (suc k, rw more (e ∙ grind arith))
  | inr done ↦ (0, rw done (omega arith))
]

le-grow : (f a m : ℕ) → m ≤ a * 2 ^ f → m ≤ grow f a m
unfolding grow
le-grow zero a m h = ground arith
le-grow (suc f) a m h = elim (Bool-cases (ltb a m)) [
  | inl more ↦
      rw more
        (le-grow f (a * 2) m (omega (arith, h, pow-suc 2 f, ap (λ (t : ℕ). a * t) (pow-suc 2 f))))
  | inr done ↦ rw done (ground arith)
]

-- What the constructor returns: an empty pool whose size is a power of two, and at least the
-- product of the two limits.
pub record IsFresh {C : Type 0} (p : Pool C) : Type 0 where
  pub inv : Inv p (λ _. none)
  pub power : (k : ℕ) × (p.arsize ≡ 64 * 2 ^ k)
  pub room : p.max_idle_time * p.nof_per_slot ≤ p.arsize
  pub idle_bounds : (0 < p.max_idle_time) × (p.max_idle_time < 2 ^ 20)
  pub nof_bounds : (0 < p.nof_per_slot) × (p.nof_per_slot < 2 ^ 20)

module _ {C : Type 0} where
  pub empty_pool-Inv : (timecount i n : ℕ) → Inv (empty_pool {C = C} timecount i n) (λ _. none)
  unfolding empty_pool slot_of ref_of
  empty_pool-Inv timecount i n =
      let (k, e) = grow_pow 32 64 (i * n) in
      record {
        size = rw e (omega (arith, one-le-pow k 2 (omega arith)));
        size_ar = length-replicate (grow 32 64 (i * n)) none;
        size_refar = length-replicate (grow 32 64 (i * n)) minus_one;
        stored_ref = λ s tr e'.
            ground
              (arith, get_or-replicate {A = Option (Transaction C)} (grow 32 64 (i * n)) s none);
        stored_slot = λ s tr e'.
            ground
              (arith, get_or-replicate {A = Option (Transaction C)} (grow 32 64 (i * n)) s none);
        held_ref = λ c h e'. cc;
        held_in_use = λ c h e' q. cc;
        apart = λ s c tr h e' e'' q. cc;
        unique = λ c d h k' e' e'' q. cc;
      }

  empty_pool-IsFresh :
      (timecount i n : ℕ)
      → (0 < i) × (i < 2 ^ 20)
      → (0 < n) × (n < 2 ^ 20)
      → i * n < 2 ^ 31
      → IsFresh (empty_pool {C = C} timecount i n)
  empty_pool-IsFresh timecount i n hi hn h = record {
    inv = empty_pool-Inv timecount i n;
    power = unfold empty_pool in grow_pow 32 64 (i * n);
    room = unfold empty_pool in le-grow 32 64 (i * n) (omega arith);
    idle_bounds = unfold empty_pool in hi;
    nof_bounds = unfold empty_pool in hn;
  }

  new_pool-ok :
      (timecount : ℕ) (max_idle nof : ℤ) (memory : Bool) (p : Pool C)
      → new_pool timecount max_idle nof memory ≡ ok p
      → let i = magnitude (or_default max_idle 8) in
        let n = magnitude (or_default nof 1) in
        (0 < i)
        × (i < 2 ^ 20)
        × (0 < n)
        × (n < 2 ^ 20)
        × (i * n < 2 ^ 31)
        × (p ≡ empty_pool timecount i n)
  unfolding new_pool
  new_pool-ok timecount (pos zero) (pos zero) memory p h = ground arith
  new_pool-ok timecount (pos zero) (pos (suc n)) memory p h = ground arith
  new_pool-ok timecount (pos (suc i)) (pos zero) memory p h = ground arith
  new_pool-ok timecount (pos (suc i)) (pos (suc n)) memory p h = ground arith
  new_pool-ok timecount (negsuc i) (pos zero) memory p h = ground arith
  new_pool-ok timecount (negsuc i) (pos (suc n)) memory p h = ground arith
  new_pool-ok timecount (pos zero) (negsuc n) memory p h = ground arith
  new_pool-ok timecount (pos (suc i)) (negsuc n) memory p h = ground arith
  new_pool-ok timecount (negsuc i) (negsuc n) memory p h = ground arith

  -- When the constructor returns a pool, the doubling has ended with a size that is 64 times a
  -- power of two and at least the product of the two limits, the limits are positive and below
  -- 2 ^ 20, and the invariant of the pool holds with no transaction at any client.
  pub new_pool-IsFresh :
      (timecount : ℕ) (max_idle nof : ℤ) (memory : Bool) (p : Pool C)
      → new_pool timecount max_idle nof memory ≡ ok p
      → IsFresh p
  new_pool-IsFresh timecount max_idle nof memory p h =
      let (i_pos, i_lt, n_pos, n_lt, small, e) = new_pool-ok timecount max_idle nof memory p h in
      rw e (empty_pool-IsFresh timecount _ _ (i_pos, i_lt) (n_pos, n_lt) small)
