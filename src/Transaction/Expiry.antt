-- ===== src/Transaction/Expiry.antt =====
-- How long a transaction stays in the pool: the slots of `transactionRefIndexCandidate` against the
-- window of `collectGarbage` (src/webrequest/transaction.cpp).
use strus_bindings.Base.{
  ℕ, ◌+◌, ◌-◌, ◌*◌, ◌<◌, ◌≤◌, ◌^◌, ◌%◌, ◌≡◌, sym, ap, ◌∙◌, Bool, false, arith, length, ltb,
  if◌then◌else◌,
}
use native.Mathlib.Nat.{mod-eq_of_lt, mod-lt, mod-add-mod}
use strus_bindings.Transaction.Pool.{Pool, candidate}
use strus_bindings.Transaction.Operations.{
  slot_of, window, window_end, window_size, collect_garbage,
}
use strus_bindings.Transaction.Garbage.{
  in_window, mod_below_twice, mod-mul, window-lt, slot_of-collect,
}

-- From `x` on a ring of `m - 1` places, the place `b + o` steps on is not among the first `a`.
out_of_window :
    (x m a b o : ℕ)
    → x < m - 1
    → a ≤ b
    → b + o < m - 1
    → let stop = (x + a) % (m - 1) in
      let end = if ltb stop x then stop + m else stop in
      in_window m x (end - x) (((x + b) % (m - 1) + o) % m) ≡ false
out_of_window x m a b o h k l = ground (
  arith,
  mod_below_twice (x + a) (m - 1) (omega arith),
  mod_below_twice (x + b) (m - 1) (omega arith),
  mod_below_twice ((x + b) % (m - 1) + o) m
      (omega (arith, mod-lt (x + b) {m = m - 1} (omega arith))),
)

module _ {C : Type 0} where
  pub window-add :
      (p : Pool C) (t k : ℕ) → window p (t + k) ≡ (window p t + k * p.nof_per_slot) % (p.arsize - 1)
  unfolding window
  window-add p t k =
      let m = p.arsize - 1 in
      let n = p.nof_per_slot in
      mod-mul (t + k) m n
      ∙ ap (λ z. z % m) (omega arith)
      ∙ sym (mod-add-mod (t * n) m (k * n))
      ∙ ap (λ z. (z + k * n) % m) (sym (mod-mul t m n))

  pub candidate-window :
      (p : Pool C) (d : ℕ)
      → (p.lasttick % (p.arsize - 1) + d) * p.nof_per_slot < 2 ^ 64
      → candidate p d ≡ (window p p.lasttick + d * p.nof_per_slot) % (p.arsize - 1)
  unfolding candidate window
  candidate-window p d h =
      let m = p.arsize - 1 in
      let n = p.nof_per_slot in
      ap (λ z. z % m) (mod-eq_of_lt h ∙ omega arith)
      ∙ sym (mod-add-mod (p.lasttick % m * n) m (d * n))

  -- The first candidate for a transaction with the lifetime `d`, and each slot that the probing
  -- reaches from it by `o` steps, is left alone by a garbage collection that comes at most `d` ticks
  -- after the last one, if the lifetime and the steps fit into the pool.
  pub collect_keeps :
      (log_action : Bool) (p : Pool C) (d k o : ℕ)
      → p.tickflag ≡ false
      → 1 < p.arsize
      → length p.ar ≡ p.arsize
      → (p.lasttick % (p.arsize - 1) + d) * p.nof_per_slot < 2 ^ 64
      → k ≤ d
      → d * p.nof_per_slot + o < p.arsize - 1
      → let i = (candidate p d + o) % p.arsize in
        slot_of (collect_garbage log_action (p.lasttick + k) p).0 i ≡ slot_of p i
  unfolding window_size window_end
  collect_keeps log_action p d k o idle size len small le fits =
      let x = window p p.lasttick in
      let out =
        out_of_window x p.arsize (k * p.nof_per_slot) (d * p.nof_per_slot) o
          (window-lt p p.lasttick size) (grind arith) fits in
      slot_of-collect log_action (p.lasttick + k) p ((candidate p d + o) % p.arsize) idle size len
        (mod-lt _ (omega arith))
      ∙ rw (window-add p p.lasttick k, candidate-window p d small, out)
