-- ===== src/Transaction/Faults.antt =====
-- Where the pool loses transactions, loses entries, or reaches below its mutex array
-- (src/webrequest/transaction.cpp).
use strus_bindings.Base.{
  ℕ, suc, ◌<◌, ◌^◌, ◌%◌, ◌≡◌, ◌≢◌, refl, sym, ap, ◌∙◌, Bool, true, Option, none, some, arith, subst,
  inl, inr, Bytes, Bool-cases,
}
use strus_bindings.Base.Int.{ℤ, pos, negsuc, low_bits, eq_ℤ_iff, ◌+ℤ◌}
use strus_bindings.Base.Result.{ok, err}
use strus_bindings.Transaction.Id.{transaction_id, transaction_index}
use strus_bindings.Transaction.Id.RoundTrip.{transaction_index-pos, transaction_index-negsuc}
use strus_bindings.Transaction.Pool.{
  undefined_behaviour, allocation_failed, Transaction, Pool, minus_one, int_max, is_bad_mutex,
  reserve, taken, exhausted, Reserved,
}
use strus_bindings.Transaction.Operations.{
  slot_of, ref_of, take_slot, fetch_index, fetch_transaction, idle_time, create_transaction,
  new_transaction, place, after_reserve, to_id,
}
use strus_bindings.Transaction.Invariant.{Clients, Inv, IsFree}
use strus_bindings.Transaction.Preservation.{Reserves, reserve-Reserves}
use strus_bindings.Transaction.Exchange.{
  fetch_transaction-index, fetch_index-at, taken-Reserves, place-ok,
}
use strus_bindings.Transaction.Lifecycle.{to_id-ok}

is_bad_mutex-minus_one : is_bad_mutex minus_one ≡ true
unfolding is_bad_mutex
is_bad_mutex-minus_one = refl

module _ {C : Type 0} where
  take_slot-tidx :
      (s : ℕ) (tidx : ℤ) (o : Option (Transaction C)) (p : Pool C) (tr : Transaction C)
      → (take_slot s tidx o p).0 ≡ ok (some tr)
      → tidx ≡ tr.tidx
  unfolding take_slot
  take_slot-tidx s tidx none p tr e = ground (arith, e)
  take_slot-tidx s tidx (some t) p tr e = ground (arith, e, eq_ℤ_iff tidx t.tidx)

  -- A fetch returns a transaction only under its own index.
  fetch_index-tidx :
      (tidx : ℤ) (p : Pool C) (tr : Transaction C)
      → (fetch_index tidx p).0 ≡ ok (some tr)
      → tidx ≡ tr.tidx
  unfolding fetch_index
  fetch_index-tidx tidx p tr e =
      let eidx = ref_of p (low_bits p.arsize tidx) in
      elim (Bool-cases (is_bad_mutex eidx)) [
        | inl bad ↦ let e' = rw (bad, fetch_index) at e in ground (arith, e')
        | inr good ↦
            take_slot-tidx (low_bits p.arsize eidx) tidx _ p tr (rw (good, fetch_index) at e)
      ]

  -- No pool hands out a transaction under its id, if its index is negative and no multiple of
  -- 2 ^ 32: the id is read back as another index.
  pub fetch_transaction_negative :
      (p : Pool C) (n : ℕ) (tr : Transaction C)
      → tr.tidx ≡ negsuc n
      → n < 2 ^ 63
      → suc n % 2 ^ 32 ≢ 0
      → (fetch_transaction (transaction_id tr.tidx) p).0 ≢ ok (some tr)
  fetch_transaction_negative p n tr i lt k e =
      let index : transaction_index (transaction_id tr.tidx) ≡ some (negsuc n +ℤ pos (2 ^ 32)) =
        rw i (transaction_index-negsuc n lt k) in
      let got =
        subst (λ z. z.0 ≡ ok (some tr))
          (fetch_transaction-index _ (negsuc n +ℤ pos (2 ^ 32)) p index) e in
      let same = fetch_index-tidx _ p tr got ∙ i in unfold ◌+ℤ◌ in ground (arith, same)

  fetch_index_unknown :
      (p : Pool C) (tidx : ℤ)
      → ref_of p (low_bits p.arsize tidx) ≡ minus_one
      → fetch_index tidx p ≡ (err undefined_behaviour, p)
  unfolding fetch_index
  fetch_index_unknown p tidx e = simp (e, is_bad_mutex-minus_one)

  -- A fetch by an id whose entry of `m_refar` is unused locks the mutex in front of the array.
  pub fetch_transaction_unknown :
      (p : Pool C) (tid : Bytes) (tidx : ℤ)
      → transaction_index tid ≡ some tidx
      → ref_of p (low_bits p.arsize tidx) ≡ minus_one
      → fetch_transaction tid p ≡ (err undefined_behaviour, p)
  fetch_transaction_unknown p tid tidx e u =
      fetch_transaction-index tid tidx p e ∙ fetch_index_unknown p tidx u

  after_reserve-zero :
      (ctype : Bytes) (ctx : C) (idle : ℕ) (memory : Bool) (x : Reserved × Pool C) {t : ℤ}
      → x.0 ≡ taken 0 t
      → after_reserve ctype ctx idle memory x ≡ (err allocation_failed, x.1)
  unfolding after_reserve
  after_reserve-zero ctype ctx idle memory x e = rw (e, after_reserve)

  -- A reservation that succeeds with the counter at 0 is taken for a failure: the call throws, and
  -- the entry stays marked as used although no transaction has it.
  pub create_transaction_leaks :
      (ctype : Bytes) (ctx : C) (max_idle : ℤ) (address : ℕ → ℕ) (memory : Bool) (p : Pool C)
      (held : Clients C) (t : ℤ)
      → Inv p held
      → (reserve p.alloc_nof_tries address p).0 ≡ taken 0 t
      → let (r, q) = create_transaction ctype ctx max_idle address memory p in
        (r ≡ err allocation_failed)
        × (ref_of q (low_bits q.arsize t) ≡ int_max)
        × IsFree (low_bits q.arsize t) q held
  unfolding create_transaction new_transaction to_id
  create_transaction_leaks ctype ctx max_idle address memory p held t v e =
      let x = reserve p.alloc_nof_tries address p in
      let (inv, unused, marked) =
        taken-Reserves held x e (reserve-Reserves p.alloc_nof_tries address p held v) in
      rw (after_reserve-zero ctype ctx (idle_time p.max_idle_time max_idle) memory x e)
        (refl, marked, unused)

  after_reserve-exhausted :
      (ctype : Bytes) (ctx : C) (idle : ℕ) (memory : Bool) (x : Reserved × Pool C) {t : ℤ}
      {p : Pool C}
      → x ≡ (exhausted t, p)
      → after_reserve ctype ctx idle memory x ≡ place ctype ctx idle t memory p
  unfolding after_reserve
  after_reserve-exhausted ctype ctx idle memory x e = rw (e, after_reserve)

  take_slot-other :
      (s : ℕ) (tidx : ℤ) (tr : Transaction C) (p : Pool C)
      → tidx ≢ tr.tidx
      → take_slot s tidx (some tr) p ≡ (ok none, p)
  unfolding take_slot
  take_slot-other s tidx tr p h = ground (arith, eq_ℤ_iff tidx tr.tidx)

  -- When all tries to reserve an entry fail, the call does not throw but takes the entry of the
  -- last index tried. The stored transaction that had it is then lost: its id is found no more.
  pub create_transaction_steals :
      (ctype : Bytes) (ctx : C) (max_idle : ℤ) (address : ℕ → ℕ) (memory : Bool) (p p1 q : Pool C)
      (held : Clients C) (s n : ℕ) (t : ℤ) (tr : Transaction C) (tid : Bytes)
      → Inv p held
      → reserve p.alloc_nof_tries address p ≡ (exhausted t, p1)
      → slot_of p1 s ≡ some tr
      → tr.ref ≡ low_bits p1.arsize t
      → tr.tidx ≢ t
      → tr.tidx ≡ pos n
      → n < 2 ^ 63
      → create_transaction ctype ctx max_idle address memory p ≡ (ok tid, q)
      → (fetch_transaction (transaction_id tr.tidx) q).0 ≡ ok none
  unfolding create_transaction new_transaction
  create_transaction_steals ctype ctx max_idle address memory p p1 q held s n t tr tid v x there r
        ne i lt c =
      let idle = idle_time p.max_idle_time max_idle in
      let v1 : Inv p1 held =
        subst (Reserves held) x (reserve-Reserves p.alloc_nof_tries address p held v) in
      let (t', placed, named) = to_id-ok _ tid q c in
      let placed' = sym (after_reserve-exhausted ctype ctx idle memory _ x) ∙ placed in
      let (same, s', new, s_lt, entry, size) =
        place-ok ctype ctx idle t memory p1 t' q (omega (arith, v1.size)) v1.size_ar v1.size_refar
          placed' in
      let entries : low_bits q.arsize tr.tidx ≡ low_bits q.arsize t =
        rw size (sym (v1.stored_ref s tr there) ∙ r) in
      let end : take_slot s' tr.tidx (slot_of q s') q ≡ (ok none, q) =
        rw new (take_slot-other s' tr.tidx _ q ne) in
      ap (λ z. z.0)
        (fetch_transaction-index _ tr.tidx q (rw i (transaction_index-pos n lt))
          ∙ fetch_index-at q tr.tidx s' s_lt (ap (ref_of q) entries ∙ entry)
          ∙ end)
