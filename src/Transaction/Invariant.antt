-- ===== src/Transaction/Invariant.antt =====
-- Who owns which entry of `m_refar`: the invariant of the pool of transactions
-- (src/webrequest/transaction.cpp) together with the clients that have fetched a transaction.
use strus_bindings.Base.{
  ℕ, ◌<◌, ◌≡◌, ◌≢◌, refl, sym, ap, ◌∙◌, Option, none, some, arith, length, ltb, ◌==◌, ◌&&◌,
  if◌then◌else◌, get_or-set, length-set,
}
use strus_bindings.Base.Int.{ℤ, pos, low_bits}
use strus_bindings.Transaction.Pool.{Transaction, Pool, minus_one}
use strus_bindings.Transaction.Operations.{set_refar, set_slot, slot_of, ref_of}

-- The transaction that each client has fetched and not yet given back.
abbrev pub Clients : Type 0 → Type 0
Clients C = ℕ → Option (Transaction C)

abbrev pub update : {C : Type 0} → Clients C → ℕ → Option (Transaction C) → Clients C
update held c o d = if c == d then o else held d

module _ {C : Type 0} where
  -- Each transaction has the entry of `m_refar` that its index selects. The entry of a stored
  -- transaction holds its slot; that of a fetched one is in use, and no other has it.
  pub record Inv (p : Pool C) (held : Clients C) : Type 0 where
    pub size : 1 < p.arsize
    pub size_ar : length p.ar ≡ p.arsize
    pub size_refar : length p.refar ≡ p.arsize
    pub stored_ref :
        (s : ℕ) (tr : Transaction C) → slot_of p s ≡ some tr → tr.ref ≡ low_bits p.arsize tr.tidx
    pub stored_slot : (s : ℕ) (tr : Transaction C) → slot_of p s ≡ some tr → ref_of p tr.ref ≡ pos s
    pub held_ref : (c : ℕ) (h : Transaction C) → held c ≡ some h → h.ref ≡ low_bits p.arsize h.tidx
    pub held_in_use : (c : ℕ) (h : Transaction C) → held c ≡ some h → ref_of p h.ref ≢ minus_one
    pub apart :
        (s c : ℕ) (tr h : Transaction C) → slot_of p s ≡ some tr → held c ≡ some h → tr.ref ≢ h.ref
    pub unique :
        (c d : ℕ) (h k : Transaction C) → held c ≡ some h → held d ≡ some k → h.ref ≡ k.ref → c ≡ d

  -- No transaction has the entry `r` of `m_refar`.
  pub record IsFree (r : ℕ) (p : Pool C) (held : Clients C) : Type 0 where
    pub not_stored : (s : ℕ) (tr : Transaction C) → slot_of p s ≡ some tr → tr.ref ≢ r
    pub not_held : (c : ℕ) (h : Transaction C) → held c ≡ some h → h.ref ≢ r

  pub slot_of-set_slot :
      (p : Pool C) (s t : ℕ) (o : Option (Transaction C))
      → slot_of (set_slot s o p) t ≡ (if s == t && ltb s (length p.ar) then o else slot_of p t)
  unfolding slot_of set_slot
  slot_of-set_slot p s t o = get_or-set p.ar s t o none

  pub ref_of-set_refar :
      (p : Pool C) (r t : ℕ) (x : ℤ)
      → ref_of (set_refar r x p) t ≡ (if r == t && ltb r (length p.refar) then x else ref_of p t)
  unfolding ref_of set_refar
  ref_of-set_refar p r t x = get_or-set p.refar r t x minus_one

  pub slot_of-set_refar : (p : Pool C) (r t : ℕ) (x : ℤ) → slot_of (set_refar r x p) t ≡ slot_of p t
  unfolding slot_of set_refar
  slot_of-set_refar p r t x = refl

  pub ref_of-set_slot :
      (p : Pool C) (s t : ℕ) (o : Option (Transaction C)) → ref_of (set_slot s o p) t ≡ ref_of p t
  unfolding ref_of set_slot
  ref_of-set_slot p s t o = refl

  pub ref_of-set_refar_ne :
      (p : Pool C) (r t : ℕ) (x : ℤ) → r ≢ t → ref_of (set_refar r x p) t ≡ ref_of p t
  ref_of-set_refar_ne p r t x h = ground (arith, ref_of-set_refar p r t x)

  pub ref_of-set_refar_self :
      (p : Pool C) (r : ℕ) (x : ℤ) → r < length p.refar → ref_of (set_refar r x p) r ≡ x
  ref_of-set_refar_self p r x h = ground (arith, ref_of-set_refar p r r x)

  -- A slot that is filled after a write was filled before, or is the one that was written.
  pub slot_of-set_slot-none :
      (p : Pool C) (s t : ℕ) (tr : Transaction C)
      → slot_of (set_slot s none p) t ≡ some tr
      → slot_of p t ≡ some tr
  slot_of-set_slot-none p s t tr h = ground (arith, slot_of-set_slot p s t none)

  -- An entry that nobody has can be written.
  pub set_refar-Inv :
      (p : Pool C) (held : Clients C) (r : ℕ) (x : ℤ)
      → IsFree r p held
      → Inv p held
      → Inv (set_refar r x p) held
  unfolding set_refar
  set_refar-Inv p held r x f v = record {
    size = v.size;
    size_ar = v.size_ar;
    size_refar = length-set p.refar r x ∙ v.size_refar;
    stored_ref = λ s tr e. v.stored_ref s tr (rw (← slot_of-set_refar p r s x) e);
    stored_slot = λ s tr e.
        let e' = rw (slot_of-set_refar p r s x) at e in
        ref_of-set_refar_ne p r tr.ref x (λ q. f.not_stored s tr e' (sym q))
        ∙ v.stored_slot s tr e';
    held_ref = v.held_ref;
    held_in_use = λ c h e.
        rw (ref_of-set_refar_ne p r h.ref x (λ q. f.not_held c h e (sym q))) (v.held_in_use c h e);
    apart = λ s c tr h e. v.apart s c tr h (rw (slot_of-set_refar p r s x) at e);
    unique = v.unique;
  }

  -- A slot may be emptied.
  pub empty-Inv :
      (p : Pool C) (held : Clients C) (s : ℕ) → Inv p held → Inv (set_slot s none p) held
  unfolding set_slot
  empty-Inv p held s v = record {
    size = v.size;
    size_ar = length-set p.ar s none ∙ v.size_ar;
    size_refar = v.size_refar;
    stored_ref = λ t tr e. v.stored_ref t tr (slot_of-set_slot-none p s t tr e);
    stored_slot = λ t tr e.
        ref_of-set_slot p s tr.ref none ∙ v.stored_slot t tr (slot_of-set_slot-none p s t tr e);
    held_ref = v.held_ref;
    held_in_use = λ c h e. rw (ref_of-set_slot p s h.ref none) (v.held_in_use c h e);
    apart = λ t c tr h e. v.apart t c tr h (slot_of-set_slot-none p s t tr e);
    unique = v.unique;
  }

  -- After that nobody has the entry of the transaction that was there.
  pub empty-IsFree :
      (p : Pool C) (held : Clients C) (s : ℕ) (tr : Transaction C)
      → s < p.arsize
      → slot_of p s ≡ some tr
      → Inv p held
      → IsFree tr.ref (set_slot s none p) held
  empty-IsFree p held s tr lt e v = record {
    not_stored = λ t tr' e' same.
        let old = slot_of-set_slot-none p s t tr' e' in
        let slots = sym (v.stored_slot t tr' old) ∙ ap (ref_of p) same ∙ v.stored_slot s tr e in
        ground (arith, slots, e', slot_of-set_slot p s t none, v.size_ar);
    not_held = λ c h e' same. v.apart s c tr h e e' (sym same);
  }

  -- A transaction goes to an empty slot that its entry names.
  pub store-Inv :
      (p : Pool C) (held : Clients C) (s : ℕ) (tr : Transaction C)
      → s < p.arsize
      → tr.ref ≡ low_bits p.arsize tr.tidx
      → ref_of p tr.ref ≡ pos s
      → IsFree tr.ref p held
      → Inv p held
      → Inv (set_slot s (some tr) p) held
  unfolding set_slot
  store-Inv p held s tr lt r e f v = record {
    size = v.size;
    size_ar = length-set p.ar s (some tr) ∙ v.size_ar;
    size_refar = v.size_refar;
    stored_ref =
        λ t tr' e'. ground (arith, slot_of-set_slot p s t (some tr), v.stored_ref t tr', e', r);
    stored_slot = λ t tr' e'. ground (
      arith,
      ref_of-set_slot p s tr'.ref (some tr),
      slot_of-set_slot p s t (some tr),
      v.stored_slot t tr',
      e',
      e,
    );
    held_ref = v.held_ref;
    held_in_use = λ c h e'. rw (ref_of-set_slot p s h.ref (some tr)) (v.held_in_use c h e');
    apart = λ t c tr' h e' e'' q. ground (
      arith,
      slot_of-set_slot p s t (some tr),
      v.apart t c tr' h,
      f.not_held c h e'',
      e',
      e'',
      q,
    );
    unique = v.unique;
  }

  -- A client takes over a transaction that nobody has any more.
  pub hold-Inv :
      (p : Pool C) (held : Clients C) (c : ℕ) (tr : Transaction C)
      → held c ≡ none
      → tr.ref ≡ low_bits p.arsize tr.tidx
      → ref_of p tr.ref ≢ minus_one
      → IsFree tr.ref p held
      → Inv p held
      → Inv p (update held c (some tr))
  hold-Inv p held c tr idle r e f v = record {
    size = v.size;
    size_ar = v.size_ar;
    size_refar = v.size_refar;
    stored_ref = v.stored_ref;
    stored_slot = v.stored_slot;
    held_ref = λ d h e'. ground (arith, v.held_ref d h, e', r);
    held_in_use = λ d h e' q. ground (arith, v.held_in_use d h, e', e, q);
    apart =
        λ t d tr' h e' e'' q. ground (arith, v.apart t d tr' h, f.not_stored t tr' e', e', e'', q);
    unique = λ d d' h k e' e'' q.
        ground (arith, v.unique d d' h k, f.not_held d h, f.not_held d' k, e', e'', q);
  }

  -- A client lets its transaction go.
  pub release-Inv :
      (p : Pool C) (held : Clients C) (c : ℕ) → Inv p held → Inv p (update held c none)
  release-Inv p held c v = record {
    size = v.size;
    size_ar = v.size_ar;
    size_refar = v.size_refar;
    stored_ref = v.stored_ref;
    stored_slot = v.stored_slot;
    held_ref = λ d h e'. ground (arith, v.held_ref d h, e');
    held_in_use = λ d h e' q. ground (arith, v.held_in_use d h, e', q);
    apart = λ t d tr' h e' e'' q. ground (arith, v.apart t d tr' h, e', e'', q);
    unique = λ d d' h k e' e'' q. ground (arith, v.unique d d' h k, e', e'', q);
  }

  pub release-IsFree :
      (p : Pool C) (held : Clients C) (c : ℕ) (h : Transaction C)
      → held c ≡ some h
      → Inv p held
      → IsFree h.ref p (update held c none)
  release-IsFree p held c h e v = record {
    not_stored = λ s tr e'. v.apart s c tr h e' e;
    not_held = λ d k e' q. ground (arith, v.unique d c k h, e, e', q);
  }
