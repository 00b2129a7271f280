-- ===== src/WebRequest/AcceptOrder.antt =====
-- The order of the elements of a header, and the choice of the result type
-- (src/webrequest/webRequestUtils.cpp).
use mathlib.Core.List.{Perm}
use mathlib.Core.List.Perm
use strus_bindings.Base.{
  ◌≤◌, ◌≡◌, ◌⊎◌, refl, subst, Bool, true, false, some, List, [], ◌∷◌, if◌then◌else◌, leb, length,
  Bytes, arith, inl, inr, Bool-cases,
}
use strus_bindings.Base.Result.{Result, ok, err}
use strus_bindings.WebRequest.Content.{Fault, thrown, ◌>>=◌}
use strus_bindings.WebRequest.Accept.{
  Weights, AcceptElem, Accepting, or_null, before, groups, insert_elem, sort_elems, sorted,
  scan_accept, parse_accept, elembuf_size,
}

module _ (ws : Weights) where
  open ws use {Weight, greater}

  -- What is relied on of the order of the floats: it is a strict weak order.
  pub record IsStrictWeak : Type 0 where
    pub asymmetric : (a b : Weight) → greater a b ≡ true → greater b a ≡ false
    pub transitive : (a b c : Weight) → greater a b ≡ true → greater b c ≡ true → greater a c ≡ true
    pub incomparable :
        (a b c : Weight) → greater a b ≡ false → greater b c ≡ false → greater a c ≡ false

  -- No later element goes before an earlier one.
  abbrev pub NoneBefore : AcceptElem ws → List (AcceptElem ws) → Type 0
  NoneBefore a [] = Unit {0}
  NoneBefore a (b ∷ bs) = (before ws b a ≡ false) × NoneBefore a bs

  abbrev pub IsOrdered : List (AcceptElem ws) → Type 0
  IsOrdered [] = Unit {0}
  IsOrdered (a ∷ as') = NoneBefore a as' × IsOrdered as'

  insert_elem-perm :
      (a : AcceptElem ws) (bs : List (AcceptElem ws)) → Perm (insert_elem ws a bs) (a ∷ bs)
  unfolding insert_elem
  insert_elem-perm a [] = Perm.rfl
  insert_elem-perm a (b ∷ bs) = elim (Bool-cases (before ws b a)) [
    | inl e ↦ rw e (Perm.trans (Perm.cons b (insert_elem-perm a bs)) (Perm.swap a b bs))
    | inr e ↦ rw e Perm.rfl
  ]

  sort_elems-perm : (es : List (AcceptElem ws)) → Perm (sort_elems ws es) es
  unfolding sort_elems
  sort_elems-perm [] = Perm.rfl
  sort_elems-perm (a ∷ as') =
      Perm.trans (insert_elem-perm a (sort_elems ws as')) (Perm.cons a (sort_elems-perm as'))

  module _ (order : IsStrictWeak) where
    before_asymm : (a b : AcceptElem ws) → before ws a b ≡ true → before ws b a ≡ false
    unfolding before
    before_asymm a b h =
        ground (arith, order.asymmetric a.weight b.weight, order.asymmetric b.weight a.weight)

    -- `before` is a strict weak order on elements.
    before_incomparable :
        (a b c : AcceptElem ws)
        → before ws a b ≡ false
        → before ws b c ≡ false
        → before ws a c ≡ false
    unfolding before
    before_incomparable a b c h k = ground (
      arith,
      order.incomparable a.weight b.weight c.weight,
      order.incomparable c.weight b.weight a.weight,
      order.incomparable b.weight c.weight a.weight,
      order.incomparable c.weight a.weight b.weight,
      order.incomparable b.weight a.weight c.weight,
      order.asymmetric a.weight b.weight,
      order.asymmetric b.weight c.weight,
      order.asymmetric a.weight c.weight,
    )

    NoneBefore-insert :
        (x a : AcceptElem ws) (bs : List (AcceptElem ws))
        → before ws a x ≡ false
        → NoneBefore x bs
        → NoneBefore x (insert_elem ws a bs)
    unfolding insert_elem
    NoneBefore-insert x a [] h n = (h, tt)
    NoneBefore-insert x a (b ∷ bs) h n = elim (Bool-cases (before ws b a)) [
      | inl e ↦ rw e (n.0, NoneBefore-insert x a bs h n.1)
      | inr e ↦ rw e (h, n)
    ]

    NoneBefore-trans :
        (a b : AcceptElem ws) (cs : List (AcceptElem ws))
        → before ws b a ≡ false
        → NoneBefore b cs
        → NoneBefore a cs
    NoneBefore-trans a b [] h n = tt
    NoneBefore-trans a b (c ∷ cs) h n =
        (before_incomparable c b a n.0 h, NoneBefore-trans a b cs h n.1)

    insert_elem-IsOrdered :
        (a : AcceptElem ws) (bs : List (AcceptElem ws))
        → IsOrdered bs
        → IsOrdered (insert_elem ws a bs)
    unfolding insert_elem
    insert_elem-IsOrdered a [] o = (tt, tt)
    insert_elem-IsOrdered a (b ∷ bs) o = elim (Bool-cases (before ws b a)) [
      | inl e ↦
          rw e (NoneBefore-insert b a bs (before_asymm b a e) o.0, insert_elem-IsOrdered a bs o.1)
      | inr e ↦ rw e ((e, NoneBefore-trans a b bs e o.0), o)
    ]

    sort_elems-IsOrdered : (es : List (AcceptElem ws)) → IsOrdered (sort_elems ws es)
    unfolding sort_elems
    sort_elems-IsOrdered [] = tt
    sort_elems-IsOrdered (a ∷ as') =
        insert_elem-IsOrdered a (sort_elems ws as') (sort_elems-IsOrdered as')

    pub sort_elems-sorts :
        (es : List (AcceptElem ws)) → Perm (sort_elems ws es) es × IsOrdered (sort_elems ws es)
    sort_elems-sorts es = (sort_elems-perm es, sort_elems-IsOrdered es)

    -- It weighs more, or no less and it comes first in the header.
    abbrev pub Precedes : AcceptElem ws → AcceptElem ws → Type 0
    Precedes a b =
        (greater a.weight b.weight ≡ true)
        ⊎ ((greater b.weight a.weight ≡ false) × (a.position ≤ b.position))

    abbrev pub PrecedesAll : AcceptElem ws → List (AcceptElem ws) → Type 0
    PrecedesAll a [] = Unit {0}
    PrecedesAll a (b ∷ bs) = Precedes a b × PrecedesAll a bs

    -- Each element precedes all that come after it.
    abbrev pub IsSorted : List (AcceptElem ws) → Type 0
    IsSorted [] = Unit {0}
    IsSorted (a ∷ as') = PrecedesAll a as' × IsSorted as'

    precedes : (a b : AcceptElem ws) → before ws b a ≡ false → Precedes a b
    unfolding before
    precedes a b h = elim (Bool-cases (greater a.weight b.weight)) [
      | inl e ↦ inl e
      | inr e ↦ inr (ground (arith, h, e), ground (arith, h, e))
    ]

    precedes_all :
        (a : AcceptElem ws) (bs : List (AcceptElem ws)) → NoneBefore a bs → PrecedesAll a bs
    precedes_all a [] n = tt
    precedes_all a (b ∷ bs) n = (precedes a b n.0, precedes_all a bs n.1)

    IsOrdered-IsSorted : (es : List (AcceptElem ws)) → IsOrdered es → IsSorted es
    IsOrdered-IsSorted [] o = tt
    IsOrdered-IsSorted (a ∷ as') o = (precedes_all a as' o.0, IsOrdered-IsSorted as' o.1)

    -- The elements that the loop of `parseAccept` has put into its buffer, in the order of the result.
    abbrev pub Sorts : (upcase : Bool) → (header : Bytes) → List (AcceptElem ws) → Type 0
    Sorts upcase header es =
        (s : Accepting ws) × (groups ws (length header) upcase
            (record { rest = header; strbufpos = 0; elems = [] })
          ≡ ok s)
        × Perm es s.elems
        × IsSorted es

    sorted-Sorts :
        (b : Bool) (upcase : Bool) (header : Bytes) (s : Accepting ws) (es : List (AcceptElem ws))
        → groups ws (length header) upcase (record { rest = header; strbufpos = 0; elems = [] })
          ≡ ok s
        → or_null (if b then err thrown else ok (sort_elems ws s.elems)) ≡ some es
        → Sorts upcase header es
    unfolding or_null
    sorted-Sorts true upcase header s es g h = absurd (ground (arith, h))
    sorted-Sorts false upcase header s es g h =
        let e : sort_elems ws s.elems ≡ es = ground (arith, h) in
        (
          s,
          g,
          subst (λ l. Perm l s.elems) e (sort_elems-perm s.elems),
          IsOrdered-IsSorted es (subst IsOrdered e (sort_elems-IsOrdered s.elems)),
        )

    scanned-Sorts :
        (r : Result Fault (Accepting ws)) (upcase : Bool) (header : Bytes)
        (es : List (AcceptElem ws))
        → groups ws (length header) upcase (record { rest = header; strbufpos = 0; elems = [] }) ≡ r
        → or_null (r >>= sorted ws) ≡ some es
        → Sorts upcase header es
    unfolding or_null sorted
    scanned-Sorts (err f) upcase header es g h = absurd (ground (arith, h))
    scanned-Sorts (ok s) upcase header es g h =
        sorted-Sorts (leb elembuf_size (length s.elems)) upcase header s es g h

    -- What `parseAccept` returns, if it is not NULL, are the elements that its loop has scanned, all
    -- of them: one with a higher weight comes before one with a lower weight, and elements of the same
    -- weight stay in the order of the header. The order of the floats is a strict weak one, without
    -- NaN.
    pub parse_accept-IsSorted :
        (upcase : Bool) (header : Bytes) (es : List (AcceptElem ws))
        → parse_accept ws upcase header ≡ some es
        → Sorts upcase header es
    unfolding parse_accept scan_accept
    parse_accept-IsSorted upcase header es h =
        scanned-Sorts
          (groups ws (length header) upcase (record { rest = header; strbufpos = 0; elems = [] }))
          upcase header es refl h
