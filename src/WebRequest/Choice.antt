-- ===== src/WebRequest/Choice.antt =====
-- The content type of an answer, chosen from the Accept header (src/webrequest/webRequestUtils.cpp).
use strus_bindings.Base.{
  ℕ, ◌≡◌, ◌≢◌, refl, sym, ap, subst, ◌∙◌, Bool, true, false, ◌&&◌, some, List, [], ◌∷◌, leb, Bytes,
  length, arith, ◌⊎◌, inl, inr, Bool-cases,
}
use strus_bindings.Base.Result.{Result, ok, err}
use strus_bindings.WebRequest.Content.{
  ContentType, unknown, xml, json, html, text, type_mime, content_from_type_name, Fault, ◌>>=◌,
}
use strus_bindings.WebRequest.Accept.{
  Weights, AcceptElem, Accepting, before, sort_elems, parse_accept, scan_accept, or_null, sorted,
  groups, elembuf_size,
}
use strus_bindings.WebRequest.AcceptChoice.{
  find_accept, or_next, first_known, is_known, choose_type, get_result_content_type,
}
use strus_bindings.WebRequest.AcceptOrder.{IsStrictWeak, NoneBefore, IsOrdered, sort_elems-sorts}

Result-cases :
    {A : Type 0} (r : Result Fault A) → ((e : Fault) × (r ≡ err e)) ⊎ ((a : A) × (r ≡ ok a))
Result-cases (ok a) = inr (a, refl)
Result-cases (err e) = inl (e, refl)

or_next_unknown :
    (r next : Result Fault ContentType)
    → (r >>= or_next next) ≡ ok unknown
    → (r ≡ ok unknown) × (next ≡ ok unknown)
unfolding or_next
or_next_unknown (ok unknown) next h = (refl, h)
or_next_unknown (ok xml) next h = ground arith
or_next_unknown (ok json) next h = ground arith
or_next_unknown (ok html) next h = ground arith
or_next_unknown (ok text) next h = ground arith
or_next_unknown (err e) next h = ground arith

or_next_known :
    (r next : Result Fault ContentType) (d : ContentType)
    → (r >>= or_next next) ≡ ok d
    → (r ≡ ok d) ⊎ ((r ≡ ok unknown) × (next ≡ ok d))
unfolding or_next
or_next_known (ok unknown) next d h = inr (refl, h)
or_next_known (ok xml) next d h = inl h
or_next_known (ok json) next d h = inl h
or_next_known (ok html) next d h = inl h
or_next_known (ok text) next d h = inl h
or_next_known (err e) next d h = ground arith

module _ (ws : Weights) where
  open ws use {Weight, greater}

  abbrev pub Among : AcceptElem ws → List (AcceptElem ws) → Type 0
  Among x [] = ⊥
  Among x (e ∷ es) = (x ≡ e) ⊎ Among x es

  -- Every element of the list names no content type that is known.
  abbrev pub NoneKnown : List (AcceptElem ws) → Type 0
  NoneKnown [] = Unit
  NoneKnown (e ∷ es) = (content_from_type_name e.type ≡ ok unknown) × NoneKnown es

  -- The element names the type, and no element that goes before it names a known one.
  abbrev pub IsBest : ContentType → List (AcceptElem ws) → AcceptElem ws → Type 0
  IsBest d es e =
      Among e es
      × ((content_from_type_name e.type ≡ ok d)
          × ((x : AcceptElem ws)
              → Among x es
              → before ws x e ≡ true
              → content_from_type_name x.type ≡ ok unknown))

  first_known-none : (es : List (AcceptElem ws)) → first_known ws es ≡ ok unknown → NoneKnown es
  unfolding first_known
  first_known-none [] h = tt
  first_known-none (e ∷ es) h =
      let both = or_next_unknown (content_from_type_name e.type) (first_known ws es) h in
      (both.0, first_known-none es both.1)

  module _ (order : IsStrictWeak ws) where
    before_irreflexive : (e : AcceptElem ws) → before ws e e ≡ false
    unfolding before
    before_irreflexive e = ground (arith, order.asymmetric e.weight e.weight)

    NoneBefore-Among :
        (e x : AcceptElem ws) (es : List (AcceptElem ws))
        → NoneBefore ws e es
        → Among x (e ∷ es)
        → before ws x e ≡ false
    NoneBefore-Among e x [] n (inl q) = ap (λ y. before ws y e) q ∙ before_irreflexive e
    NoneBefore-Among e x [] n (inr m) = elim m [ ]
    NoneBefore-Among e x (y ∷ ys) n (inl q) = ap (λ z. before ws z e) q ∙ before_irreflexive e
    NoneBefore-Among e x (y ∷ ys) n (inr (inl q)) = ap (λ z. before ws z e) q ∙ n.0
    NoneBefore-Among e x (y ∷ ys) n (inr (inr m)) = NoneBefore-Among e x ys n.1 (inr m)

    -- What a longer list has before the best element names no known type either.
    IsBest-cons :
        (d : ContentType) (e : AcceptElem ws) (es : List (AcceptElem ws))
        → content_from_type_name e.type ≡ ok unknown
        → ((best : AcceptElem ws) × IsBest d es best)
        → (best : AcceptElem ws) × IsBest d (e ∷ es) best
    IsBest-cons d e es u (best, (m, (t, f))) = (
      best,
      (
        inr m,
        (
          t,
          λ x among b. elim among [
            | inl q ↦ ap (λ z. content_from_type_name z.type) q ∙ u
            | inr n ↦ f x n b
          ],
        ),
      ),
    )

    first_known-IsBest :
        (es : List (AcceptElem ws)) (d : ContentType)
        → IsOrdered ws es
        → first_known ws es ≡ ok d
        → (d ≡ unknown) ⊎ ((e : AcceptElem ws) × IsBest d es e)
    unfolding first_known
    first_known-IsBest [] d o h = inl (ground arith)
    first_known-IsBest (e ∷ es) d o h =
        elim (or_next_known (content_from_type_name e.type) (first_known ws es) d h) [
          | inl t ↦
              inr
                (e, (inl refl, (t, λ x among b. ground (arith, NoneBefore-Among e x es o.0 among))))
          | inr both ↦ elim (first_known-IsBest es d o.1 both.1) [
            | inl u ↦ inl u
            | inr best ↦ inr (IsBest-cons d e es both.0 best)
          ]
        ]

    sorted-IsOrdered :
        (r : Result Fault (Accepting ws)) (es : List (AcceptElem ws))
        → or_null (r >>= sorted ws) ≡ some es
        → IsOrdered ws es
    unfolding sorted or_null
    sorted-IsOrdered (err e) es h = ground arith
    sorted-IsOrdered (ok s) es h = elim (Bool-cases (leb elembuf_size (length s.elems))) [
      | inl e ↦ ground arith
      | inr e ↦
          let same : sort_elems ws s.elems ≡ es = ground arith in
          subst (λ xs. IsOrdered ws xs) same (sort_elems-sorts ws order s.elems).1
    ]

    parse_accept-IsOrdered :
        (upcase : Bool) (header : Bytes) (es : List (AcceptElem ws))
        → parse_accept ws upcase header ≡ some es
        → IsOrdered ws es
    unfolding parse_accept scan_accept
    parse_accept-IsOrdered upcase header es h =
        sorted-IsOrdered
          (groups ws (length header) upcase (record { rest = header; strbufpos = 0; elems = [] }))
          es h

    choose_type-IsBest :
        (input d : ContentType) (es : List (AcceptElem ws))
        → IsOrdered ws es
        → choose_type ws (some es) input ≡ ok d
        → d ≢ unknown
        → ((d ≡ input) × (find_accept ws es (type_mime input) ≡ true))
          ⊎ ((e : AcceptElem ws) × IsBest d es e)
    unfolding choose_type
    choose_type-IsBest input d es o h u =
        elim (Bool-cases (is_known input && find_accept ws es (type_mime input))) [
          | inl e ↦ inl (ground arith, ground arith)
          | inr e ↦
              let first : first_known ws es ≡ ok d = ground arith in
              elim (first_known-IsBest es d o first) [
                | inl v ↦ elim (u v) [ ]
                | inr best ↦ inr best
              ]
        ]

    -- The content type chosen for a header that can be read is the one of the request, which then is
    -- among the types of the header, or it is named by an element of the header such that no
    -- element with a higher weight, or with the same weight and further in front, names a known type.
    pub get_result_content_type-IsBest :
        (c : ℕ) (cs : Bytes) (input d : ContentType) (es : List (AcceptElem ws))
        → parse_accept ws false (c ∷ cs) ≡ some es
        → get_result_content_type ws (c ∷ cs) input ≡ ok d
        → d ≢ unknown
        → ((d ≡ input) × (find_accept ws es (type_mime input) ≡ true))
          ⊎ ((e : AcceptElem ws) × IsBest d es e)
    unfolding get_result_content_type
    get_result_content_type-IsBest c cs input d es p h u =
        choose_type-IsBest input d es (parse_accept-IsOrdered false (c ∷ cs) es p)
          (ap (λ o. choose_type ws o input) (sym p) ∙ h) u

  choose_type-none :
      (input : ContentType) (es : List (AcceptElem ws))
      → choose_type ws (some es) input ≡ ok unknown
      → NoneKnown es
  unfolding choose_type is_known
  choose_type-none input es h =
      elim (Bool-cases (is_known input && find_accept ws es (type_mime input))) [
        | inl e ↦
            let same : input ≡ unknown = ground arith in
            let not_known : is_known input ≡ false = ap is_known same in ground arith
        | inr e ↦ first_known-none es (ground arith)
      ]

  -- No content type is chosen for a header that can be read only if each of its elements names none.
  pub get_result_content_type-none :
      (c : ℕ) (cs : Bytes) (input : ContentType) (es : List (AcceptElem ws))
      → parse_accept ws false (c ∷ cs) ≡ some es
      → get_result_content_type ws (c ∷ cs) input ≡ ok unknown
      → NoneKnown es
  unfolding get_result_content_type
  get_result_content_type-none c cs input es p h =
      choose_type-none input es (ap (λ o. choose_type ws o input) (sym p) ∙ h)
