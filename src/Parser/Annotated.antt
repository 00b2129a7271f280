-- ===== src/Parser/Annotated.antt =====
-- Annotations are added and read back (src/parser/interfaceParser.cpp).
use strus_bindings.Base.{
  ◌≡◌, refl, ap, ◌∙◌, subst, Bool, true, false, List, [], ◌∷◌, ◌++◌, Bytes, eq_bytes, eq_bytes_refl,
  is_empty, arith, inl, inr, Bool-cases,
}
use strus_bindings.Base.Result.{Result, ok, err}
use strus_bindings.Parser.Lexical.{ParseError}
use strus_bindings.Parser.Annotations.{
  ◌>>=◌, AnnotationMap, AnnotationMapBuilder, values_of, has_annotation, add_to, add_annotation,
}

values_of-append :
    (key : Bytes) (a b : AnnotationMap)
    → values_of key (a ++ b) ≡ values_of key a ++ values_of key b
unfolding values_of
values_of-append key [] b = refl
values_of-append key ((k, v) ∷ a) b = elim (Bool-cases (eq_bytes k key)) [
  | inl e ↦ rw e (ap (λ vs. v ∷ vs) (values_of-append key a b))
  | inr e ↦ rw e (values_of-append key a b)
]

append_nil : (xs : List Bytes) → xs ++ [] ≡ xs
append_nil [] = refl
append_nil (x ∷ xs) = ap (λ ys. x ∷ ys) (append_nil xs)

values_of-none :
    (key : Bytes) (a : AnnotationMap) → has_annotation a key ≡ false → values_of key a ≡ []
unfolding values_of has_annotation
values_of-none key [] h = refl
values_of-none key ((k, v) ∷ a) h = elim (Bool-cases (eq_bytes k key)) [
  | inl e ↦ ground arith
  | inr e ↦ rw e (values_of-none key a (ground arith))
]

values_of-last :
    (key value : Bytes) (a : AnnotationMap)
    → values_of key (a ++ ((key, value) ∷ [])) ≡ values_of key a ++ (value ∷ [])
unfolding values_of
values_of-last key value a =
    values_of-append key a ((key, value) ∷ []) ∙ rw (eq_bytes_refl key) refl

values_of-other :
    (key other value : Bytes) (a : AnnotationMap)
    → eq_bytes key other ≡ false
    → values_of other (a ++ ((key, value) ∷ [])) ≡ values_of other a
unfolding values_of
values_of-other key other value a h =
    values_of-append other a ((key, value) ∷ []) ∙ rw h (append_nil (values_of other a))

-- The map has one value more for the key, which is the only one if one alone is allowed.
abbrev pub Added : (key value : Bytes) → (multiple : Bool) → (old new : AnnotationMap) → Type 0
Added key value multiple old new =
    (values_of key new ≡ values_of key old ++ (value ∷ []))
    × (multiple ≡ false → values_of key new ≡ value ∷ [])
    × ((other : Bytes) → eq_bytes key other ≡ false → values_of other new ≡ values_of other old)

add_to-Added :
    (multiple : Bool) (key value : Bytes) (old new : AnnotationMap) (found : Bool)
    → has_annotation old key ≡ found
    → add_to found false multiple key value old ≡ ok new
    → Added key value multiple old new
unfolding add_to
add_to-Added multiple key value old new false h e =
    let same : old ++ ((key, value) ∷ []) ≡ new = ground arith in
    subst (Added key value multiple old) same (
      values_of-last key value old,
      λ m. values_of-last key value old ∙ ap (λ vs. vs ++ (value ∷ [])) (values_of-none key old h),
      λ other o. values_of-other key other value old o,
    )
add_to-Added true key value old new true h e =
    let same : old ++ ((key, value) ∷ []) ≡ new = ground arith in
    subst (Added key value true old) same (
      values_of-last key value old,
      λ m. ground arith,
      λ other o. values_of-other key other value old o,
    )
add_to-Added false key value old new true h e = ground arith

built : AnnotationMapBuilder → AnnotationMap → Result ParseError AnnotationMapBuilder
built b amap = ok (record b { annotations = amap })

built-Added :
    (b b1 : AnnotationMapBuilder) (value : Bytes) (r : Result ParseError AnnotationMap)
    → ((new : AnnotationMap)
        → r ≡ ok new
        → Added b.current_annotation_key value b.current_allow_multiple b.annotations new)
    → (r >>= built b) ≡ ok b1
    → Added b.current_annotation_key value b.current_allow_multiple b.annotations b1.annotations
unfolding built
built-Added b b1 value (ok new) k e =
    let same : record b { annotations = new } ≡ b1 = ground arith in
    subst
      (λ c.
        Added b.current_annotation_key value b.current_allow_multiple b.annotations c.annotations)
      same (k new refl)
built-Added b b1 value (err x) k e = ground arith

-- Where a new annotation is accepted, its value becomes the last of its key, and the only one where the
-- tag allows one alone; the other keys keep their values.
pub add_annotation-Added :
    (b b1 : AnnotationMapBuilder) (value : Bytes)
    → add_annotation b value false ≡ ok b1
    → Added b.current_annotation_key value b.current_allow_multiple b.annotations b1.annotations
unfolding add_annotation built
add_annotation-Added b b1 value e = elim (Bool-cases (is_empty b.current_annotation_key)) [
  | inl x ↦ ground arith
  | inr x ↦ elim (Bool-cases (is_empty value)) [
    | inl y ↦ ground arith
    | inr y ↦
        let found = has_annotation b.annotations b.current_annotation_key in
        let r =
          add_to found false b.current_allow_multiple b.current_annotation_key value
            b.annotations in
        let e1 : (r >>= built b) ≡ ok b1 = ground arith in
        built-Added b b1 value r
          (λ new h.
            add_to-Added b.current_allow_multiple b.current_annotation_key value b.annotations new
              found refl h)
          e1
  ]
]
