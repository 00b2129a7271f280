-- ===== src/WebRequest/Truncation.antt =====
-- Cutting a text to a size (src/webrequest/webRequestUtils.cpp).
use strus_bindings.Base.{
  ℕ, zero, suc, ◌+◌, ◌≤◌, ◌<◌, ◌≡◌, refl, ap, ◌∙◌, true, false, [], ◌∷◌, ◌++◌, ltb, Bytes, get_or,
  length, length-append, take, arith,
}
use strus_bindings.Base.Int.{pos}
use strus_bindings.WebRequest.Encoding.{is_continuation, cut_size, truncate, content_tostring}

abbrev pub AllContinuation : Bytes → Type 0
AllContinuation [] = Unit
AllContinuation (d ∷ ds) = (is_continuation d ≡ true) × AllContinuation ds

get_or-append :
    (front rest : Bytes) (i : ℕ) → get_or (front ++ rest) (length front + i) 0 ≡ get_or rest i 0
get_or-append [] rest i = ap (λ n. get_or rest n 0) (omega arith)
get_or-append (x ∷ front) rest i =
    let shift : length (x ∷ front) + i ≡ suc (length front + i) = omega arith in
    rw shift (get_or-append front rest i)

get_or-AllContinuation :
    (ds : Bytes) (i : ℕ)
    → AllContinuation ds
    → i < length ds
    → is_continuation (get_or ds i 0) ≡ true
get_or-AllContinuation [] i a h = ground arith
get_or-AllContinuation (d ∷ ds) zero a h = a.0
get_or-AllContinuation (d ∷ ds) (suc i) a h = get_or-AllContinuation ds i a.1 (omega arith)

cut_size-lead :
    (front : Bytes) (c : ℕ) (ds : Bytes) (k : ℕ)
    → is_continuation c ≡ false
    → AllContinuation ds
    → k ≤ length ds
    → cut_size (front ++ (c ∷ ds)) (suc (length front + k)) ≡ suc (length front)
unfolding cut_size
cut_size-lead front c ds zero h a le =
    let here : is_continuation (get_or (front ++ (c ∷ ds)) (length front + 0) 0) ≡ false =
      ap is_continuation (get_or-append front (c ∷ ds) 0) ∙ h in
    rw here (omega arith)
cut_size-lead front c ds (suc k) h a le =
    let here : is_continuation (get_or (front ++ (c ∷ ds)) (length front + suc k) 0) ≡ true =
      ap is_continuation (get_or-append front (c ∷ ds) (suc k))
      ∙ get_or-AllContinuation ds k a (omega arith) in
    let less : length front + suc k ≡ suc (length front + k) = omega arith in
    rw here (ap (cut_size (front ++ (c ∷ ds))) less ∙ cut_size-lead front c ds k h a (omega arith))

take_lead :
    (front : Bytes) (c : ℕ) (ds : Bytes)
    → take (suc (length front)) (front ++ (c ∷ ds)) ≡ front ++ (c ∷ [])
take_lead [] c ds = refl
take_lead (x ∷ front) c ds = ap (λ more. x ∷ more) (take_lead front c ds)

-- A text whose last character has a lead byte and continuation bytes, cut to a size inside of this
-- character, keeps the lead byte without what belongs to it.
pub content_tostring-lead :
    (front : Bytes) (c : ℕ) (ds : Bytes) (k : ℕ)
    → is_continuation c ≡ false
    → AllContinuation ds
    → k < length ds
    → content_tostring (front ++ (c ∷ ds)) (pos (suc (length front + k))) ≡ front ++ (c ∷ [])
unfolding content_tostring truncate
content_tostring-lead front c ds k h a lt =
    let cut : ltb (suc (length front + k)) (length (front ++ (c ∷ ds))) ≡ true =
      ground (arith, length-append front (c ∷ ds)) in
    rw cut (
      ap (λ n. take n (front ++ (c ∷ ds))) (cut_size-lead front c ds k h a (omega arith))
      ∙ take_lead front c ds)
