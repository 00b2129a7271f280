-- ===== src/Base/Result.antt =====
-- What a function of the source returns or throws.
pub data Result {ℓ} (E A : Type ℓ) : Type ℓ where
  ok : A → Result E A
  err : E → Result E A
