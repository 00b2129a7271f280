-- ===== src/Transaction/Id/Digits.antt =====
-- The bytes of a transaction id (`transactionId_` of src/webrequest/transaction.cpp).
use strus_bindings.Base.{
  ℕ, ◌<◌, ◌/◌, ◌%◌, ◌^◌, ◌≡◌, refl, ◌==◌, false, List, [], ◌∷◌, Bytes, Without, arith,
}
use strus_bindings.Base.Int.{ℤ}
use strus_bindings.Transaction.Id.{hex_digit, print_hex8, high_word, low_word, transaction_id}

hex_digit-no_slash : (d : ℕ) → d < 16 → (hex_digit d == 47) ≡ false
unfolding hex_digit
hex_digit-no_slash d h = ground arith

digit-no_slash : (n : ℕ) → (hex_digit (n % 16) == 47) ≡ false
digit-no_slash n = hex_digit-no_slash (n % 16) (omega arith)

abbrev digits : List ℕ → Bytes → Bytes
digits [] cs = cs
digits (n ∷ ns) cs = hex_digit (n % 16) ∷ digits ns cs

digits-Without : (ns : List ℕ) (cs : Bytes) → Without 47 cs → Without 47 (digits ns cs)
digits-Without [] cs h = h
digits-Without (n ∷ ns) cs h = (digit-no_slash n, digits-Without ns cs h)

abbrev parts : ℕ → List ℕ
parts n =
    n / 16 ^ 7 ∷ n / 16 ^ 6 ∷ n / 16 ^ 5 ∷ n / 16 ^ 4 ∷ n / 16 ^ 3 ∷ n / 16 ^ 2 ∷ n / 16 ∷ n ∷ []

pub transaction_id-Without : (t : ℤ) → Without 47 (transaction_id t)
unfolding transaction_id print_hex8
transaction_id-Without t =
    digits-Without (parts (high_word t)) (digits (parts (low_word t)) [])
      (digits-Without (parts (low_word t)) [] tt)

-- an id is not empty
pub transaction_id-cons : (t : ℤ) → (c : ℕ) × (cs : Bytes) × (transaction_id t ≡ c ∷ cs)
unfolding transaction_id print_hex8
transaction_id-cons t = (_, _, refl)
