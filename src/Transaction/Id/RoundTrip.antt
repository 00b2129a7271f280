-- ===== src/Transaction/Id/RoundTrip.antt =====
-- Which transaction indices survive printing and scanning (src/webrequest/transaction.cpp).
use strus_bindings.Base.{
  append-nil, ℕ, suc, ◌+◌, ◌*◌, ◌/◌, ◌%◌, ◌^◌, ◌<◌, ◌≡◌, ◌≢◌, refl, ◌∙◌, Bool, true, false, some,
  [], ap, ◌∷◌, ◌++◌, arith, Bytes,
}
use strus_bindings.Base.Int.{ℤ, pos, negsuc, to_int64, ◌+ℤ◌}
use strus_bindings.Transaction.Id.{
  hex_digit, print_hex8, high_word, low_word, transaction_id, hex_value, scan_digits, is_x,
  scan_prefix, is_blank, scan_hex8, join_words, second_word, transaction_index,
}

hex_value-hex_digit : (d : ℕ) → d < 16 → hex_value (hex_digit d) ≡ some d
unfolding hex_value hex_digit
hex_value-hex_digit d h = ground arith

scan_digits-hex_digit :
    (w acc d : ℕ) (seen : Bool) (cs : Bytes)
    → d < 16
    → scan_digits (suc w) acc seen (hex_digit d ∷ cs) ≡ scan_digits w (acc * 16 + d) true cs
unfolding scan_digits
scan_digits-hex_digit w acc d seen cs h = rw (hex_value-hex_digit d h, scan_digits)

scan_hex8-hex_digit :
    (d e : ℕ) (cs : Bytes)
    → d < 16
    → e < 16
    → scan_hex8 (hex_digit d ∷ hex_digit e ∷ cs)
      ≡ scan_digits 8 0 false (hex_digit d ∷ hex_digit e ∷ cs)
unfolding scan_hex8 scan_prefix is_blank is_x hex_digit
scan_hex8-hex_digit d e cs h k = ground arith

scan_digits_end : (acc : ℕ) (cs : Bytes) → scan_digits 0 acc true cs ≡ some (acc, cs)
unfolding scan_digits
scan_digits_end acc cs = refl

scan_digits_all :
    (a b c d e f g h : ℕ) (cs : Bytes)
    → a < 16
    → b < 16
    → c < 16
    → d < 16
    → e < 16
    → f < 16
    → g < 16
    → h < 16
    → scan_digits 8 0 false (
        hex_digit a
        ∷ hex_digit b
        ∷ hex_digit c
        ∷ hex_digit d
        ∷ hex_digit e
        ∷ hex_digit f
        ∷ hex_digit g
        ∷ hex_digit h
        ∷ cs)
      ≡ some (
        (((((((0 * 16 + a) * 16 + b) * 16 + c) * 16 + d) * 16 + e) * 16 + f) * 16 + g) * 16 + h,
        cs,
      )
scan_digits_all a b c d e f g h cs ha hb hc hd he hf hg hh =
    scan_digits-hex_digit 7 0 a false _ ha
    ∙ scan_digits-hex_digit 6 _ b true _ hb
    ∙ scan_digits-hex_digit 5 _ c true _ hc
    ∙ scan_digits-hex_digit 4 _ d true _ hd
    ∙ scan_digits-hex_digit 3 _ e true _ he
    ∙ scan_digits-hex_digit 2 _ f true _ hf
    ∙ scan_digits-hex_digit 1 _ g true _ hg
    ∙ scan_digits-hex_digit 0 _ h true _ hh
    ∙ scan_digits_end _ cs

scan_hex8-print_hex8 :
    (n : ℕ) (rest : Bytes) → n < 2 ^ 32 → scan_hex8 (print_hex8 n ++ rest) ≡ some (n, rest)
unfolding print_hex8
scan_hex8-print_hex8 n rest h =
    scan_hex8-hex_digit (n / 16 ^ 7 % 16) (n / 16 ^ 6 % 16) _ (omega arith) (omega arith)
    ∙ scan_digits_all _ _ _ _ _ _ _ _ rest (omega arith) (omega arith) (omega arith) (omega arith)
        (omega arith) (omega arith) (omega arith) (omega arith)
    ∙ ap (λ k. some (k, rest)) (omega arith)

second_word-some :
    (p1 p2 : ℕ) (cs rest : Bytes)
    → scan_hex8 cs ≡ some (p2, rest)
    → second_word (some (p1, cs)) ≡ some (join_words p1 p2)
unfolding second_word
second_word-some p1 p2 cs rest e = rw (e, second_word)

high_word-lt : (tidx : ℤ) → high_word tidx < 2 ^ 32
unfolding high_word
high_word-lt (pos n) = omega arith
high_word-lt (negsuc n) = omega arith

low_word-lt : (tidx : ℤ) → low_word tidx < 2 ^ 32
unfolding low_word
low_word-lt (pos n) = omega arith
low_word-lt (negsuc n) = omega arith

-- Scanning reads the two words that were printed.
transaction_index-transaction_id :
    (tidx : ℤ)
    → transaction_index (transaction_id tidx) ≡ some (join_words (high_word tidx) (low_word tidx))
unfolding transaction_index transaction_id
transaction_index-transaction_id tidx =
    ap second_word
      (scan_hex8-print_hex8 (high_word tidx) (print_hex8 (low_word tidx)) (high_word-lt tidx))
    ∙ second_word-some (high_word tidx) (low_word tidx) (print_hex8 (low_word tidx)) [] (
        rw (← append-nil (print_hex8 (low_word tidx)))
          (scan_hex8-print_hex8 (low_word tidx) [] (low_word-lt tidx)))

-- The words of a non-negative index name it.
join_words_pos : (n : ℕ) → n < 2 ^ 63 → join_words (high_word (pos n)) (low_word (pos n)) ≡ pos n
unfolding join_words high_word low_word to_int64
join_words_pos n h = ground arith

-- A negative index whose low word is not 0 comes back with its high word one too large.
join_words_negsuc :
    (n : ℕ)
    → n < 2 ^ 63
    → suc n % 2 ^ 32 ≢ 0
    → join_words (high_word (negsuc n)) (low_word (negsuc n)) ≡ negsuc n +ℤ pos (2 ^ 32)
unfolding join_words high_word low_word to_int64 ◌+ℤ◌
join_words_negsuc n h k = ground arith

-- The transaction index read from a printed transaction identifier is the one printed, for every
-- index from 0 to 2 ^ 63 - 1.
pub transaction_index-pos :
    (n : ℕ) → n < 2 ^ 63 → transaction_index (transaction_id (pos n)) ≡ some (pos n)
transaction_index-pos n h = transaction_index-transaction_id (pos n) ∙ ap some (join_words_pos n h)

-- A negative transaction index that is no multiple of 2 ^ 32 is read back 2 ^ 32 too large.
pub transaction_index-negsuc :
    (n : ℕ)
    → n < 2 ^ 63
    → suc n % 2 ^ 32 ≢ 0
    → transaction_index (transaction_id (negsuc n)) ≡ some (negsuc n +ℤ pos (2 ^ 32))
transaction_index-negsuc n h k =
    transaction_index-transaction_id (negsuc n) ∙ ap some (join_words_negsuc n h k)
