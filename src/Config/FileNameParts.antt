-- ===== src/Config/FileNameParts.antt =====
-- The parts of the name of a configuration file are read back (src/webrequest/configurationHandler.cpp).
use strus_bindings.Base.{
  ℕ, zero, suc, ◌+◌, ◌/◌, ◌%◌, ◌≡◌, refl, sym, ap, ◌∙◌, false, some, [], ◌∷◌, ◌++◌, ltb, ◌==◌,
  Bytes, codes, arith, inl, inr, Bool-cases,
}
use strus_bindings.Config.FileName.{
  after_dot, cons_some, until_dot, or_empty, on_some, get_config_filename_part, digits, decimal,
  zeros, decimal3, dotted, config_filename, config_extension,
}

abbrev pub HasNoDot : Bytes → Type 0
HasNoDot [] = Unit
HasNoDot (c ∷ cs) = ((c == b'.') ≡ false) × HasNoDot cs

HasNoDot-append : (xs ys : Bytes) → HasNoDot xs → HasNoDot ys → HasNoDot (xs ++ ys)
HasNoDot-append [] ys h k = k
HasNoDot-append (x ∷ xs) ys h k = (h.0, HasNoDot-append xs ys h.1 k)

after_dot-append : (xs ys : Bytes) → HasNoDot xs → after_dot (xs ++ ys) ≡ after_dot ys
unfolding after_dot
after_dot-append [] ys h = refl
after_dot-append (x ∷ xs) ys h = rw h.0 (after_dot-append xs ys h.1)

after_dot-dot : (xs ys : Bytes) → HasNoDot xs → after_dot (dotted xs ys) ≡ some ys
unfolding after_dot
after_dot-dot xs ys h = after_dot-append xs (b'.' ∷ ys) h ∙ refl

until_dot-append : (xs ys : Bytes) → HasNoDot xs → until_dot (dotted xs ys) ≡ some xs
unfolding until_dot cons_some
until_dot-append [] ys h = refl
until_dot-append (x ∷ xs) ys h = rw h.0 (ap (cons_some x) (until_dot-append xs ys h.1))

part-zero : (xs ys : Bytes) → HasNoDot xs → get_config_filename_part 0 (dotted xs ys) ≡ xs
unfolding get_config_filename_part or_empty
part-zero xs ys h = ap or_empty (until_dot-append xs ys h)

part-suc :
    (pi : ℕ) (xs ys : Bytes)
    → HasNoDot xs
    → get_config_filename_part (suc pi) (dotted xs ys) ≡ get_config_filename_part pi ys
unfolding get_config_filename_part on_some
part-suc pi xs ys h = ap (on_some (get_config_filename_part pi)) (after_dot-dot xs ys h)

digits-HasNoDot : (fuel n : ℕ) → HasNoDot (digits fuel n)
unfolding digits
digits-HasNoDot zero n = tt
digits-HasNoDot (suc fuel) n = elim (Bool-cases (ltb n 10)) [
  | inl e ↦ rw e (ground arith, tt)
  | inr e ↦ rw e (
      HasNoDot-append (digits fuel (n / 10)) ((b'0' + n % 10) ∷ []) (digits-HasNoDot fuel (n / 10))
        (ground arith, tt))
]

decimal-HasNoDot : (n : ℕ) → HasNoDot (decimal n)
unfolding decimal
decimal-HasNoDot n = digits-HasNoDot (suc n) n

zeros-HasNoDot : (n : ℕ) → HasNoDot (zeros n)
unfolding zeros
zeros-HasNoDot n = elim (Bool-cases (ltb n 10)) [
  | inl e ↦ rw e (refl, (refl, tt))
  | inr e ↦ elim (Bool-cases (ltb n 100)) [
    | inl f ↦ rw e (rw f (refl, tt))
    | inr f ↦ rw e (rw f tt)
  ]
]

decimal3-HasNoDot : (n : ℕ) → HasNoDot (decimal3 n)
unfolding decimal3
decimal3-HasNoDot n = HasNoDot-append (zeros n) (decimal n) (zeros-HasNoDot n) (decimal-HasNoDot n)

append_assoc : (xs ys zs : Bytes) → (xs ++ ys) ++ zs ≡ xs ++ (ys ++ zs)
append_assoc [] ys zs = refl
append_assoc (x ∷ xs) ys zs = ap (λ more. x ∷ more) (append_assoc xs ys zs)

-- the text before the first dot
stamp : (timebuf idxbuf : Bytes) → Bytes
stamp timebuf idxbuf = timebuf ++ (b'_' ∷ idxbuf)

stamp-HasNoDot :
    (timebuf : Bytes) (n : ℕ) → HasNoDot timebuf → HasNoDot (stamp timebuf (decimal3 n))
unfolding stamp
stamp-HasNoDot timebuf n h =
    HasNoDot-append timebuf (b'_' ∷ decimal3 n) h (refl, decimal3-HasNoDot n)

-- Where neither the time stamp nor the method, the type and the name of a configuration have a dot,
-- the three are the parts 1, 2 and 3 of the name of its file, and the name ends with the extension
-- by which the file is looked up.
pub get_config_filename_part-config :
    (timebuf : Bytes) (n : ℕ) (method type name : Bytes)
    → HasNoDot timebuf
    → HasNoDot method
    → HasNoDot type
    → HasNoDot name
    → let f = config_filename timebuf (decimal3 n) method type name in
      (get_config_filename_part 1 f ≡ method)
      × (get_config_filename_part 2 f ≡ type)
      × (get_config_filename_part 3 f ≡ name)
      × ((front : Bytes) × (f ≡ front ++ config_extension type name))
unfolding config_extension config_filename stamp
get_config_filename_part-config timebuf n method type name h1 h2 h3 h4 =
    let front = stamp timebuf (decimal3 n) in
    let last = dotted name (codes "conf") in
    let h = stamp-HasNoDot timebuf n h1 in
    let at : (pi : ℕ)
        → get_config_filename_part (suc pi) (dotted front (dotted method (dotted type last)))
          ≡ get_config_filename_part pi (dotted method (dotted type last)) =
      λ pi. part-suc pi front (dotted method (dotted type last)) h in
    let at_method = λ (pi : ℕ). part-suc pi method (dotted type last) h2 in
    (
      at 0 ∙ part-zero method (dotted type last) h2,
      at 1 ∙ at_method 0 ∙ part-zero type last h3,
      at 2 ∙ at_method 1 ∙ part-suc 0 type last h3 ∙ part-zero name (codes "conf") h4,
      (
        front ++ (b'.' ∷ method),
        sym (append_assoc front (b'.' ∷ method) (config_extension type name)),
      ),
    )
