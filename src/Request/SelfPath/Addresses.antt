-- ===== src/Request/SelfPath/Addresses.antt =====
-- The addresses that `pathToSelf` (src/webrequest/webRequestHandler.cpp) takes for this service.
use strus_bindings.Base.{
  ℕ, suc, ◌≡◌, ◌==◌, ◌⊎◌, inl, inr, refl, sym, ap, subst, ==_iff, ◌∙◌, true, Option, none, some, [],
  ◌∷◌, ◌++◌, if◌then◌else◌, Bytes, codes, is_empty, replicate, Bool-cases, arith,
}
use strus_bindings.Request.SelfPath.{
  drop_prefix, pass_slashes, parse_path_delim, bind, or_else, behind_scheme, parse_local_host,
  port_text, parse_port, path_to_self,
}

ap_cons : {x y : ℕ} {xs ys : Bytes} → x ≡ y → xs ≡ ys → x ∷ xs ≡ y ∷ ys
ap_cons {x = x} {ys = ys} p q = ap (λ zs. x ∷ zs) q ∙ ap (λ z. z ∷ ys) p

tail_of :
    (p c : ℕ) (cs rest ps : Bytes)
    → (p == c) ≡ true
    → drop_prefix (p ∷ ps) (c ∷ cs) ≡ some rest
    → drop_prefix ps cs ≡ some rest
unfolding drop_prefix
tail_of p c cs rest ps e h = ground (arith, h, e)

drop_prefix_sound : (p cs rest : Bytes) → drop_prefix p cs ≡ some rest → cs ≡ p ++ rest
unfolding drop_prefix
drop_prefix_sound [] cs rest h = ground (arith, h)
drop_prefix_sound (p ∷ ps) [] rest h = absurd (ground (arith, h))
drop_prefix_sound (p ∷ ps) (c ∷ cs) rest h = elim (Bool-cases (p == c)) [
  | inl e ↦
      ap_cons (sym ((==_iff p c).0 e)) (drop_prefix_sound ps cs rest (tail_of p c cs rest ps e h))
  | inr e ↦ absurd (ground (arith, h, e))
]

pub drop_prefix-append : (p rest : Bytes) → drop_prefix p (p ++ rest) ≡ some rest
unfolding drop_prefix
drop_prefix-append [] rest = refl
drop_prefix-append (p ∷ ps) rest = ground (arith, drop_prefix-append ps rest)

-- a text of slashes, one at least if something follows, and the text behind them
abbrev pub IsPath : (text path : Bytes) → Type 0
IsPath text path = ((text ≡ []) × (path ≡ [])) ⊎ ((n : ℕ) × (text ≡ replicate (suc n) 47 ++ path))

pass_slashes_sound : (cs : Bytes) → (n : ℕ) × (cs ≡ replicate n 47 ++ pass_slashes cs)
unfolding pass_slashes
pass_slashes_sound [] = (0, refl)
pass_slashes_sound (c ∷ cs) = elim (Bool-cases (c == 47)) [
  | inl e ↦ rw e (let k = pass_slashes_sound cs in (suc k.0, ap_cons ((==_iff c 47).0 e) k.1))
  | inr e ↦ rw e (0, refl)
]

parse_path_delim_sound : (cs path : Bytes) → parse_path_delim cs ≡ some path → IsPath cs path
unfolding parse_path_delim
parse_path_delim_sound [] path h = inl (refl, ground (arith, h))
parse_path_delim_sound (c ∷ cs) path h = elim (Bool-cases (c == 47)) [
  | inl e ↦
      (let k = pass_slashes_sound cs in
        inr (
          k.0,
          ap_cons ((==_iff c 47).0 e)
              (k.1 ∙ ap (λ xs. replicate k.0 47 ++ xs) (passed c cs path e h)),
        ))
  | inr e ↦ absurd (ground (arith, h, e))
]
  where
    passed :
        (c : ℕ) (cs path : Bytes)
        → (c == 47) ≡ true
        → (if c == 47 then some (pass_slashes cs) else none) ≡ some path
        → pass_slashes cs ≡ path
    passed c cs path e h = ground (arith, h, e)

bind-some :
    {A B : Type 0} (a : Option A) (f : A → Option B) (b : B)
    → bind a f ≡ some b
    → (x : A) × (a ≡ some x) × (f x ≡ some b)
bind-some none f b h = absurd (ground (arith, h))
bind-some (some x) f b h = (x, refl, h)

-- the scheme of the address, with the slashes behind it
abbrev pub IsScheme : Bytes → Type 0
IsScheme scheme =
    (scheme ≡ [])
    ⊎ ((n : ℕ) × ((scheme ≡ codes "http:/" ++ replicate (suc n) 47)
          ⊎ (scheme ≡ codes "https:/" ++ replicate (suc n) 47)))

abbrev pub IsHost : Bytes → Type 0
IsHost host = (host ≡ codes "127.0.0.1") ⊎ (host ≡ codes "localhost")

-- the port, which may be left out if it is 80, and the path
abbrev pub IsPortAndPath : (port tail path : Bytes) → Type 0
IsPortAndPath port tail path =
    ((is_empty port ≡ true) × IsPath tail path)
    ⊎ ((text : Bytes) × (tail ≡ 58 ∷ port_text port ++ text) × IsPath text path)

abbrev pub IsSelf : (port address path : Bytes) → Type 0
IsSelf port address path =
    (scheme : Bytes) × (host : Bytes) × (tail : Bytes) × (address ≡ scheme ++ (host ++ tail))
    × IsScheme scheme
    × IsHost host
    × IsPortAndPath port tail path

parse_port_sound :
    (cs port path : Bytes) → parse_port cs port ≡ some path → IsPortAndPath port cs path
unfolding parse_port
parse_port_sound [] port path h = elim (Bool-cases (is_empty port)) [
  | inl e ↦ inl (e, parse_path_delim_sound [] path (ground (arith, h, e)))
  | inr e ↦ absurd (ground (arith, h, e))
]
parse_port_sound (c ∷ cs) port path h = elim (Bool-cases (c == 47)) [
  | inl e ↦ elim (Bool-cases (is_empty port)) [
    | inl f ↦ inl (f, parse_path_delim_sound (c ∷ cs) path (ground (arith, h, e, f)))
    | inr f ↦ absurd (ground (arith, h, e, f))
  ]
  | inr e ↦ elim (Bool-cases (c == 58)) [
    | inl f ↦
        (let k =
            bind-some (drop_prefix (port_text port) cs) parse_path_delim path
              (ground (arith, h, e, f)) in
          inr (
            k.0,
            ap_cons ((==_iff c 58).0 f) (drop_prefix_sound (port_text port) cs k.0 k.1),
            parse_path_delim_sound k.0 path k.2,
          ))
    | inr f ↦ absurd (ground (arith, h, e, f))
  ]
]

or_else_sound :
    {A : Type 0} (a b : Option A) (x : A) → or_else a b ≡ some x → (a ≡ some x) ⊎ (b ≡ some x)
or_else_sound none b x h = inr h
or_else_sound (some a) b x h = inl h

or_else-IsHost :
    (cs tail : Bytes)
    → or_else (drop_prefix (codes "127.0.0.1") cs) (drop_prefix (codes "localhost") cs) ≡ some tail
    → (host : Bytes) × (cs ≡ host ++ tail) × IsHost host
or_else-IsHost cs tail h = elim (or_else_sound _ _ tail h) [
  | inl e ↦ (codes "127.0.0.1", drop_prefix_sound (codes "127.0.0.1") cs tail e, inl refl)
  | inr e ↦ (codes "localhost", drop_prefix_sound (codes "localhost") cs tail e, inr refl)
]

behind_scheme_sound :
    (http https : Option Bytes) (cs rest : Bytes)
    → drop_prefix (codes "http:/") cs ≡ http
    → drop_prefix (codes "https:/") cs ≡ https
    → behind_scheme http https cs ≡ some rest
    → (rest ≡ []) ⊎ ((scheme : Bytes) × (cs ≡ scheme ++ rest) × IsScheme scheme)
unfolding behind_scheme
behind_scheme_sound (some x) https cs rest e f h = elim (parse_path_delim_sound x rest h) [
  | inl k ↦ inl k.1
  | inr k ↦ inr (
    codes "http:/" ++ replicate (suc k.0) 47,
    drop_prefix_sound (codes "http:/") cs x e ∙ ap (λ xs. codes "http:/" ++ xs) k.1,
    inr (k.0, inl refl),
  )
]
behind_scheme_sound none (some x) cs rest e f h = elim (parse_path_delim_sound x rest h) [
  | inl k ↦ inl k.1
  | inr k ↦ inr (
    codes "https:/" ++ replicate (suc k.0) 47,
    drop_prefix_sound (codes "https:/") cs x f ∙ ap (λ xs. codes "https:/" ++ xs) k.1,
    inr (k.0, inr refl),
  )
]
behind_scheme_sound none none cs rest e f h = inr ([], ground (arith, h), inl refl)

nil-is_cons : (x : ℕ) (xs : Bytes) → [] ≡ x ∷ xs → ⊥
nil-is_cons x xs h = ground (arith, h)

host-nonempty : (host tail : Bytes) → IsHost host → [] ≡ host ++ tail → ⊥
host-nonempty host tail (inl e) h = absurd (nil-is_cons _ _ (subst (λ x. [] ≡ x ++ tail) e h))
host-nonempty host tail (inr e) h = absurd (nil-is_cons _ _ (subst (λ x. [] ≡ x ++ tail) e h))

-- An address that is taken for this service is a scheme, which may be left out, a name of the local
-- host, the port, which may be left out if it is 80, and slashes with the path that is returned.
pub path_to_self-IsSelf :
    (port address path : Bytes) → path_to_self port address ≡ some path → IsSelf port address path
unfolding path_to_self parse_local_host
path_to_self-IsSelf port address path h =
    let a = bind-some (parse_local_host address) (λ ai. parse_port ai port) path h in
    let b =
      bind-some
        (behind_scheme (drop_prefix (codes "http:/") address)
          (drop_prefix (codes "https:/") address) address)
        _ a.0 a.1 in
    let c = or_else-IsHost b.0 a.0 b.2 in
    elim (behind_scheme_sound _ _ address b.0 refl refl b.1) [
      | inl e ↦ absurd (host-nonempty c.0 a.0 c.2 (sym e ∙ c.1))
      | inr d ↦ (
        d.0,
        c.0,
        a.0,
        d.1 ∙ ap (λ xs. d.0 ++ xs) c.1,
        d.2,
        c.2,
        parse_port_sound a.0 port path a.2,
      )
    ]
