-- ===== src/WebRequest/AcceptTermination.antt =====
-- The loops of `parseAccept` (src/webrequest/webRequestUtils.cpp) end, and stay in their buffers.
use strus_bindings.Base.{
  ℕ, zero, suc, ◌<◌, ◌≤◌, ◌≡◌, refl, ap, Bool, Option, none, some, [], ◌∷◌, ◌==◌, Bytes, length,
  arith, ◌⊎◌, inl, inr, Bool-cases,
}
use strus_bindings.Base.Result.{Result}
use strus_bindings.WebRequest.Content.{Fault}
use strus_bindings.WebRequest.Scanning.{Ensures, bind-Ensures}
use strus_bindings.WebRequest.Rounds.{
  Assigns, parse_assignment-Ensures, length-drop_char, IsSemicolon, Stops, Fits, Itemised,
  items-Ensures, Kept, assign-Ensures,
}
use strus_bindings.WebRequest.Accept.{
  Weights, Accepting, drop_char, parse_assignment, items, assign, assign_parameter, parameters,
  after_items, group, groups,
}

shorter_lt : (r r1 : Bytes) (fuel : ℕ) → length r < fuel → Stops r r1 → length r1 < fuel
shorter_lt r r1 fuel h (inl lt) = omega arith
shorter_lt r r1 fuel h (inr (le, semi)) = omega arith

shorter_le :
    (r r1 : Bytes) (n : ℕ)
    → length r ≤ suc n
    → Stops r r1
    → (length r1 ≤ n) ⊎ ((length r1 ≤ suc n) × IsSemicolon r1)
shorter_le r r1 n h (inl lt) = inl (omega arith)
shorter_le r r1 n h (inr (le, semi)) = inr (omega arith, semi)

module _ (ws : Weights) where
  -- The state fits, and no more is left than `n` bytes.
  abbrev Left : ℕ → Accepting ws → Type 0
  Left n s = Fits ws s × (length s.rest ≤ n)

  Fits-rest : (s : Accepting ws) (rest : Bytes) → Fits ws s → Fits ws (record s { rest = rest })
  Fits-rest s rest f = record { in_strbuf = f.in_strbuf; in_elembuf = f.in_elembuf }

  assign_parameter-Ensures :
      (n fuel : ℕ) (again : ℕ → Accepting ws → Result Fault (Accepting ws)) (from : ℕ)
      (s : Accepting ws) (o : Option (Bytes × Bytes × Bytes))
      → Fits ws s
      → length s.rest < suc fuel
      → length s.rest ≤ n
      → Assigns s.rest o
      → ((k : ℕ) (q : Accepting ws)
          → Fits ws q
          → length q.rest < fuel
          → length q.rest ≤ n
          → Ensures (Left n) (again k q))
      → Ensures (Left n) (assign_parameter ws again from s o)
  unfolding assign_parameter
  assign_parameter-Ensures n fuel again from s none f lt le a h = (f, le)
  assign_parameter-Ensures n fuel again from s (some (key, value, rest)) f lt le a h =
      let s0 = record s { rest = rest } in
      bind-Ensures (Kept ws s0) (Left n) (assign ws key value from s0) _
        (assign-Ensures ws key value from s0 (Fits-rest s rest f))
        λ t k.
          let short = length-drop_char b';' t.1.rest in
          h t.0 (record t.1 { rest = drop_char b';' t.1.rest })
            (Fits-rest t.1 (drop_char b';' t.1.rest) k.0) (omega (arith, ap length k.1, short))
            (omega (arith, ap length k.1, short))

  parameters-Ensures :
      (n fuel from : ℕ) (s : Accepting ws)
      → Fits ws s
      → length s.rest < fuel
      → length s.rest ≤ n
      → Ensures (Left n) (parameters ws fuel from s)
  unfolding parameters
  parameters-Ensures n zero from s f lt le = absurd (omega arith)
  parameters-Ensures n (suc fuel) from s f lt le =
      bind-Ensures (Assigns s.rest) (Left n) (parse_assignment s.rest) _
        (parse_assignment-Ensures s.rest)
        λ o a.
          assign_parameter-Ensures n fuel (parameters ws fuel) from s o f lt le a
            (λ k q f' lt' le'. parameters-Ensures n fuel k q f' lt' le')

  after_items-Ensures :
      (n fuel from : ℕ) (rest : Bytes) (s : Accepting ws)
      → Fits ws s
      → s.rest ≡ rest
      → length rest < fuel
      → (length rest ≤ n) ⊎ ((length rest ≤ suc n) × IsSemicolon rest)
      → Ensures (Left n) (after_items ws fuel from rest s)
  unfolding after_items
  after_items-Ensures n fuel from [] s f e lt d = (f, rw e (omega arith))
  after_items-Ensures n fuel from (c ∷ cs) s f e lt d = elim (Bool-cases (c == b';')) [
    | inl semi ↦ rw semi (
        parameters-Ensures n fuel from (record s { rest = cs }) (Fits-rest s cs f) (omega arith)
          (ground arith))
    | inr more ↦ rw more (f, rw e (ground arith))
  ]

  group-Ensures :
      (fuel : ℕ) (upcase : Bool) (s : Accepting ws) (n : ℕ)
      → length s.rest < fuel
      → length s.rest ≤ suc n
      → Ensures (Left n) (group ws fuel upcase s)
  unfolding group
  group-Ensures fuel upcase s n lt le =
      bind-Ensures (Itemised ws s.rest) (Left n) (items ws fuel upcase none s) _
        (items-Ensures ws fuel upcase none s lt)
        λ s1 i.
          bind-Ensures (Left n) (Left n) (after_items ws fuel (length s.elems) s1.rest s1) _
            (after_items-Ensures n fuel (length s.elems) s1.rest s1 i.0 refl
              (shorter_lt s.rest s1.rest fuel lt i.1) (shorter_le s.rest s1.rest n le i.1))
            λ s2 l. (
              Fits-rest s2 (drop_char b',' s2.rest) l.0,
              omega (arith, l.1, length-drop_char b',' s2.rest),
            )

  groups-Ensures :
      (fuel : ℕ) (upcase : Bool) (s : Accepting ws)
      → Fits ws s
      → length s.rest ≤ fuel
      → Ensures (Fits ws) (groups ws fuel upcase s)
  unfolding groups
  groups-Ensures zero upcase s f h = elim (Bool-cases (length s.rest == 0)) [
    | inl e ↦ rw e f
    | inr e ↦ absurd (ground arith)
  ]
  groups-Ensures (suc fuel) upcase s f h = elim (Bool-cases (length s.rest == 0)) [
    | inl e ↦ rw e f
    | inr e ↦ rw e (
        bind-Ensures (Left fuel) (Fits ws) (group ws (suc (length s.rest)) upcase s) _
          (group-Ensures (suc (length s.rest)) upcase s fuel (omega arith) h)
          λ q l. groups-Ensures fuel upcase q l.0 l.1)
  ]

  -- `parseAccept` ends on every header: the rounds of its loops are as many as the header has bytes,
  -- and where it does not throw, all that it wrote lies in its two buffers.
  pub groups_end :
      (upcase : Bool) (header : Bytes)
      → Ensures
          (Fits ws)
          (groups ws (length header) upcase (record { rest = header; strbufpos = 0; elems = [] }))
  groups_end upcase header =
      groups-Ensures (length header) upcase (record { rest = header; strbufpos = 0; elems = [] })
        (record { in_strbuf = omega arith; in_elembuf = omega arith }) (omega arith)
