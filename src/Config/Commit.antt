-- ===== src/Config/Commit.antt =====
-- Commits of configurations and the map of context names (src/webrequest/configurationHandler.cpp).
use strus_bindings.Base.{
  ℕ, zero, suc, ◌≡◌, refl, ◌∙◌, Bool, true, false, none, some, [], ◌∷◌, eq_bytes_iff, eq_bytes_refl,
  arith, inl, inr, Bool-cases,
}
use strus_bindings.Base.Result.{Result, ok, err}
use strus_bindings.Config.ContextMap.{
  ContextNameDef, ContextNameMap, lt_def, eq_def, find, insert, erase, assign,
}
use strus_bindings.Config.Handler.{FileSystem, ConfigurationTransaction, Failure, failed, set_map}
use strus_bindings.Config.Storage.{World, update_map, renamed, commit_store_configuration}

eq_def_refl : (k : ContextNameDef) → eq_def k k ≡ true
unfolding eq_def
eq_def_refl k = ground (arith, eq_bytes_refl k.context_type, eq_bytes_refl k.context_name)

-- The first key of the three is not the second one if it is not the third one, which is the second.
eq_def_other :
    (j k l : ContextNameDef) → eq_def k l ≡ true → eq_def j k ≡ false → eq_def j l ≡ false
unfolding eq_def
eq_def_other j k l h n = ground (
  arith,
  eq_bytes_iff j.context_type k.context_type,
  eq_bytes_iff j.context_name k.context_name,
  eq_bytes_iff k.context_type l.context_type,
  eq_bytes_iff k.context_name l.context_name,
  eq_bytes_iff j.context_type l.context_type,
  eq_bytes_iff j.context_name l.context_name,
)

find-erase : (k : ContextNameDef) (m : ContextNameMap) → find k (erase k m) ≡ none
unfolding find erase
find-erase k [] = refl
find-erase k ((l, w) ∷ m) = elim (Bool-cases (eq_def k l)) [
  | inl e ↦ rw e (find-erase k m)
  | inr e ↦ rw e (rw e (find-erase k m))
]

find-erase_other :
    (j k : ContextNameDef) (m : ContextNameMap) → eq_def j k ≡ false → find j (erase k m) ≡ find j m
unfolding find erase
find-erase_other j k [] h = refl
find-erase_other j k ((l, w) ∷ m) h = elim (Bool-cases (eq_def k l)) [
  | inl e ↦ rw e (rw (eq_def_other j k l e h) (find-erase_other j k m h))
  | inr e ↦ rw e (elim (Bool-cases (eq_def j l)) [
    | inl f ↦ rw f refl
    | inr f ↦ rw f (find-erase_other j k m h)
  ])
]

find-assign : (k : ContextNameDef) (v : Bool) (m : ContextNameMap) → find k (assign k v m) ≡ some v
unfolding find assign
find-assign k v [] = rw (eq_def_refl k) refl
find-assign k v ((l, w) ∷ m) = elim (Bool-cases (eq_def k l)) [
  | inl e ↦ rw e (rw e refl)
  | inr e ↦ rw e (rw e (find-assign k v m))
]

find-assign_other :
    (j k : ContextNameDef) (v : Bool) (m : ContextNameMap)
    → eq_def j k ≡ false
    → find j (assign k v m) ≡ find j m
unfolding find assign
find-assign_other j k v [] h = rw h refl
find-assign_other j k v ((l, w) ∷ m) h = elim (Bool-cases (eq_def k l)) [
  | inl e ↦ rw e (rw (eq_def_other j k l e h) refl)
  | inr e ↦ rw e (elim (Bool-cases (eq_def j l)) [
    | inl f ↦ rw f refl
    | inr f ↦ rw f (find-assign_other j k v m h)
  ])
]

find-insert_other :
    (j k : ContextNameDef) (v : Bool) (m : ContextNameMap)
    → eq_def j k ≡ false
    → find j (insert k v m) ≡ find j m
unfolding find insert
find-insert_other j k v [] h = rw h refl
find-insert_other j k v ((l, w) ∷ m) h = elim (Bool-cases (eq_def k l)) [
  | inl e ↦ rw e refl
  | inr e ↦ elim (Bool-cases (lt_def k l)) [
    | inl f ↦ rw e (rw f (rw h refl))
    | inr f ↦ rw e (
        rw f (elim (Bool-cases (eq_def j l)) [
          | inl g ↦ rw g refl
          | inr g ↦ rw g (find-insert_other j k v m h)
        ]))
  ]
]

module _ (fs : FileSystem) where
  open fs use {Store, rename_file}

  abbrev key : ConfigurationTransaction → ContextNameDef
  key t = record { context_type = t.type; context_name = t.name }

  abbrev map_of : World fs → ContextNameMap
  map_of w = w.handler.context_name_map

  -- What a commit answers and leaves, for each result of the renaming.
  abbrev pub Committed :
      ConfigurationTransaction → World fs → Result Failure Unit × World fs → ℕ → Type 0
  Committed t w r zero = (r.0 ≡ ok tt) × (find (key t) (map_of r.1) ≡ some true)
  Committed t w r (suc ec) = (r.0 ≡ err (failed (suc ec))) × (find (key t) (map_of r.1) ≡ none)

  renamed-Committed :
      (t : ConfigurationTransaction) (w : World fs) (code : ℕ) (s : Store)
      → Committed t w (renamed fs (key t) (code, s) w) code
  unfolding renamed update_map set_map
  renamed-Committed t w zero s = (refl, find-assign (key t) true (map_of w))
  renamed-Committed t w (suc ec) s = (refl, find-erase (key t) (map_of w))

  renamed_other :
      (j k : ContextNameDef) (w : World fs) (code : ℕ) (s : Store)
      → eq_def j k ≡ false
      → find j (map_of (renamed fs k (code, s) w).1) ≡ find j (map_of w)
  unfolding renamed update_map set_map
  renamed_other j k w zero s h = find-assign_other j k true (map_of w) h
  renamed_other j k w (suc ec) s h = find-erase_other j k (map_of w) h

  -- A commit whose renaming succeeds leaves the context as a stored one. A commit whose renaming
  -- fails throws the code of the renaming, and the context is unknown afterwards, also where it was
  -- a stored one before. No other context changes.
  pub commit_store_configuration-Committed :
      (t : ConfigurationTransaction) (w : World fs)
      → let r = commit_store_configuration fs t w in
        Committed t w r (rename_file t.failed_filename t.filename w.store).0
        × ((j : ContextNameDef)
            → eq_def j (key t) ≡ false
            → find j (map_of r.1) ≡ find j (map_of w))
  unfolding commit_store_configuration update_map set_map
  commit_store_configuration-Committed t w =
      let w1 : World fs = record w {
        handler = set_map (insert (key t) false w.handler.context_name_map) w.handler;
      } in
      let result = rename_file t.failed_filename t.filename w.store in
      (
        renamed-Committed t w1 result.0 result.1,
        λ j h.
            renamed_other j (key t) w1 result.0 result.1 h
            ∙ find-insert_other j (key t) false (map_of w) h,
      )
