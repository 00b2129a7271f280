-- ===== src/Request/GivesBack.antt =====
-- The transaction of a request and the pool: `complete` (src/webrequest/webRequestContext.cpp) with
-- `returnTransaction` and `fetchTransaction` (src/webrequest/transaction.cpp).
use strus_bindings.Base.{
  ℕ, ◌^◌, ◌<◌, ◌≡◌, ◌⊎◌, inl, inr, refl, sym, ap, subst, ◌∙◌, Bool, true, false, Option, none, some,
  if◌then◌else◌, arith,
}
use strus_bindings.Base.Action.{
  ◌>>=◌, return, with_state, modify, go_on, Ends, Ends-bind, Ends-mono, Ends-recover,
}
use strus_bindings.Base.Int.{pos}
use strus_bindings.Base.Result.{Result, ok, err}
use strus_bindings.Config.Handler.{ConfigurationTransaction}
use strus_bindings.Transaction.Id.{transaction_id}
use strus_bindings.Transaction.Lifecycle.{fetch_transaction-return, return_transaction-fails}
use strus_bindings.Transaction.Operations.{set_slot, fetch_transaction, return_transaction}
use strus_bindings.Transaction.Pool.{Error, return_failed, undefined_behaviour, Transaction, Pool}
use strus_bindings.Transaction.System.{System, SystemInv}
use strus_bindings.WebRequest.ErrorCode.{ErrorCode}
use strus_bindings.Request.State.{
  RequestType, undefined_request, schema_description_request, method_options_request,
  load_main_configuration, load_embedded_configuration, object_request,
  interrupted_load_configuration_request, Exception, bad_alloc, runtime_error, uncaught,
  no_behaviour, Papuga, Request, Step, set_answer, fail, to_exception, after_pool, of_pool, release,
}
use strus_bindings.Request.Transact.{Calls}
use strus_bindings.Request.Execute.{is_ok, Handlers, answer_exception, and_then}
use strus_bindings.Request.Complete.{
  transfer_if_defined, complete_result, complete_type, complete_if_ok, give_back, try_complete,
  complete,
}

-- the pool gives the transaction to who asks for its id
abbrev pub IsFound : Transaction ℕ → Pool ℕ → Type 0
IsFound tr q =
    (i : ℕ) × (fetch_transaction (transaction_id tr.tidx) q ≡ (ok (some tr), set_slot i none q))

module _ (p : Papuga) where
  -- The request has the transaction, and the pool is a given one.
  abbrev pub Kept : Transaction ℕ → (pooled : Bool) → Pool ℕ → Request p → Type 0
  Kept tr b q s = (s.transaction_ref ≡ some tr) × (s.pooled ≡ b) × (s.pool ≡ q)

  abbrev pub Keeps : {A : Type 0} → Step p A → Type 0
  Keeps m =
      (tr : Transaction ℕ) (b : Bool) (q : Pool ℕ) (s : Request p)
      → Kept tr b q s
      → Ends (λ _. Kept tr b q) (λ _ _. ⊥) (m s)

  -- `returnTransaction` finds no free slot
  abbrev pub NoSlot : Transaction ℕ → Pool ℕ → Type 0
  NoSlot tr q = (return_transaction tr q).0 ≡ err return_failed

  -- what is thrown on the way to the pool, and why
  abbrev pub Failed : (why : Type 0) → Exception → Request p → Type 0
  Failed why e s = ((e ≡ runtime_error) × why) ⊎ (e ≡ no_behaviour)

  fail-Keeps : (e : ErrorCode) → Keeps (fail p e)
  unfolding fail set_answer
  fail-Keeps e tr b q s k = k

  module _ (calls : Calls p) (h : Handlers p) where
    -- The parts of a request that run after its execution leave its transaction and the pool alone.
    pub record Quiet : Type 0 where
      pub results : Keeps h.get_content_request_result
      pub transfers : Keeps h.transfer_context
      pub messages : Keeps h.fetch_context_info_messages

    module _ (quiet : Quiet) where
      transfer-Keeps :
          (t : Option ConfigurationTransaction) → Keeps (transfer_if_defined p calls h t)
      unfolding transfer_if_defined
      transfer-Keeps none tr b q s k = k
      transfer-Keeps (some t) tr b q s k = quiet.transfers tr b q s k

      result-Keeps : Keeps (complete_result p calls h)
      unfolding complete_result and_then
      result-Keeps tr b q s k =
          Ends-bind (λ _. Kept tr b q) (λ _. Kept tr b q) (λ _ _. ⊥)
            (h.get_content_request_result s)
            (λ c.
              if c
              then with_state (λ s1. transfer_if_defined p calls h s1.config_transaction)
              else return false)
            (quiet.results tr b q s k) continue
        where
          continue :
              (c : Bool) (s1 : Request p)
              → Kept tr b q s1
              → Ends
                  (λ _. Kept tr b q)
                  (λ _ _. ⊥)
                  ((if c
                      then with_state (λ s2. transfer_if_defined p calls h s2.config_transaction)
                      else return false)
                    s1)
          continue true s1 k1 = transfer-Keeps s1.config_transaction tr b q s1 k1
          continue false s1 k1 = k1

      type-Keeps : (t : RequestType) → Keeps (complete_type p calls h t)
      unfolding complete_type
      type-Keeps undefined_request = fail-Keeps ErrorCode.incomplete_request
      type-Keeps schema_description_request = quiet.results
      type-Keeps method_options_request = quiet.results
      type-Keeps load_main_configuration = quiet.transfers
      type-Keeps load_embedded_configuration = quiet.transfers
      type-Keeps object_request = result-Keeps
      type-Keeps interrupted_load_configuration_request = result-Keeps

      if_ok-Keeps : (b : Bool) → Keeps (complete_if_ok p calls h b)
      unfolding complete_if_ok
      if_ok-Keeps true tr b q s k = type-Keeps s.request_type tr b q s k
      if_ok-Keeps false tr b q s k = k

      -- the request refers to a transaction that the pool has too
      abbrev Given : Transaction ℕ → Request p → Type 0
      Given tr s = (q : Pool ℕ) × Kept tr true q s × IsFound tr q

      after_return :
          (why : Type 0) (tr : Transaction ℕ) (r : Result Error (Unit {0}) × Pool ℕ) (s : Request p)
          → s.transaction_ref ≡ some tr
          → ((q : Pool ℕ) → r ≡ (ok tt, q) → IsFound tr q)
          → ((e : Error) (q : Pool ℕ)
              → r ≡ (err e, q)
              → ((e ≡ return_failed) × why) ⊎ (e ≡ undefined_behaviour))
          → Ends
              (λ _. Given tr)
              (Failed why)
              (go_on (λ _. modify (λ s1. record s1 { pooled = true })) (after_pool p r s))
      unfolding after_pool to_exception
      after_return why tr (ok tt, q) s k f g = (q, (k, refl, refl), f q refl)
      after_return why tr (err e, q) s k f g = elim (g e q refl) [
        | inl x ↦ inl (rw (x.0) refl, x.1)
        | inr x ↦ inr (rw x refl)
      ]

      give_back-Given :
          (why : Type 0) (tr : Transaction ℕ) (o : Option (Transaction ℕ)) (s : Request p)
          → o ≡ some tr
          → s.transaction_ref ≡ some tr
          → ((q : Pool ℕ) → return_transaction tr s.pool ≡ (ok tt, q) → IsFound tr q)
          → ((e : Error) (q : Pool ℕ)
              → return_transaction tr s.pool ≡ (err e, q)
              → ((e ≡ return_failed) × why) ⊎ (e ≡ undefined_behaviour))
          → Ends (λ _. Given tr) (Failed why) (give_back p calls h o s)
      unfolding give_back of_pool
      give_back-Given why tr none s e k f g = absurd (ground (arith, e))
      give_back-Given why tr (some t) s e k f g =
          let same : t ≡ tr = ground (arith, e) in
          rw same (after_return why tr (return_transaction tr s.pool) s k f g)

      -- Whoever asks for the id finds the transaction once the request is over.
      abbrev pub Returned : Transaction ℕ → Request p → Type 0
      Returned tr s = IsFound tr (release p s.transaction_ref s.pooled s.pool)

      messages_after :
          (why : Type 0) (tr : Transaction ℕ) (rt : Bool) (s : Request p)
          → Given tr s
          → Ends
              (λ _. Returned tr)
              (Failed why)
              (◌>>=◌ h.fetch_context_info_messages (λ _. return rt) s)
      unfolding release
      messages_after why tr rt s (q, k, f) =
          Ends-bind (λ _. Kept tr true q) (λ _. Returned tr) (Failed why)
            (h.fetch_context_info_messages s) (λ _. return rt)
            (Ends-mono (λ _. Kept tr true q) (λ _. Kept tr true q) (λ _ _. ⊥) (Failed why)
              (h.fetch_context_info_messages s) (λ _ _ x. x) (λ _ _ x. absurd x)
              (quiet.messages tr true q s k))
            (λ _ s1 k1.
              subst (λ r. IsFound tr (release p r s1.pooled s1.pool)) (sym k1.0)
                (subst (λ b. IsFound tr (release p (some tr) b s1.pool)) (sym k1.1)
                  (subst (IsFound tr) (sym k1.2) f)))

      -- why a return fails, where it does not leave the behaviour open
      abbrev Refuses : Transaction ℕ → (q pool : Pool ℕ) → Type 0
      Refuses tr q z =
          (e : Error) (q1 : Pool ℕ)
          → return_transaction tr z ≡ (err e, q1)
          → ((e ≡ return_failed) × NoSlot tr q) ⊎ (e ≡ undefined_behaviour)

      refuses : (tr : Transaction ℕ) (q : Pool ℕ) → Refuses tr q q
      refuses tr q e q1 r = elim (return_transaction-fails tr q q1 e r) [
        | inl x ↦ inl (x, ap (λ z. z.0) r ∙ ap err x)
        | inr x ↦ inr x
      ]

      try_complete-Returned :
          (tr : Transaction ℕ) (q : Pool ℕ) (s : Request p)
          → Kept tr false q s
          → ((q1 : Pool ℕ) → return_transaction tr q ≡ (ok tt, q1) → IsFound tr q1)
          → Ends (λ _. Returned tr) (Failed (NoSlot tr q)) (try_complete p calls h s)
      unfolding try_complete
      try_complete-Returned tr q s k f =
          let give : Step p Unit = with_state (λ s1. give_back p calls h s1.transaction_ref) in
          let finish : Bool → Step p Bool =
            λ rt. ◌>>=◌ h.fetch_context_info_messages (λ _. return rt) in
          Ends-bind (λ _. Kept tr false q) (λ _. Returned tr) (Failed (NoSlot tr q))
            (complete_if_ok p calls h (is_ok s.answer.error) s) (λ rt. ◌>>=◌ give (λ _. finish rt))
            (Ends-mono (λ _. Kept tr false q) (λ _. Kept tr false q) (λ _ _. ⊥)
              (Failed (NoSlot tr q)) (complete_if_ok p calls h (is_ok s.answer.error) s)
              (λ _ _ x. x) (λ _ _ x. absurd x) (if_ok-Keeps (is_ok s.answer.error) tr false q s k))
            (λ rt s1 k1.
              Ends-bind (λ _. Given tr) (λ _. Returned tr) (Failed (NoSlot tr q)) (give s1)
                (λ _. finish rt)
                (give_back-Given (NoSlot tr q) tr s1.transaction_ref s1 k1.0 k1.0
                  (subst
                    (λ z. (q1 : Pool ℕ) → return_transaction tr z ≡ (ok tt, q1) → IsFound tr q1)
                    (sym k1.2) f)
                  (subst (Refuses tr q) (sym k1.2) (refuses tr q)))
                (λ _ s2 g. messages_after (NoSlot tr q) tr rt s2 g))

      -- `complete` returns false, and the answer has the error of an exception, which was thrown why
      abbrev pub Thrown : (why : Type 0) → Bool → Request p → Type 0
      Thrown why b s = (b ≡ false) × (s.answer.error ≡ some ErrorCode.runtime_error) × why

      answer_Failed :
          (why : Type 0) (tr : Transaction ℕ) (e : Exception) (s : Request p)
          → Failed why e s
          → Ends
              (λ b s1. Returned tr s1 ⊎ Thrown why b s1)
              (λ r _. r ≡ no_behaviour)
              (answer_exception p calls h e s)
      unfolding answer_exception fail set_answer
      answer_Failed why tr bad_alloc s f = elim f [
        | inl x ↦ absurd (ground (arith, x.0))
        | inr x ↦ absurd (ground (arith, x))
      ]
      answer_Failed why tr uncaught s f = elim f [
        | inl x ↦ absurd (ground (arith, x.0))
        | inr x ↦ absurd (ground (arith, x))
      ]
      answer_Failed why tr runtime_error s f = elim f [
        | inl x ↦ inr (refl, refl, x.1)
        | inr x ↦ absurd (ground (arith, x))
      ]
      answer_Failed why tr no_behaviour s f = refl

      -- A request that holds a transaction with a non-negative index, alone, as a client of a
      -- well-formed pool, gives it back, whatever the answer of its execution was, if what runs after
      -- the execution throws nothing and leaves the transaction and the pool alone: when the request
      -- is completed and destroyed, the transaction is found again under its id, unchanged, or
      -- `complete` returns false with a runtime error in the answer, since `returnTransaction` has
      -- found no free slot, or it has no defined behaviour.
      pub complete-Returned :
          (y : System ℕ) (c n : ℕ) (tr : Transaction ℕ) (s : Request p)
          → SystemInv y
          → y.held c ≡ some tr
          → tr.tidx ≡ pos n
          → n < 2 ^ 63
          → Kept tr false y.pool s
          → Ends
              (λ b s1. Returned tr s1 ⊎ Thrown (NoSlot tr y.pool) b s1)
              (λ r _. r ≡ no_behaviour)
              (complete p calls h s)
      unfolding complete
      complete-Returned y c n tr s v e i lt k =
          Ends-recover (λ b s1. Returned tr s1 ⊎ Thrown (NoSlot tr y.pool) b s1)
            (Failed (NoSlot tr y.pool)) (λ r _. r ≡ no_behaviour) (try_complete p calls h s)
            (answer_exception p calls h)
            (Ends-mono (λ _. Returned tr) (λ b s1. Returned tr s1 ⊎ Thrown (NoSlot tr y.pool) b s1)
              (Failed (NoSlot tr y.pool)) (Failed (NoSlot tr y.pool)) (try_complete p calls h s)
              (λ _ _. inl) (λ _ _ x. x)
              (try_complete-Returned tr y.pool s k
                (λ q r. fetch_transaction-return y c n tr q v e i lt r)))
            (answer_Failed (NoSlot tr y.pool) tr)
