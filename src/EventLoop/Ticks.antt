-- ===== src/EventLoop/Ticks.antt =====
-- How often `checkTick` (src/webrequest/curlEventLoop.cpp) calls the tickers.
use strus_bindings.Base.{
  ℕ, zero, suc, ◌+◌, ◌*◌, ◌<◌, ◌≡◌, inl, inr, refl, sym, subst, ◌∙◌, Bool, false, none, List, [],
  ◌∷◌, ◌++◌, ◌==◌, Bool-cases, arith,
}
use native.Mathlib.Nat.{mul-add}
use strus_bindings.Base.Action.{◌>>=◌, return, for_each, Ends, Ends-bind, Ends-for_each, Ends-mono}
use strus_bindings.EventLoop.State.{
  Exception, Event, call_ticker, put_answer, sent, delete, Outside, Loop, Act, raise, emit,
  put_count,
}
use strus_bindings.EventLoop.Thread.{tick, check_tick}
use strus_bindings.EventLoop.Account.{one_if, count_events, count_events-append}

abbrev pub is_tick : ℕ → Event → Bool
is_tick t (call_ticker u) = t == u
is_tick t (put_answer q a) = false
is_tick t (sent q) = false
is_tick t (delete q) = false

abbrev pub ticks : ℕ → List Event → ℕ
ticks t = count_events (is_tick t)

abbrev pub registered : ℕ → List ℕ → ℕ
registered t [] = 0
registered t (u ∷ us) = one_if (t == u) + registered t us

module _ (o : Outside) where
  -- No ticker throws.
  abbrev pub QuietTickers : Type 0
  QuietTickers = (tr : List Event) (t : ℕ) → o.answer_raises tr (call_ticker t) ≡ none

  abbrev pub repeat : ℕ → Act o Unit → Act o Unit
  repeat zero m = return tt
  repeat (suc k) m = ◌>>=◌ m (λ _. repeat k m)

  abbrev No : Exception → Loop o → Type 0
  No e s = ⊥

  emit-Ends :
      (P : Loop o → Type 0) (t : ℕ) (s : Loop o)
      → QuietTickers
      → P (record s { trace = s.trace ++ (call_ticker t ∷ []) })
      → Ends (λ _. P) No (emit o (call_ticker t) s)
  unfolding emit raise
  emit-Ends P t s quiet h =
      subst
        (λ e. Ends (λ _. P) No (raise o e (record s { trace = s.trace ++ (call_ticker t ∷ []) })))
        (sym (quiet s.trace t)) h

  -- what the ticks and the counter are after the calls, from the ones of the state `s`
  abbrev pub Ticked : (t count : ℕ) → (s s1 : Loop o) → Type 0
  Ticked t count s s1 =
      (s1.tickers ≡ s.tickers)
      × (s1.number_of_requests_before_tick ≡ s.number_of_requests_before_tick)
      × (s1.request_count ≡ count)
      × (ticks t s1.trace ≡ registered t s.tickers + ticks t s.trace)

  tick-Ends : (t : ℕ) (s : Loop o) → QuietTickers → Ends (λ _. Ticked t 0 s) No (tick o s)
  unfolding tick put_count
  tick-Ends t s quiet =
      let P : List ℕ → Loop o → Type 0 = λ us s1.
        (s1.tickers ≡ s.tickers)
        × (s1.number_of_requests_before_tick ≡ s.number_of_requests_before_tick)
        × (registered t us + ticks t s1.trace ≡ registered t s.tickers + ticks t s.trace) in
      Ends-bind (λ _. P []) (λ _. Ticked t 0 s) No
        (for_each (λ u. emit o (call_ticker u)) s.tickers s) (λ _. put_count o 0)
        (Ends-for_each P No (λ u. emit o (call_ticker u)) s.tickers s
          (λ u us s1 h. emit-Ends (P us) u s1 quiet (
            h.0,
            h.1,
            omega (arith, h.2, count_events-append (is_tick t) s1.trace (call_ticker u)),
          ))
          (refl, refl, refl))
        (λ _ s1 h. (h.0, h.1, refl, omega (arith, h.2)))

  -- the counter and the ticks after a number of calls that `n` of them led to
  abbrev pub Counted : (t k : ℕ) → (s s1 : Loop o) → ℕ → Type 0
  Counted t k s s1 n =
      (s1.tickers ≡ s.tickers)
      × (s1.number_of_requests_before_tick ≡ s.number_of_requests_before_tick)
      × (ticks t s1.trace ≡ registered t s.tickers * n + ticks t s.trace)
      × (s.request_count + k ≡ s.number_of_requests_before_tick * n + s1.request_count)
      × (s1.request_count < s.number_of_requests_before_tick)

  check_tick-Ends :
      (t : ℕ) (s : Loop o)
      → QuietTickers
      → s.request_count < s.number_of_requests_before_tick
      → Ends (λ _ s1. (n : ℕ) × Counted t 1 s s1 n) No (check_tick o s)
  unfolding check_tick put_count
  check_tick-Ends t s quiet l =
      elim (Bool-cases (suc s.request_count == s.number_of_requests_before_tick)) [
        | inl e ↦ rw e (
            Ends-mono (λ _. Ticked t 0 (record s { request_count = 0 }))
              (λ _ s1. (n : ℕ) × Counted t 1 s s1 n) No No (tick o (record s { request_count = 0 }))
              (λ _ s1 h. (
                1,
                (
                  h.0,
                  h.1,
                  omega (arith, h.3),
                  ground (arith, h.1, h.2, e),
                  ground (arith, h.1, h.2),
                ),
              ))
              (λ _ s1 h. h) (tick-Ends t (record s { request_count = 0 }) quiet))
        | inr e ↦ rw e (0, (refl, refl, omega arith, omega arith, ground (arith, e)))
      ]

  Counted-trans :
      (t k : ℕ) (s s1 s2 : Loop o) (n m : ℕ)
      → Counted t 1 s s1 n
      → Counted t k s1 s2 m
      → Counted t (suc k) s s2 (n + m)
  Counted-trans t k s s1 s2 n m h i = (
    i.0 ∙ h.0,
    i.1 ∙ h.1,
    rw (mul-add (registered t s.tickers) n m) (
        omega (
          arith,
          h.2,
          subst (λ us. ticks t s2.trace ≡ registered t us * m + ticks t s1.trace) h.0 i.2,
        )),
    rw (mul-add s.number_of_requests_before_tick n m)
        (omega (arith, h.3, subst (λ b. s1.request_count + k ≡ b * m + s2.request_count) h.1 i.3)),
    subst (λ b. s2.request_count < b) h.1 i.4,
  )

  -- If no ticker throws and the counter is below its limit, then after any number of calls of
  -- `checkTick` there have been `n` ticks, each a call of every ticker, where the counter and the
  -- calls are `n` times the limit and what the counter is then, which is below the limit.
  pub check_tick-Counted :
      (t k : ℕ) (s : Loop o)
      → QuietTickers
      → s.request_count < s.number_of_requests_before_tick
      → Ends (λ _ s1. (n : ℕ) × Counted t k s s1 n) (λ _ _. ⊥) (repeat k (check_tick o) s)
  check_tick-Counted t zero s quiet l = (0, (refl, refl, omega arith, omega arith, l))
  check_tick-Counted t (suc k) s quiet l =
      Ends-bind (λ _ s1. (n : ℕ) × Counted t 1 s s1 n) (λ _ s2. (n : ℕ) × Counted t (suc k) s s2 n)
        No (check_tick o s) (λ _. repeat k (check_tick o)) (check_tick-Ends t s quiet l)
        λ _ s1 h.
          Ends-mono (λ _ s2. (n : ℕ) × Counted t k s1 s2 n)
            (λ _ s2. (n : ℕ) × Counted t (suc k) s s2 n) No No (repeat k (check_tick o) s1)
            (λ _ s2 i. (h.0 + i.0, Counted-trans t k s s1 s2 h.0 i.0 h.1 i.1)) (λ _ s2 i. i)
            (check_tick-Counted t k s1 quiet (subst (λ b. s1.request_count < b) (sym h.1.1) h.1.4))
