-- ===== src/Request/Addressed.antt =====
-- The address of a transaction: a request for its id, with `initRequestObject`
-- (src/webrequest/webRequestContext_obj.cpp) and `fetchTransaction` (src/webrequest/transaction.cpp).
pub mod Posts
use strus_bindings.Base.{
  ℕ, suc, ◌^◌, ◌<◌, ◌==◌, ◌≡◌, refl, sym, ap, subst, ◌∙◌, Bool, true, false, Option, none, some,
  List, [], ◌∷◌, ◌++◌, if◌then◌else◌, Bytes, codes, eq_bytes, Without, arith,
}
use strus_bindings.Base.Action.{◌>>=◌, go_on, Ends, Ends-bind, Ends-mono}
use strus_bindings.Base.Int.{ℤ, pos}
use strus_bindings.Base.Result.{Result, ok, err}
use strus_bindings.Transaction.Id.{transaction_id}
use strus_bindings.Transaction.Id.Digits.{transaction_id-Without, transaction_id-cons}
use strus_bindings.Transaction.Invariant.{Clients, Inv}
use strus_bindings.Transaction.Lifecycle.{fetch_transaction-create, to_id-ok}
use strus_bindings.Transaction.Operations.{fetch_transaction, create_transaction, new_transaction}
use strus_bindings.Transaction.Pool.{Error, Transaction, Pool, reserve, taken}
use strus_bindings.WebRequest.ErrorCode.{ErrorCode}
use strus_bindings.WebRequest.PathBuf.{
  PathBuf, slash, skip_slashes, take_name, step_over, next_of, get_next, equals_name, starts_with,
}
use strus_bindings.Request.State.{
  Exception, Papuga, Request, Step, set_answer, fail, set_http_status, next_name, after_pool,
  of_pool, release, reset_transaction, reset_request_object,
}
use strus_bindings.Request.Object.{
  set_obj, resolved, open_transaction, fetch_by_name, transaction_named, init_transaction_object,
  init_configured_object, init_by_path, init_request_object,
}
use strus_bindings.Request.Transact.{
  Calls, answer_transaction, store_transaction, post_by, post_class, execute_post_transaction,
}

skip_slashes-Without : (cs : Bytes) → Without slash cs → skip_slashes cs ≡ cs
unfolding skip_slashes
skip_slashes-Without [] h = refl
skip_slashes-Without (c ∷ cs) h = rw h.0 refl

take_name-Without : (cs : Bytes) → Without slash cs → take_name cs ≡ (cs, none)
unfolding take_name
take_name-Without [] h = refl
take_name-Without (c ∷ cs) h = rw h.0 (rw (take_name-Without cs h.1) refl)

abbrev pub path_of : Bytes → PathBuf
path_of tid = record { before = []; rest = codes "transaction/" ++ tid }

second_name :
    (c : ℕ) (cs : Bytes)
    → Without slash (c ∷ cs)
    → (get_next (get_next (path_of (c ∷ cs))).1).0 ≡ some (c ∷ cs)
unfolding get_next next_of take_name step_over
second_name c cs h =
    rw (skip_slashes-Without (c ∷ cs) h) (rw (take_name-Without cs h.1) (rw h.0 refl))

module _ (p : Papuga) where
  -- A request has the transaction of a context, with its type.
  abbrev pub Serves : (context : ℕ) → (context_type : Bytes) → Request p → Type 0
  Serves c type s =
      (tr : Transaction ℕ) × (s.transaction_ref ≡ some tr)
      × (tr.context ≡ c)
      × (tr.context_type ≡ type)
      × (s.context ≡ some c)
      × (s.context_type ≡ some type)

  resolved-Serves :
      (c : ℕ) (type : Bytes) (o : Option p.Obj) (s : Request p)
      → Serves c type s
      → Serves c type (resolved p o s).1
  unfolding resolved fail set_answer
  resolved-Serves c type none s h = h
  resolved-Serves c type (some o) s h = h

  opened-Serves :
      (tr : Transaction ℕ) (s : Request p)
      → Serves tr.context tr.context_type (open_transaction p (some tr) s).1
  unfolding open_transaction set_obj
  opened-Serves tr s =
      resolved-Serves tr.context tr.context_type
        (p.get_variable tr.context (codes "transaction") s.world) _
        (tr, refl, refl, refl, refl, refl)

  fetched-Serves :
      (tid : Bytes) (tr : Transaction ℕ) (name : Option Bytes) (q q1 : Pool ℕ) (s : Request p)
      → name ≡ some tid
      → s.pool ≡ q
      → fetch_transaction tid q ≡ (ok (some tr), q1)
      → Serves tr.context tr.context_type (fetch_by_name p name s).1
  unfolding fetch_by_name of_pool after_pool
  fetched-Serves tid tr name q q1 s e k f =
      let found : fetch_transaction tid s.pool ≡ (ok (some tr), q1) =
        ap (fetch_transaction tid) k ∙ f in
      subst (λ n. Serves tr.context tr.context_type (fetch_by_name p n s).1) (sym e)
        (subst
          (λ r. Serves tr.context tr.context_type (go_on (open_transaction p) (after_pool p r s)).1)
          (sym found) (opened-Serves tr (record s { pool = q1 })))

  by_path-Serves :
      (c : ℕ) (cs : Bytes) (tr : Transaction ℕ) (q q1 : Pool ℕ) (s : Request p)
      → Without slash (c ∷ cs)
      → s.path ≡ path_of (c ∷ cs)
      → s.pool ≡ q
      → fetch_transaction (c ∷ cs) q ≡ (ok (some tr), q1)
      → Serves tr.context tr.context_type (init_by_path p s).1
  unfolding init_by_path init_transaction_object transaction_named next_name starts_with take_name
      equals_name eq_bytes
  by_path-Serves c cs tr q q1 s w e k f =
      let named = ap (λ z. (get_next (get_next z).1).0) e ∙ second_name c cs w in
      let start : starts_with (codes "transaction") 11 s.path ≡ true =
        ap (starts_with (codes "transaction") 11) e ∙ refl in
      subst
        (λ b.
          Serves tr.context tr.context_type
            ((if b then init_transaction_object p else init_configured_object p) s).1)
        (sym start) (fetched-Serves (c ∷ cs) tr _ q q1 _ named k f)

  pub request_object-Serves :
      (tid : Bytes) (tr : Transaction ℕ) (q q1 : Pool ℕ) (s : Request p)
      → (c : ℕ) × (cs : Bytes) × (tid ≡ c ∷ cs)
      → Without slash tid
      → fetch_transaction tid q ≡ (ok (some tr), q1)
      → s.pool ≡ q
      → s.transaction_ref ≡ none
      → s.path ≡ path_of tid
      → Serves tr.context tr.context_type (init_request_object p s).1
  unfolding init_request_object reset_request_object reset_transaction release
  request_object-Serves tid tr q q1 s (c, cs, e) w f k r path =
      let pool : release p s.transaction_ref s.pooled s.pool ≡ q =
        ap (λ z. release p z s.pooled s.pool) r ∙ k in
      by_path-Serves c cs tr q q1 _ (subst (Without slash) e w) (path ∙ ap path_of e) pool
        (ap (λ z. fetch_transaction z q) (sym e) ∙ f)
