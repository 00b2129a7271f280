-- ===== src/Request/Addressed/Posts.antt =====
-- The address that a POST of a transaction gives (src/webrequest/webRequestContext_obj.cpp), with
-- `createTransaction` (src/webrequest/transaction.cpp).
use strus_bindings.Base.{
  ℕ, suc, ◌^◌, ◌<◌, ◌≡◌, refl, sym, subst, ◌∙◌, Bool, true, false, Option, none, some, [], ◌∷◌,
  ◌++◌, Bytes, codes, Without,
}
use strus_bindings.Base.Action.{go_on, Ends, Ends-bind, Ends-mono}
use strus_bindings.Base.Int.{ℤ, pos}
use strus_bindings.Base.Result.{Result, ok, err}
use strus_bindings.Transaction.Id.{transaction_id}
use strus_bindings.Transaction.Id.Digits.{transaction_id-Without, transaction_id-cons}
use strus_bindings.Transaction.Invariant.{Clients, Inv}
use strus_bindings.Transaction.Lifecycle.{fetch_transaction-create, to_id-ok}
use strus_bindings.Transaction.Operations.{create_transaction, new_transaction}
use strus_bindings.Transaction.Pool.{Error, Pool, reserve, taken}
use strus_bindings.WebRequest.PathBuf.{slash}
use strus_bindings.Request.State.{
  Exception, Papuga, Request, set_answer, fail, set_http_status, after_pool, of_pool,
}
use strus_bindings.Request.Object.{init_request_object}
use strus_bindings.Request.Transact.{
  CallResult, failed, returned, defined, to_variable, call_to_variable, Calls, answer_transaction,
  store_transaction, post_by, post_class, execute_post_transaction,
}
use strus_bindings.Request.Addressed.{path_of, Serves, request_object-Serves}

module _ (p : Papuga) where
  module _ (Linked : (id : Bytes) → Request p → Type 0) where
    abbrev pub LinkedIf : Bool → Bytes → Request p → Type 0
    LinkedIf true id s = Linked id s
    LinkedIf false id s = Unit

    abbrev pub Any : Exception → Request p → Type 0
    Any e s = Unit

    -- The calls of methods and the links of answers leave the pool alone, and a link that has been
    -- set is in the answer.
    pub record Links (calls : Calls p) : Type 0 where
      pub methods :
          (o : p.Obj) (m : p.Method) (path : Bytes) (x : p.Content) (s : Request p)
          → Ends (λ _ s1. s1.pool ≡ s.pool) Any (calls.call_method o m path x s)
      pub variables :
          (c : ℕ) (name : Bytes) (v : p.Value) (s : Request p)
          → Ends (λ _ s1. s1.pool ≡ s.pool) Any (calls.define_variable c name v s)
      pub links :
          (id : Bytes) (s : Request p)
          → Ends
              (λ b s1. LinkedIf b id s1 × (s1.pool ≡ s.pool))
              Any
              (calls.set_answer_link (codes "transaction") id 3 s)

    -- The answer has the link of an id, and whoever makes a request for it gets the context.
    abbrev pub Addressed : (context : ℕ) → (context_type : Bytes) → Bool → Request p → Type 0
    Addressed c type false s = Unit
    Addressed c type true s =
        (tid : Bytes) × Linked tid s
        × ((t : Request p)
            → t.pool ≡ s.pool
            → t.transaction_ref ≡ none
            → t.path ≡ path_of tid
            → Serves p c type (init_request_object p t).1)

    module _ (calls : Calls p) (l : Links calls) where
      Served : (context : ℕ) → (context_type tid : Bytes) → Pool ℕ → Type 0
      Served c type tid q =
          (t : Request p)
          → t.pool ≡ q
          → t.transaction_ref ≡ none
          → t.path ≡ path_of tid
          → Serves p c type (init_request_object p t).1

      answered :
          (c : ℕ) (type tid : Bytes) (q : Pool ℕ) (s : Request p)
          → s.pool ≡ q
          → Served c type tid q
          → Ends (Addressed c type) Any (answer_transaction p calls tid s)
      unfolding answer_transaction set_http_status Served fail
      answered c type [] q s k f = tt
      answered c type (d ∷ ds) q s k f =
          let s1 : Request p = (set_http_status p 201 s).1 in
          Ends-mono (λ b s2. LinkedIf b (d ∷ ds) s2 × (s2.pool ≡ s1.pool)) (Addressed c type) Any
            Any (calls.set_answer_link (codes "transaction") (d ∷ ds) 3 s1) linked (λ _ _ _. tt)
            (l.links (d ∷ ds) s1)
        where
          linked :
              (b : Bool) (s2 : Request p)
              → LinkedIf b (d ∷ ds) s2 × (s2.pool ≡ s.pool)
              → Addressed c type b s2
          linked false s2 h = tt
          linked true s2 h = (d ∷ ds, h.0, λ t e. f t (e ∙ h.1 ∙ k))

      created :
          (c : ℕ) (type : Bytes) (r : Result Error Bytes × Pool ℕ) (s : Request p)
          → ((tid : Bytes) (q : Pool ℕ) → r ≡ (ok tid, q) → Served c type tid q)
          → Ends (Addressed c type) Any (go_on (answer_transaction p calls) (after_pool p r s))
      unfolding after_pool
      created c type (ok tid, q) s f = answered c type tid q _ refl (f tid q refl)
      created c type (err e, q) s f = tt

      is_id :
          (type : Bytes) (c : ℕ) (q q1 : Pool ℕ) (tid : Bytes)
          → create_transaction type c calls.max_idle_time calls.address calls.memory q
            ≡ (ok tid, q1)
          → (t : ℤ) × (tid ≡ transaction_id t)
      unfolding create_transaction
      is_id type c q q1 tid e =
          let (t, _, named) =
            to_id-ok (new_transaction type c calls.max_idle_time calls.address calls.memory q) tid
              q1 e in
          (t, named)

      created-Served :
          (type : Bytes) (c k n : ℕ) (q q1 : Pool ℕ) (held : Clients ℕ) (tid : Bytes)
          → Inv q held
          → (reserve q.alloc_nof_tries calls.address q).0 ≡ taken (suc k) (pos n)
          → n < 2 ^ 63
          → create_transaction type c calls.max_idle_time calls.address calls.memory q
            ≡ (ok tid, q1)
          → Served c type tid q1
      unfolding Served
      created-Served type c k n q q1 held tid v r lt e t same none_yet path =
          let (i, found) =
            fetch_transaction-create type c calls.max_idle_time calls.address calls.memory q q1 held
              k n tid v r lt e in
          let (x, named) = is_id type c q q1 tid e in
          let (d, ds, shape) = transaction_id-cons x in
          request_object-Serves p tid _ q1 _ t (d, ds, named ∙ shape)
            (subst (Without slash) (sym named) (transaction_id-Without x)) found same none_yet path

      stored :
          (c k n : ℕ) (type : Bytes) (held : Clients ℕ) (called : Bool) (q : Pool ℕ) (s : Request p)
          → Inv q held
          → (reserve q.alloc_nof_tries calls.address q).0 ≡ taken (suc k) (pos n)
          → n < 2 ^ 63
          → s.pool ≡ q
          → Ends
              (Addressed c (codes "transaction/" ++ type))
              Any
              (store_transaction p calls c type called s)
      unfolding store_transaction of_pool
      stored c k n type held false q s v r lt e = tt
      stored c k n type held true q s v r lt e =
          created c (codes "transaction/" ++ type) _ s (λ tid q1 h.
            created-Served (codes "transaction/" ++ type) c k n s.pool q1 held tid
              (subst (λ z. Inv z held) (sym e) v)
              (subst (λ z. (reserve z.alloc_nof_tries calls.address z).0 ≡ taken (suc k) (pos n))
                (sym e) r)
              lt h)

      defined-Kept :
          (status : ℕ) (b : Bool) (s : Request p)
          → Ends (λ _ s1. s1.pool ≡ s.pool) Any (defined p calls status b s)
      unfolding defined set_http_status
      defined-Kept status true s = refl
      defined-Kept status false s = refl

      to_variable-Kept :
          (c : ℕ) (name : Bytes) (r : CallResult p) (s : Request p)
          → Ends (λ _ s1. s1.pool ≡ s.pool) Any (to_variable p calls c name r s)
      unfolding to_variable fail set_answer
      to_variable-Kept c name (failed x) s = refl
      to_variable-Kept c name (returned [] status) s = refl
      to_variable-Kept c name (returned (v ∷ []) status) s =
          Ends-bind (λ _ s1. s1.pool ≡ s.pool) (λ _ s1. s1.pool ≡ s.pool) Any
            (calls.define_variable c name v s) (defined p calls status) (l.variables c name v s)
            (λ b s1 e.
              Ends-mono (λ _ s2. s2.pool ≡ s1.pool) (λ _ s2. s2.pool ≡ s.pool) Any Any
                (defined p calls status b s1) (λ _ _ k. k ∙ e) (λ _ _ _. tt)
                (defined-Kept status b s1))
      to_variable-Kept c name (returned (v ∷ w ∷ vs) status) s = refl

      call_to_variable-Kept :
          (o : p.Obj) (m : p.Method) (c : ℕ) (name : Bytes) (s : Request p)
          → Ends (λ _ s1. s1.pool ≡ s.pool) Any (call_to_variable p calls o m c name s)
      unfolding call_to_variable
      call_to_variable-Kept o m c name s =
          Ends-bind (λ _ s1. s1.pool ≡ s.pool) (λ _ s1. s1.pool ≡ s.pool) Any
            (calls.call_method o m [] p.empty_content s) (to_variable p calls c name)
            (l.methods o m [] p.empty_content s)
            (λ r s1 e.
              Ends-mono (λ _ s2. s2.pool ≡ s1.pool) (λ _ s2. s2.pool ≡ s.pool) Any Any
                (to_variable p calls c name r s1) (λ _ _ k. k ∙ e) (λ _ _ _. tt)
                (to_variable-Kept c name r s1))

      -- A transaction that a POST has created under a non-negative index is found by its address: if
      -- the calls of methods and the links of answers leave the pool alone, the pool is well formed
      -- and the reservation gets an index that is not negative and does not need its last two tries,
      -- then a POST that returns true has put into the answer the link of an id, and any later request
      -- that has no transaction and meets the pool as the POST has left it, with the path
      -- `transaction/` and that id, gets the transaction, with the context of the POST and
      -- `transaction/` and its type as the type of the context.
      pub execute_post_transaction-Addressed :
          (o : p.Obj) (c k n : ℕ) (type : Bytes) (held : Clients ℕ) (s : Request p)
          → Inv s.pool held
          → (reserve s.pool.alloc_nof_tries calls.address s.pool).0 ≡ taken (suc k) (pos n)
          → n < 2 ^ 63
          → Ends
              (Addressed c (codes "transaction/" ++ type))
              Any
              (execute_post_transaction p calls o c type s)
      unfolding execute_post_transaction post_class post_by fail
      execute_post_transaction-Addressed o c k n type held s v r lt = by_class (p.class_id o)
        where
          by_method :
              (m : Option p.Method)
              → Ends (Addressed c (codes "transaction/" ++ type)) Any (post_by p calls o m c type s)
          by_method none = tt
          by_method (some m) =
              Ends-bind (λ _ s1. s1.pool ≡ s.pool) (Addressed c (codes "transaction/" ++ type)) Any
                (call_to_variable p calls o m c (codes "transaction") s)
                (store_transaction p calls c type)
                (call_to_variable-Kept o m c (codes "transaction") s)
                (λ b s1 e. stored c k n type held b s.pool s1 v r lt e)

          by_class :
              (class : Option ℕ)
              → Ends
                  (Addressed c (codes "transaction/" ++ type))
                  Any
                  (post_class p calls o class c type s)
          by_class none = tt
          by_class (some class) =
              by_method (p.get_method class (codes "POST/transaction") false s.world)
