-- ===== src/Request/Tests.antt =====
-- Requests (src/webrequest/webRequestContext.cpp) with a concrete papuga.
use strus_bindings.Base.{
  ℕ, ◌≡◌, ◌⊎◌, inl, refl, true, false, none, some, List, [], ◌∷◌, ◌++◌, Bytes, codes, is_empty,
  eq_bytes, arith,
}
use strus_bindings.Base.Action.{return, Ends}
use strus_bindings.Base.Int.{pos}
use strus_bindings.Base.Result.{ok}
use strus_bindings.Config.ContextMap.{ContextNameMap}
use strus_bindings.Config.Handler.{FileSystem, new_handler}
use strus_bindings.Transaction.Sample.{
  nobody, addresses, pool, pool-Inv, index, reserved, transaction, fetching, fetching-Inv,
  fetching_holds,
}
use strus_bindings.WebRequest.PathBuf.{empty_path, get_next, next_of, take_name}
use strus_bindings.Request.Format.{EnvVariable, find_variable, is_variable, parse_format_element}
use strus_bindings.Request.Format.Expands.{print, fitted, expand, parse_format_element-print}
use strus_bindings.Request.SelfPath.{path_to_self}
use strus_bindings.Request.SelfPath.Addresses.{IsSelf, path_to_self-IsSelf}
use strus_bindings.Request.State.{
  object_request, schema_description_request, post, no_behaviour, Papuga, Request, empty_answer,
}
use strus_bindings.Request.Transact.{Calls, returned, execute_post_transaction}
use strus_bindings.Request.Execute.{Handlers}
use strus_bindings.Request.Complete.{execute, complete}
use strus_bindings.Request.Explained.{Told}
use strus_bindings.Request.Configure.{
  Schemas, load_configuration_request, update_configuration_request,
}
use strus_bindings.Request.Configure.Removal.{with_configurations}
use strus_bindings.Request.Configure.Answers.{SchemasTell}
use strus_bindings.Request.Configure.Deletes.{OthersExplain, execute-with_configurations-Explains}
use strus_bindings.Request.Configure.Pending.{
  Keeps, Pending, Unchanged, configuration_requests-Pending,
}
use strus_bindings.Request.Silent.{Silently, execute-Silently}
use strus_bindings.Request.GivesBack.{Quiet, NoSlot, Returned, Thrown, complete-Returned}
use strus_bindings.Request.Addressed.Posts.{
  Any, Links, Addressed, execute_post_transaction-Addressed,
}

abbrev variables : List EnvVariable
variables = record { name = codes "name"; value = codes "feed" } ∷ []

parse_format_element-print_example :
    parse_format_element 256 (print (codes "the ") ((codes "name", codes "!") ∷ [])) variables
    ≡ fitted 256 (expand variables (codes "the ") ((codes "name", codes "!") ∷ []))
unfolding eq_bytes find_variable is_variable
parse_format_element-print_example =
    parse_format_element-print 256 variables (codes "the ") ((codes "name", codes "!") ∷ [])
      ((refl, (refl, (refl, (refl, tt)))), (refl, (refl, (refl, (refl, tt)))), tt, (refl, tt))

formatted : parse_format_element 256 (codes "the {name}!") variables ≡ ok (codes "the feed!")
unfolding parse_format_element eq_bytes
formatted = refl

local : path_to_self [] (codes "http://localhost:80/feed/a") ≡ some (codes "feed/a")
unfolding path_to_self
local = refl

path_to_self-IsSelf_example : IsSelf [] (codes "http://localhost:80/feed/a") (codes "feed/a")
path_to_self-IsSelf_example =
    path_to_self-IsSelf [] (codes "http://localhost:80/feed/a") (codes "feed/a") local

abbrev papuga : Papuga
papuga = record {
  World = Unit {0};
  Obj = ℕ;
  Method = ℕ;
  Content = Bytes;
  Value = ℕ;
  create = λ w. (some 1, w);
  inherit = λ c type name w. (none, w);
  get_variable = λ c name w. some 7;
  list_variables = λ c w. some [];
  class_id = λ o. some 1;
  get_method = λ class name x w. some 3;
  is_empty_content = is_empty;
  empty_content = [];
}

-- the content of the answer is the id of a link
abbrev calls : Calls papuga
calls = record {
  call_method = λ o m path x. return (returned (5 ∷ []) 200);
  define_variable = λ c name v. return true;
  call_to_answer = λ o m path x. return true;
  set_answer_link =
      λ title id level s. (ok true, record s { answer = record s.answer { content = id } });
  max_idle_time = pos 8;
  address = addresses;
  memory = true;
}

abbrev handlers : Handlers papuga
handlers = record {
  load_configuration_request = λ x. return true;
  update_configuration_request = λ x. return true;
  update_configuration_request_retry = λ x. return true;
  delete_configuration_request = return true;
  load_main_configuration = λ x. return true;
  load_embedded_configuration = λ x. return true;
  init_content_type = λ x. return true;
  execute_schema_description = return true;
  execute_options = return true;
  execute_schema = λ x. return true;
  execute_list_variables = return true;
  answer_names = λ ns. return true;
  answer_value = λ o. return true;
  transfer_context = return true;
  get_content_request_result = return true;
  fetch_context_info_messages = return tt;
}

abbrev request : Request papuga
request = record {
  world = tt;
  pool = pool;
  config = new_handler (codes "config") (codes "service") [];
  request_type = object_request;
  method_id = post;
  context_type = some (codes "feed");
  context_name = some (codes "a");
  path = empty_path;
  context = some 7;
  obj = some 7;
  transaction_ref = none;
  pooled = false;
  config_transaction = none;
  answer = empty_answer;
}

-- every call of the file system succeeds, and there are no files
abbrev files : FileSystem
files = record {
  Store = Unit {0};
  join_file_path = λ a b. a ++ (47 ∷ b);
  mkdirp = λ path s. (0, s);
  write_file = λ path content s. (0, s);
  read_file = λ path s. (0, []);
  read_dir_files = λ dir extension s. (0, []);
  is_dir = λ path s. false;
  rename_file = λ old new s. (0, s);
  remove_file = λ path s. (0, s);
}

abbrev schemas : Schemas papuga files
schemas = record {
  store_of = λ w. w;
  put_store = λ s w. s;
  timebuf = codes "20200101000000";
  root_element = λ w. codes "feed";
  has_automaton = λ id w. true;
  has_exclusive_access = λ w. false;
  set_automaton = λ id w. w;
  content_text = λ x. x;
  to_content = λ d. d.contentbuf;
  init_content_type = λ x. return true;
  execute_content_schema_automaton = λ x. return true;
  remove_context = λ type name. return true;
}

schemas_tell : SchemasTell papuga files schemas
schemas_tell = record { types = λ x s. tt; executes = λ x s. tt; removes = λ type name s. tt }

others_explain : OthersExplain papuga files schemas schemas_tell calls handlers
others_explain = record {
  defines = λ c name v s. refl;
  calls_to_answer = λ o m path x s. tt;
  links = λ title id level s. tt;
  descriptions = λ s. tt;
  options = λ s. tt;
  schemas = λ x s. tt;
  variables = λ s. tt;
  names = λ ns s. tt;
  values = λ o s. tt;
}

execute-with_configurations-Explains_example :
    Ends
      (Told papuga)
      (λ r _. r ≡ no_behaviour)
      (execute papuga calls
        (with_configurations papuga files schemas handlers)
        (codes "{}")
        request)
execute-with_configurations-Explains_example =
    execute-with_configurations-Explains papuga files schemas schemas_tell calls handlers
      others_explain (codes "{}") request (λ e. ground (arith, e))

abbrev no_contexts : ContextNameMap
no_contexts = []

leaves_alone :
    (x : Bytes) → Keeps papuga files no_contexts (schemas.execute_content_schema_automaton x)
leaves_alone x t s h = h

configuration_requests-Pending_example :
    Ends
      (Pending papuga files no_contexts schemas leaves_alone (codes "feed") (codes "a"))
      (Unchanged papuga files no_contexts schemas leaves_alone)
      (load_configuration_request papuga files schemas (codes "{}") request)
    × Ends
        (Pending papuga files no_contexts schemas leaves_alone (codes "feed") (codes "a"))
        (Unchanged papuga files no_contexts schemas leaves_alone)
        (update_configuration_request papuga files schemas (codes "{}") request)
unfolding new_handler
configuration_requests-Pending_example =
    configuration_requests-Pending papuga files no_contexts schemas leaves_alone (codes "{}")
      (codes "feed") (codes "a") request refl refl refl

abbrev describing : Request papuga
describing = record request {
  request_type = schema_description_request;
  path = record { before = []; rest = codes "context" };
}

execute-Silently_example : Silently papuga (execute papuga calls handlers [] describing) describing
unfolding get_next next_of take_name eq_bytes
execute-Silently_example =
    execute-Silently papuga calls handlers [] (codes "context") describing describing refl refl refl
      (inl refl)

quiet : Quiet papuga calls handlers
quiet = record {
  results = λ tr b q s k. k;
  transfers = λ tr b q s k. k;
  messages = λ tr b q s k. k;
}

abbrev with_transaction : Request papuga
with_transaction = record request { pool = fetching.pool; transaction_ref = some transaction }

complete-Returned_example :
    Ends
      (λ b s.
        Returned papuga calls handlers quiet transaction s
        ⊎ Thrown papuga calls handlers quiet (NoSlot papuga transaction fetching.pool) b s)
      (λ r _. r ≡ no_behaviour)
      (complete papuga calls handlers with_transaction)
complete-Returned_example =
    complete-Returned papuga calls handlers quiet fetching 0 5 transaction with_transaction
      fetching-Inv fetching_holds refl (omega arith) (refl, refl, refl)

abbrev Linked : Bytes → Request papuga → Type 0
Linked id s = s.answer.content ≡ id

links : Links papuga Linked calls
links = record {
  methods = λ o m path x s. refl;
  variables = λ c name v s. refl;
  links = λ id s. (refl, refl);
}

execute_post_transaction-Addressed_example :
    Ends
      (Addressed papuga Linked 7 (codes "transaction/" ++ codes "feed"))
      (Any papuga Linked)
      (execute_post_transaction papuga calls 7 7 (codes "feed") request)
execute_post_transaction-Addressed_example =
    execute_post_transaction-Addressed papuga Linked calls links 7 7 7 index (codes "feed") nobody
      request pool-Inv reserved (omega arith)
