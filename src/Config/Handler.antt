-- ===== src/Config/Handler.antt =====
-- `ConfigurationHandler` (src/webrequest/configurationHandler.cpp). The functions of the file system are
-- those of another library and a parameter; the time stamp of a call is an argument.
use strus_bindings.Base.{
  ℕ, zero, suc, ◌+◌, ◌-◌, ◌^◌, Bool, false, Option, none, some, List, [], ◌++◌, leb, if◌then◌else◌,
  Bytes, eq_bytes, length, take,
}
use strus_bindings.Base.Result.{Result, ok, err}
use strus_bindings.WebRequest.Content.{ContentType}
use strus_bindings.Config.FileName.{decimal, decimal3, config_filename, detect_content_type}
use strus_bindings.Config.ContextMap.{
  ContextNameDef, ContextNameMap, find, insert, erase, upper_bound, same_type, has_name,
}

-- an error code is 0 for success; `remove_file` is called with the flag to fail on a missing file
pub record FileSystem : Type 1 where
  pub Store : Type 0
  pub join_file_path : Bytes → Bytes → Bytes
  pub mkdirp : Bytes → Store → ℕ × Store
  pub write_file : (path content : Bytes) → Store → ℕ × Store
  pub read_file : Bytes → Store → ℕ × Bytes
  pub read_dir_files : (dir extension : Bytes) → Store → ℕ × List Bytes
  pub is_dir : Bytes → Store → Bool
  pub rename_file : (old new : Bytes) → Store → ℕ × Store
  pub remove_file : Bytes → Store → ℕ × Store

pub record ConfigurationDescription : Type 0 where
  pub type : Bytes
  pub name : Bytes
  pub method : Bytes
  pub doctype : ContentType
  pub contentbuf : Bytes

unfoldable pub describe : (type name method contentbuf : Bytes) → ConfigurationDescription
describe type name method contentbuf = record {
  type = type;
  name = name;
  method = method;
  doctype = detect_content_type contentbuf;
  contentbuf = contentbuf;
}

pub record ConfigurationTransaction : Type 0 where
  pub type : Bytes
  pub name : Bytes
  pub failed_filename : Bytes
  pub filename : Bytes

-- `std::bad_alloc`, a runtime error with its code, and what the C++ standard does not define
pub data Failure : Type 0 where
  bad_alloc undefined : Failure
  failed : (ec : ℕ) → Failure

pub record Handler : Type 0 where
  pub config_store_dir : Bytes
  pub service_name : Bytes
  pub last_time_stmp : Bytes
  pub config_counter : ℕ
  pub context_type_names : List Bytes
  pub context_name_map : ContextNameMap

abbrev pub int_max : ℕ
int_max = 2 ^ 31 - 1

unfoldable pub new_handler : (dir service : Bytes) → List Bytes → Handler
new_handler dir service type_names = record {
  config_store_dir = dir;
  service_name = service;
  last_time_stmp = [];
  config_counter = 0;
  context_type_names = type_names;
  context_name_map = [];
}

unfoldable pub set_map : ContextNameMap → Handler → Handler
set_map m h = record h { context_name_map = m }

-- the time stamp and the counter of `newConfigStorageFilename`
unfoldable pub start_second : (timebuf : Bytes) → Handler → Handler
start_second timebuf h =
    if eq_bytes h.last_time_stmp timebuf
    then record h { config_counter = 0; last_time_stmp = timebuf }
    else h

unfoldable pub count : Handler → Handler
count h = record h { config_counter = h.config_counter + 1 }

unfoldable pub numbered :
    (timebuf : Bytes) → ConfigurationDescription → Handler → Result Failure (Bytes × Handler)
unfolding count
numbered timebuf config h =
    if leb int_max h.config_counter
    then err undefined
    else ok (
      config_filename timebuf (decimal3 h.config_counter) config.method config.type config.name,
      count h,
    )

unfoldable pub new_config_storage_filename :
    (timebuf : Bytes) → ConfigurationDescription → Handler → Result Failure (Bytes × Handler)
unfolding start_second numbered
new_config_storage_filename timebuf config h = numbered timebuf config (start_second timebuf h)

abbrev pub ibuf_size : ℕ
ibuf_size = 64

-- the loop of `allocTemporaryContextName` over `idx`
unfoldable pub free_name : (fuel idx : ℕ) → (prefix : Bytes) → ContextNameMap → Option Bytes
unfolding decimal has_name
free_name zero idx prefix entries = none
free_name (suc fuel) idx prefix entries =
    let next = free_name fuel (idx + 1) prefix entries in
    let name = take (ibuf_size - 1) (prefix ++ decimal idx) in
    if has_name name entries then next else some name

unfoldable pub add_name : (type : Bytes) → Option Bytes → Handler → Option (Bytes × Handler)
unfolding set_map
add_name type none h = none
add_name type (some name) h = some (
  name,
  set_map (insert (record { context_type = type; context_name = name }) false h.context_name_map) h,
)

-- the fuel is one more than there are entries of the type
unfoldable pub alloc_temporary_context_name :
    (type prefix : Bytes) → Handler → Option (Bytes × Handler)
unfolding free_name add_name
alloc_temporary_context_name type prefix h =
    let entries =
      same_type type
        (upper_bound (record { context_type = type; context_name = [] }) h.context_name_map) in
    add_name type (free_name (suc (length entries)) 1 prefix entries) h

unfoldable pub erase_unless : Option Bool → ContextNameDef → Handler → Result Failure Handler
unfolding set_map
erase_unless none k h = err undefined
erase_unless (some stored) k h =
    if stored then ok h else ok (set_map (erase k h.context_name_map) h)

-- `find` may return the end of the map, which is read all the same
unfoldable pub release_temporary_context_name :
    (type name : Bytes) → Handler → Result Failure Handler
unfolding erase_unless
release_temporary_context_name type name h =
    let k : ContextNameDef = record { context_type = type; context_name = name } in
    erase_unless (find k h.context_name_map) k h

unfoldable pub declare_sub_configuration : (type name : Bytes) → Handler → Handler
unfolding set_map
declare_sub_configuration type name h =
    set_map (insert (record { context_type = type; context_name = name }) false h.context_name_map)
      h
