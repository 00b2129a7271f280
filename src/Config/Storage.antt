-- ===== src/Config/Storage.antt =====
-- The operations of `ConfigurationHandler` on its files (src/webrequest/configurationHandler.cpp): each is
-- an action on the handler and the store that returns a value or throws.
use strus_bindings.Base.{
  ℕ, zero, suc, Bool, true, false, List, [], ◌∷◌, ◌++◌, Bytes, codes, lt_bytes,
}
use strus_bindings.Base.Result.{Result, ok, err}
use strus_bindings.Config.FileName.{get_config_filename_part, config_extension, sort_names}
use strus_bindings.Config.ContextMap.{ContextNameDef, insert, erase, assign}
use strus_bindings.Config.Handler.{
  FileSystem, ConfigurationDescription, describe, ConfigurationTransaction, Failure, bad_alloc,
  failed, Handler, set_map, new_config_storage_filename,
}

module _ (fs : FileSystem) where
  open fs use {
    Store, join_file_path, mkdirp, write_file, read_file, read_dir_files, is_dir, rename_file,
    remove_file,
  }

  pub record World : Type 0 where
    pub handler : Handler
    pub store : Store

  abbrev pub Op : Type 0 → Type 0
  Op A = World → Result Failure A × World

  abbrev pub go_on :
      {A B : Type 0} → (A → Op B) → Result Failure A × World → Result Failure B × World
  go_on f (ok a, w) = f a w
  go_on f (err e, w) = (err e, w)

  infixl 5 ◌>>=◌
  abbrev pub ◌>>=◌ : {A B : Type 0} → Op A → (A → Op B) → Op B
  ◌>>=◌ m f w = go_on f (m w)

  abbrev pub return : {A : Type 0} → A → Op A
  return a w = (ok a, w)

  abbrev pub throw : {A : Type 0} → Failure → Op A
  throw e w = (err e, w)

  abbrev pub handler_of : Op Handler
  handler_of w = (ok w.handler, w)

  abbrev pub put_handler : Handler → Op Unit
  put_handler h w = (ok tt, record w { handler = h })

  -- a call of the file system, which throws where its code is not 0
  unfoldable pub checked : ℕ × Store → World → Result Failure Unit × World
  checked (zero, s) w = (ok tt, record w { store = s })
  checked (suc ec, s) w = (err (failed (suc ec)), record w { store = s })

  unfoldable pub change : (Store → ℕ × Store) → Op Unit
  unfolding checked
  change f w = checked (f w.store) w

  unfoldable pub looked_up : {A : Type 0} → ℕ × A → Op A
  looked_up (zero, a) w = (ok a, w)
  looked_up (suc ec, a) w = (err (failed (suc ec)), w)

  unfoldable pub look : {A : Type 0} → (Store → ℕ × A) → Op A
  unfolding looked_up
  look f w = looked_up (f w.store) w

  unfoldable pub not_empty : Bytes → Op Bytes
  not_empty [] = throw bad_alloc
  not_empty (c ∷ cs) = return (c ∷ cs)

  unfoldable pub configuration_store_directory : Op Bytes
  unfolding not_empty
  configuration_store_directory = do
    h ← handler_of
    not_empty (join_file_path h.config_store_dir h.service_name)

  unfoldable pub named : Result Failure (Bytes × Handler) → Op Bytes
  named (err e) = throw e
  named (ok (filename, h)) = do _ ← put_handler h; return filename

  unfoldable pub new_filename : (timebuf : Bytes) → ConfigurationDescription → Op Bytes
  unfolding named
  new_filename timebuf config = do
    h ← handler_of
    named (new_config_storage_filename timebuf config h)

  unfoldable pub new_configuration_transaction :
      ConfigurationDescription → (filename failed_filename : Bytes) → Op ConfigurationTransaction
  unfolding configuration_store_directory change
  new_configuration_transaction config filename failed_filename = do
    cfgdir ← configuration_store_directory
    path ← not_empty (join_file_path cfgdir filename)
    _ ← change (write_file failed_filename config.contentbuf)
    return (record {
      type = config.type;
      name = config.name;
      failed_filename = failed_filename;
      filename = path;
    })

  unfoldable pub store_configuration :
      (timebuf : Bytes) → ConfigurationDescription → Op ConfigurationTransaction
  unfolding configuration_store_directory change new_filename new_configuration_transaction
  store_configuration timebuf config = do
    cfgdir ← configuration_store_directory
    _ ← change (mkdirp cfgdir)
    filename ← new_filename timebuf config
    new_configuration_transaction config filename (filename ++ codes ".failed")

  -- the files of the store directory with an extension, from the last name to the first
  unfoldable pub config_files : (cfgdir extension : Bytes) → Op (List Bytes)
  unfolding look
  config_files cfgdir extension = do
    files ← look (read_dir_files cfgdir extension)
    return (sort_names lt_bytes files)

  abbrev pub head_or_empty : List Bytes → Bytes
  head_or_empty [] = []
  head_or_empty (f ∷ fs') = f

  unfoldable pub get_stored_configuration_file : (type name : Bytes) → Op Bytes
  unfolding configuration_store_directory config_files
  get_stored_configuration_file type name = do
    cfgdir ← configuration_store_directory
    files ← config_files cfgdir (config_extension type name)
    return (head_or_empty files)

  unfoldable pub store_configuration_replace :
      (timebuf : Bytes) → ConfigurationDescription → Op ConfigurationTransaction
  unfolding get_stored_configuration_file new_filename new_configuration_transaction
  store_configuration_replace timebuf config = do
    filename ← get_stored_configuration_file config.type config.name
    failed_filename ← new_filename timebuf config
    new_configuration_transaction config filename (failed_filename ++ codes ".failed")

  unfoldable pub update_map : (Handler → Handler) → Op Unit
  update_map f w = (ok tt, record w { handler = f w.handler })

  unfoldable pub renamed : ContextNameDef → ℕ × Store → Op Unit
  unfolding update_map set_map
  renamed k (zero, s) w =
      update_map (λ h. set_map (assign k true h.context_name_map) h) (record w { store = s })
  renamed k (suc ec, s) w = (
    err (failed (suc ec)),
    record w { store = s; handler = set_map (erase k w.handler.context_name_map) w.handler },
  )

  unfoldable pub commit_store_configuration : ConfigurationTransaction → Op Unit
  unfolding renamed update_map
  commit_store_configuration t = do
    let k : ContextNameDef = record { context_type = t.type; context_name = t.name }
    _ ← update_map (λ h. set_map (insert k false h.context_name_map) h)
    λ w. renamed k (rename_file t.failed_filename t.filename w.store) w

  -- the loop over the files to remove
  unfoldable pub remove_files : (cfgdir : Bytes) → List Bytes → Op Unit
  unfolding change
  remove_files cfgdir [] = return tt
  remove_files cfgdir (f ∷ files) = do
    _ ← change (remove_file (join_file_path cfgdir f))
    remove_files cfgdir files

  unfoldable pub delete_stored_configuration : (type name : Bytes) → Op Unit
  unfolding configuration_store_directory look remove_files update_map
  delete_stored_configuration type name = do
    cfgdir ← configuration_store_directory
    files ← look (read_dir_files cfgdir (config_extension type name))
    _ ← remove_files cfgdir files
    update_map (λ h.
        set_map (erase (record { context_type = type; context_name = name }) h.context_name_map) h)

  unfoldable pub clear_in : (exists : Bool) → (cfgdir : Bytes) → Op Unit
  unfolding look remove_files
  clear_in false cfgdir = return tt
  clear_in true cfgdir = do
    files ← look (read_dir_files cfgdir (codes ".conf.failed"))
    remove_files cfgdir files

  unfoldable pub clear_unfinished_transactions : Op Unit
  unfolding configuration_store_directory clear_in
  clear_unfinished_transactions = do
    cfgdir ← configuration_store_directory
    λ w. clear_in (is_dir cfgdir w.store) cfgdir w

  unfoldable pub get_stored_configuration_from_file :
      (filename : Bytes) → Op ConfigurationDescription
  unfolding configuration_store_directory look describe
  get_stored_configuration_from_file filename = do
    cfgdir ← configuration_store_directory
    contentbuf ← look (read_file (join_file_path cfgdir filename))
    return (
        describe (get_config_filename_part 2 filename) (get_config_filename_part 3 filename)
          (get_config_filename_part 1 filename) contentbuf)
