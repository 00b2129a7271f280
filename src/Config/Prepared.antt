-- ===== src/Config/Prepared.antt =====
-- What `storeConfiguration` and `storeConfigurationReplace` (src/webrequest/configurationHandler.cpp)
-- leave before a configuration is committed.
use strus_bindings.Base.{
  ℕ, zero, suc, ◌≡◌, refl, ◌∙◌, Bool, true, false, [], ◌∷◌, ◌++◌, if◌then◌else◌, leb, Bytes, codes,
  eq_bytes,
}
use strus_bindings.Base.Action.{Ends}
use strus_bindings.Base.Result.{Result, ok, err}
use strus_bindings.Config.ContextMap.{ContextNameMap}
use strus_bindings.Config.FileName.{config_extension}
use strus_bindings.Config.Handler.{
  FileSystem, ConfigurationDescription, ConfigurationTransaction, Failure, undefined, Handler,
  start_second, count, numbered, new_config_storage_filename, int_max,
}
use strus_bindings.Config.Storage.{
  World, Op, go_on, checked, change, looked_up, look, not_empty, configuration_store_directory,
  named, new_filename, new_configuration_transaction, store_configuration, config_files,
  get_stored_configuration_file, store_configuration_replace,
}

start_second-map :
    (timebuf : Bytes) (h : Handler) → (start_second timebuf h).context_name_map ≡ h.context_name_map
unfolding start_second
start_second-map timebuf h = by_test (eq_bytes h.last_time_stmp timebuf)
  where
    by_test :
        (b : Bool)
        → (if b
            then record h { config_counter = 0; last_time_stmp = timebuf }
            else h).context_name_map
          ≡ h.context_name_map
    by_test true = refl
    by_test false = refl

module _ (fs : FileSystem) (m : ContextNameMap) where
  -- the map of contexts
  abbrev pub HasMap : World fs → Type 0
  HasMap w = w.handler.context_name_map ≡ m

  abbrev pub Keeps : {A : Type 0} → Op fs A → Type 0
  Keeps f = (w : World fs) → HasMap w → Ends (λ _. HasMap) (λ _. HasMap) (f w)

  op_bind :
      {A B : Type 0} (P : A → World fs → Type 0) (P1 : B → World fs → Type 0)
      (Q : Failure → World fs → Type 0) (r : Result Failure A × World fs) (f : A → Op fs B)
      → Ends P Q r
      → ((a : A) (w : World fs) → P a w → Ends P1 Q (f a w))
      → Ends P1 Q (go_on fs f r)
  op_bind P P1 Q (ok a, w) f h k = k a w h
  op_bind P P1 Q (err e, w) f h k = h

  -- one operation after another, which keep the map
  then_keeps :
      {A B : Type 0} (P : B → World fs → Type 0) (g : Op fs A) (f : A → Op fs B) (w : World fs)
      → Keeps g
      → HasMap w
      → ((a : A) (w1 : World fs) → HasMap w1 → Ends P (λ _. HasMap) (f a w1))
      → Ends P (λ _. HasMap) (go_on fs f (g w))
  then_keeps P g f w k h n = op_bind (λ _. HasMap) P (λ _. HasMap) (g w) f (k w h) n

  not_empty-Keeps : (b : Bytes) → Keeps (not_empty fs b)
  unfolding not_empty
  not_empty-Keeps [] w h = h
  not_empty-Keeps (c ∷ cs) w h = h

  directory-Keeps : Keeps (configuration_store_directory fs)
  unfolding configuration_store_directory
  directory-Keeps w h = not_empty-Keeps _ w h

  change-Keeps : (f : fs.Store → ℕ × fs.Store) → Keeps (change fs f)
  unfolding change checked
  change-Keeps f w h = by_code (f w.store)
    where
      by_code : (r : ℕ × fs.Store) → Ends (λ _. HasMap) (λ _. HasMap) (checked fs r w)
      by_code (zero, s) = h
      by_code (suc ec, s) = h

  look-Keeps : {A : Type 0} (f : fs.Store → ℕ × A) → Keeps (look fs f)
  unfolding look looked_up
  look-Keeps {A = A} f w h = by_code (f w.store)
    where
      by_code : (r : ℕ × A) → Ends (λ _. HasMap) (λ _. HasMap) (looked_up fs r w)
      by_code (zero, a) = h
      by_code (suc ec, a) = h

  new_filename-Keeps :
      (timebuf : Bytes) (d : ConfigurationDescription) → Keeps (new_filename fs timebuf d)
  unfolding new_filename named new_config_storage_filename numbered count
  new_filename-Keeps timebuf d w h =
      by_test (leb int_max (start_second timebuf w.handler).config_counter) _
    where
      by_test :
          (b : Bool) (name : Bytes)
          → Ends
              (λ _. HasMap)
              (λ _. HasMap)
              (named fs
                (if b then err undefined else ok (name, count (start_second timebuf w.handler)))
                w)
      by_test true name = h
      by_test false name = start_second-map timebuf w.handler ∙ h

  config_files-Keeps : (dir extension : Bytes) → Keeps (config_files fs dir extension)
  unfolding config_files
  config_files-Keeps dir extension w h =
      then_keeps (λ _. HasMap) (look fs (fs.read_dir_files dir extension)) _ w
        (look-Keeps (fs.read_dir_files dir extension)) h (λ a w1 k. k)

  file-Keeps : (type name : Bytes) → Keeps (get_stored_configuration_file fs type name)
  unfolding get_stored_configuration_file
  file-Keeps type name w h =
      then_keeps (λ _. HasMap) (configuration_store_directory fs) _ w directory-Keeps h
        (λ dir w1 k.
          then_keeps (λ _. HasMap) (config_files fs dir (config_extension type name)) _ w1
            (config_files-Keeps dir (config_extension type name)) k (λ a w2 k2. k2))

  -- The transaction of a description, and the map as it was.
  abbrev pub Prepared : ConfigurationDescription → ConfigurationTransaction → World fs → Type 0
  Prepared d t w = (t.type ≡ d.type) × (t.name ≡ d.name) × HasMap w

  transaction-Prepared :
      (d : ConfigurationDescription) (filename failed : Bytes) (w : World fs)
      → HasMap w
      → Ends (Prepared d) (λ _. HasMap) (new_configuration_transaction fs d filename failed w)
  unfolding new_configuration_transaction
  transaction-Prepared d filename failed w h =
      then_keeps (Prepared d) (configuration_store_directory fs) _ w directory-Keeps h (λ dir w1 k1.
        then_keeps (Prepared d) (not_empty fs (fs.join_file_path dir filename)) _ w1
          (not_empty-Keeps (fs.join_file_path dir filename)) k1
          (λ path w2 k2.
            then_keeps (Prepared d) (change fs (fs.write_file failed d.contentbuf)) _ w2
              (change-Keeps (fs.write_file failed d.contentbuf)) k2 (λ _ w3 k3. (refl, refl, k3))))

  pub store_configuration-Prepared :
      (timebuf : Bytes) (d : ConfigurationDescription) (w : World fs)
      → HasMap w
      → Ends (Prepared d) (λ _. HasMap) (store_configuration fs timebuf d w)
  unfolding store_configuration
  store_configuration-Prepared timebuf d w h =
      then_keeps (Prepared d) (configuration_store_directory fs) _ w directory-Keeps h (λ dir w1 k1.
        then_keeps (Prepared d) (change fs (fs.mkdirp dir)) _ w1 (change-Keeps (fs.mkdirp dir)) k1
          (λ _ w2 k2.
            then_keeps (Prepared d) (new_filename fs timebuf d) _ w2 (new_filename-Keeps timebuf d)
              k2
              (λ filename w3 k3.
                transaction-Prepared d filename (filename ++ codes ".failed") w3 k3)))

  pub store_configuration_replace-Prepared :
      (timebuf : Bytes) (d : ConfigurationDescription) (w : World fs)
      → HasMap w
      → Ends (Prepared d) (λ _. HasMap) (store_configuration_replace fs timebuf d w)
  unfolding store_configuration_replace
  store_configuration_replace-Prepared timebuf d w h =
      then_keeps (Prepared d) (get_stored_configuration_file fs d.type d.name) _ w
        (file-Keeps d.type d.name) h
        (λ filename w1 k1.
          then_keeps (Prepared d) (new_filename fs timebuf d) _ w1 (new_filename-Keeps timebuf d) k1
            (λ failed w2 k2. transaction-Prepared d filename (failed ++ codes ".failed") w2 k2))
