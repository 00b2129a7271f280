-- ===== src/Config/Stored.antt =====
-- `getStoredConfigurations` and `deleteObsoleteConfigurations` (src/webrequest/configurationHandler.cpp).
use strus_bindings.Base.{
  Bool, true, false, ◌&&◌, ◌||◌, List, [], ◌∷◌, reverse, Bytes, codes, eq_bytes,
}
use strus_bindings.Config.FileName.{get_config_filename_part}
use strus_bindings.Config.Handler.{FileSystem, ConfigurationDescription, describe}
use strus_bindings.Config.Storage.{
  Op, ◌>>=◌, return, change, look, config_files, configuration_store_directory,
}

abbrev pub ConfigItem : Type 0
ConfigItem = Bytes × Bytes

unfoldable pub eq_item : ConfigItem → ConfigItem → Bool
eq_item a b = eq_bytes a.0 b.0 && eq_bytes a.1 b.1

unfoldable pub has_item : ConfigItem → List ConfigItem → Bool
unfolding eq_item
has_item a [] = false
has_item a (b ∷ bs) = eq_item a b || has_item a bs

unfoldable pub config_item : (filename : Bytes) → ConfigItem
config_item filename = (get_config_filename_part 2 filename, get_config_filename_part 3 filename)

module _ (fs : FileSystem) where
  open fs use {Store, join_file_path, read_file, remove_file, is_dir}

  unfoldable pub remove_obsolete : (do_delete : Bool) → (cfgdir filename : Bytes) → Op fs Unit
  unfolding change
  remove_obsolete false cfgdir filename = return fs tt
  remove_obsolete true cfgdir filename = change fs (remove_file (join_file_path cfgdir filename))

  -- a round of the loop over the files, where `again` is the next one; the second argument says
  -- whether a later file has defined the configuration
  unfoldable pub scan_file :
      (again : List ConfigItem → Op fs (List ConfigurationDescription))
      → (defined do_delete : Bool) → (cfgdir : Bytes) → List ConfigItem
      → (filename : Bytes) → Op fs (List ConfigurationDescription)
  unfolding remove_obsolete look describe config_item
  scan_file again true do_delete cfgdir seen filename w =
      ◌>>=◌ fs (remove_obsolete do_delete cfgdir filename) (λ _. again seen) w
  scan_file again false do_delete cfgdir seen filename w =
      ◌>>=◌ fs (look fs (read_file (join_file_path cfgdir filename)))
        (λ contentbuf. ◌>>=◌ fs (again (config_item filename ∷ seen)) (λ more. return fs (
          describe (config_item filename).0 (config_item filename).1
            (get_config_filename_part 1 filename) contentbuf
          ∷ more)))
        w

  unfoldable pub scan_files :
      (do_delete : Bool)
      → (cfgdir : Bytes) → List ConfigItem
      → List Bytes
      → Op fs (List ConfigurationDescription)
  unfolding scan_file has_item config_item
  scan_files do_delete cfgdir seen [] = return fs []
  scan_files do_delete cfgdir seen (filename ∷ files) =
      scan_file (λ seen1. scan_files do_delete cfgdir seen1 files)
        (has_item (config_item filename) seen) do_delete cfgdir seen filename

  unfoldable pub stored_in :
      (do_delete exists : Bool) → (cfgdir : Bytes) → Op fs (List ConfigurationDescription)
  unfolding scan_files config_files
  stored_in do_delete false cfgdir = return fs []
  stored_in do_delete true cfgdir = ◌>>=◌ fs (config_files fs cfgdir (codes ".conf")) (λ files.
      ◌>>=◌ fs (scan_files do_delete cfgdir [] files) (λ found. return fs (reverse found)))

  -- `getStoredConfigurations(bool)`
  unfoldable pub get_stored_configurations_or_delete :
      (do_delete : Bool) → Op fs (List ConfigurationDescription)
  unfolding configuration_store_directory stored_in
  get_stored_configurations_or_delete do_delete =
      ◌>>=◌ fs (configuration_store_directory fs)
        (λ cfgdir w. stored_in do_delete (is_dir cfgdir w.store) cfgdir w)

  unfoldable pub get_stored_configurations : Op fs (List ConfigurationDescription)
  unfolding get_stored_configurations_or_delete
  get_stored_configurations = get_stored_configurations_or_delete false

  unfoldable pub delete_obsolete_configurations : Op fs Unit
  unfolding get_stored_configurations_or_delete
  delete_obsolete_configurations =
      ◌>>=◌ fs (get_stored_configurations_or_delete true) (λ _. return fs tt)
