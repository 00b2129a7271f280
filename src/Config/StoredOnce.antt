-- ===== src/Config/StoredOnce.antt =====
-- Each configuration is read once (src/webrequest/configurationHandler.cpp).
use strus_bindings.Base.{
  ◌≡◌, refl, Bool, true, false, ◌||◌, List, [], ◌∷◌, map, Bytes, eq_bytes_refl, arith,
}
use strus_bindings.Base.Result.{Result, ok, err}
use strus_bindings.Config.FileName.{get_config_filename_part}
use strus_bindings.Config.Handler.{FileSystem, ConfigurationDescription, describe, Failure}
use strus_bindings.Config.Storage.{World, Op, go_on, look}
use strus_bindings.Config.Stored.{
  ConfigItem, eq_item, has_item, config_item, remove_obsolete, scan_file, scan_files,
}

abbrev pub item_of : ConfigurationDescription → ConfigItem
item_of d = (d.type, d.name)

-- The items differ from each other and from the seen ones.
abbrev pub AllNew : (seen : List ConfigItem) → List ConfigurationDescription → Type 0
AllNew seen [] = Unit
AllNew seen (d ∷ ds) = (has_item (item_of d) seen ≡ false) × AllNew (item_of d ∷ seen) ds

-- Each file defines an item that is among the descriptions or was seen before.
abbrev pub AllFound : (seen : List ConfigItem) → List ConfigurationDescription → List Bytes → Type 0
AllFound seen ds [] = Unit
AllFound seen ds (f ∷ files) =
    ((has_item (config_item f) (map item_of ds) || has_item (config_item f) seen) ≡ true)
    × AllFound seen ds files

AllFound-cons :
    (seen : List ConfigItem) (d : ConfigurationDescription) (ds : List ConfigurationDescription)
    (files : List Bytes)
    → AllFound (item_of d ∷ seen) ds files
    → AllFound seen (d ∷ ds) files
unfolding has_item
AllFound-cons seen d ds [] h = tt
AllFound-cons seen d ds (f ∷ files) h = (ground (arith, h.0), AllFound-cons seen d ds files h.1)

eq_item_refl : (i : ConfigItem) → eq_item i i ≡ true
unfolding eq_item
eq_item_refl i = ground (arith, eq_bytes_refl i.0, eq_bytes_refl i.1)

or_true : (a b : Bool) → b ≡ true → (a || b) ≡ true
or_true a b h = ground arith

found_first :
    (f : Bytes) (seen items : List ConfigItem)
    → (has_item (config_item f) (config_item f ∷ items) || has_item (config_item f) seen) ≡ true
unfolding has_item
found_first f seen items = ground (arith, eq_item_refl (config_item f))

module _ (fs : FileSystem) where
  -- If the action returns, what it returns has the property.
  abbrev pub Returns : {A : Type 0} → (A → Type 0) → Result Failure A × World fs → Type 0
  Returns P (ok a, w) = P a
  Returns P (err e, w) = Unit

  Returns-bind :
      {A B : Type 0} (P : A → Type 0) (Q : B → Type 0) (r : Result Failure A × World fs)
      (f : A → Op fs B)
      → Returns P r
      → ((a : A) (w : World fs) → P a → Returns Q (f a w))
      → Returns Q (go_on fs f r)
  Returns-bind P Q (ok a, w) f h k = k a w h
  Returns-bind P Q (err e, w) f h k = tt

  Returns-any : {A : Type 0} (r : Result Failure A × World fs) → Returns (λ a. Unit {0}) r
  Returns-any (ok a, w) = tt
  Returns-any (err e, w) = tt

  Returns-mono :
      {A : Type 0} (P Q : A → Type 0) (r : Result Failure A × World fs)
      → ((a : A) → P a → Q a)
      → Returns P r
      → Returns Q r
  Returns-mono P Q (ok a, w) i h = i a h
  Returns-mono P Q (err e, w) i h = tt

  abbrev pub Once : List ConfigItem → List Bytes → List ConfigurationDescription → Type 0
  Once seen files ds = AllNew seen ds × AllFound seen ds files

  scan_file-Once :
      (again : List ConfigItem → Op fs (List ConfigurationDescription)) (defined do_delete : Bool)
      (cfgdir : Bytes) (seen : List ConfigItem) (f : Bytes) (files : List Bytes) (w : World fs)
      → has_item (config_item f) seen ≡ defined
      → ((seen1 : List ConfigItem) (w1 : World fs) → Returns (Once seen1 files) (again seen1 w1))
      → Returns (Once seen (f ∷ files)) (scan_file fs again defined do_delete cfgdir seen f w)
  unfolding scan_file describe config_item has_item
  scan_file-Once again true do_delete cfgdir seen f files w h k =
      Returns-bind (λ a. Unit {0}) (Once seen (f ∷ files)) (remove_obsolete fs do_delete cfgdir f w)
        (λ _. again seen) (Returns-any (remove_obsolete fs do_delete cfgdir f w))
        (λ _ w1 _.
          Returns-mono (Once seen files) (Once seen (f ∷ files)) (again seen w1)
            (λ ds o. (
              o.0,
              (
                or_true (has_item (config_item f) (map item_of ds)) (has_item (config_item f) seen)
                    h,
                o.1,
              ),
            ))
            (k seen w1))
  scan_file-Once again false do_delete cfgdir seen f files w h k =
      let read = look fs (fs.read_file (fs.join_file_path cfgdir f)) w in
      let d : Bytes → ConfigurationDescription = λ contentbuf.
        describe (config_item f).0 (config_item f).1 (get_config_filename_part 1 f) contentbuf in
      Returns-bind (λ a. Unit {0}) (Once seen (f ∷ files)) read _ (Returns-any read)
        λ contentbuf w1 _.
          Returns-bind (Once (config_item f ∷ seen) files) (Once seen (f ∷ files))
            (again (config_item f ∷ seen) w1) _ (k (config_item f ∷ seen) w1)
            λ ds w2 o. (
              (h, o.0),
              (found_first f seen (map item_of ds), AllFound-cons seen (d contentbuf) ds files o.1),
            )

  -- The loop over the files of the store, if no call of the file system fails, returns each
  -- configuration that a file defines, and returns none twice.
  pub scan_files-Once :
      (do_delete : Bool) (cfgdir : Bytes) (seen : List ConfigItem) (files : List Bytes)
      (w : World fs)
      → Returns (Once seen files) (scan_files fs do_delete cfgdir seen files w)
  unfolding scan_files
  scan_files-Once do_delete cfgdir seen [] w = (tt, tt)
  scan_files-Once do_delete cfgdir seen (f ∷ files) w =
      scan_file-Once (λ seen1. scan_files fs do_delete cfgdir seen1 files)
        (has_item (config_item f) seen) do_delete cfgdir seen f files w refl
        (λ seen1 w1. scan_files-Once do_delete cfgdir seen1 files w1)
