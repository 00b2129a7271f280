-- ===== src/Config/Tests.antt =====
-- Stored configurations (src/webrequest/configurationHandler.cpp) on concrete inputs.
use strus_bindings.Base.{
  ℕ, zero, suc, ◌≡◌, refl, true, false, List, [], ◌∷◌, ◌++◌, map, if◌then◌else◌, Bytes, codes,
  eq_bytes, arith,
}
use strus_bindings.Base.Result.{ok}
use strus_bindings.Config.FileName.{
  get_config_filename_part, config_filename, config_extension, decimal3,
}
use strus_bindings.Config.FileNameParts.{get_config_filename_part-config}
use strus_bindings.Config.ContextMap.{ContextNameDef, eq_def, find}
use strus_bindings.Config.Handler.{
  FileSystem, ConfigurationDescription, describe, ConfigurationTransaction, Handler, new_handler,
}
use strus_bindings.Config.Storage.{World, commit_store_configuration}
use strus_bindings.Config.Commit.{Committed, commit_store_configuration-Committed}
use strus_bindings.Config.Counter.{Calls, name_all, name_all-new}
use strus_bindings.Config.Stored.{scan_files, has_item}
use strus_bindings.Config.StoredOnce.{Once, Returns, scan_files-Once}

abbrev Files : Type 0
Files = List (Bytes × Bytes)

abbrev content_of : Files → Bytes → ℕ × Bytes
content_of [] path = (2, [])
content_of ((name, content) ∷ files) path =
    if eq_bytes path name then (0, content) else content_of files path

abbrev without : Files → Bytes → ℕ × Files
without [] path = (2, [])
without ((name, content) ∷ files) path =
    if eq_bytes path name
    then (0, files)
    else ((without files path).0, (name, content) ∷ (without files path).1)

abbrev renamed_in : ℕ × Files → (content new : Bytes) → ℕ × Files
renamed_in (zero, files) content new = (0, (new, content) ∷ files)
renamed_in (suc ec, files) content new = (suc ec, files)

-- a file system of one directory
abbrev one_directory : FileSystem
one_directory = record {
  Store = Files;
  join_file_path = λ dir name. name;
  mkdirp = λ dir files. (0, files);
  write_file = λ path content files. (0, (path, content) ∷ files);
  read_file = λ path files. content_of files path;
  read_dir_files = λ dir extension files. (0, map (λ file. file.0) files);
  is_dir = λ dir files. true;
  rename_file = λ old new files. renamed_in (without files old) (content_of files old).1 new;
  remove_file = λ path files. without files path;
}

abbrev context : Bytes
context = codes "context"

abbrev handler : Handler
handler = new_handler (codes "/srv") (codes "strus") (codes "context" ∷ [])

abbrev later : Bytes
later = codes "20200102_120000_001.PUT.context.main.conf"

abbrev earlier : Bytes
earlier = codes "20200101_120000_000.PUT.context.main.conf"

abbrev other : Bytes
other = codes "20200101_110000_000.PUT.context.aux.conf"

abbrev world : World one_directory
world = record {
  handler = handler;
  store = (later, codes "<a/>") ∷ (earlier, codes "{}") ∷ (other, codes "{}") ∷ [];
}

abbrev once : List ConfigurationDescription
once =
    describe context (codes "main") (codes "PUT") (codes "<a/>")
    ∷ describe context (codes "aux") (codes "PUT") (codes "{}")
    ∷ []

scanned :
    scan_files one_directory false (codes "/srv") [] (later ∷ earlier ∷ other ∷ []) world
    ≡ (ok once, world)
unfolding scan_files has_item eq_bytes get_config_filename_part
scanned = refl

scan_files-Once_example :
    Returns one_directory
      (Once one_directory [] (later ∷ earlier ∷ other ∷ []))
      (scan_files one_directory false (codes "/srv") [] (later ∷ earlier ∷ other ∷ []) world)
scan_files-Once_example =
    scan_files-Once one_directory false (codes "/srv") [] (later ∷ earlier ∷ other ∷ []) world

abbrev transaction : ConfigurationTransaction
transaction = record {
  type = context;
  name = codes "main";
  failed_filename = codes "x.failed";
  filename = codes "x";
}

-- the file to rename is missing
commit_store_configuration-Committed_example :
    let r = commit_store_configuration one_directory transaction world in
    Committed one_directory transaction world r 2
    × ((j : ContextNameDef)
        → eq_def j (record { context_type = context; context_name = codes "main" }) ≡ false
        → find j r.1.handler.context_name_map ≡ find j world.handler.context_name_map)
unfolding eq_bytes
commit_store_configuration-Committed_example =
    commit_store_configuration-Committed one_directory transaction world

get_config_filename_part-config_example :
    let f =
      config_filename (codes "20200101_120000") (decimal3 7) (codes "PUT") context (codes "main") in
    (get_config_filename_part 1 f ≡ codes "PUT")
    × (get_config_filename_part 2 f ≡ context)
    × (get_config_filename_part 3 f ≡ codes "main")
    × ((front : Bytes) × (f ≡ front ++ config_extension context (codes "main")))
get_config_filename_part-config_example =
    get_config_filename_part-config (codes "20200101_120000") 7 (codes "PUT") context (codes "main")
      (
        refl,
        (
          refl,
          (
            refl,
            (
              refl,
              (
                refl,
                (refl, (refl, (refl, (refl, (refl, (refl, (refl, (refl, (refl, (refl, tt)))))))))),
              ),
            ),
          ),
        ),
      )
      (refl, (refl, (refl, tt))) (refl, (refl, (refl, (refl, (refl, (refl, (refl, tt)))))))
      (refl, (refl, (refl, (refl, tt))))

abbrev calls : Calls
calls =
    (codes "20200101_120000", describe context (codes "main") (codes "PUT") (codes "{}"))
    ∷ (codes "20200101_120001", describe context (codes "aux") (codes "PUT") (codes "{}"))
    ∷ []

name_all-new_example :
    (g : Handler) × ((name_all calls handler ≡ ok g)
      × ((g.config_counter ≡ 2) × (g.last_time_stmp ≡ [])))
name_all-new_example =
    name_all-new (codes "/srv") (codes "strus") (codes "context" ∷ []) calls tt (omega arith)
