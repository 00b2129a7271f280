-- ===== src/Config/Counter.antt =====
-- The counter in the names of configuration files (src/webrequest/configurationHandler.cpp).
use strus_bindings.Base.{
  ℕ, ◌+◌, ◌≤◌, ◌<◌, ◌≡◌, refl, ap, ◌∙◌, false, List, [], ◌∷◌, length, leb, Bytes, eq_bytes, arith,
}
use strus_bindings.Base.Result.{Result, ok, err}
use strus_bindings.Config.FileName.{config_filename, decimal3}
use strus_bindings.Config.Handler.{
  ConfigurationDescription, Failure, Handler, numbered, new_handler, int_max, start_second, count,
  new_config_storage_filename,
}

-- the configurations that are stored one after the other, each with the time stamp of its call
abbrev pub Calls : Type 0
Calls = List (Bytes × ConfigurationDescription)

unfoldable pub continue_names :
    (again : Handler → Result Failure Handler)
    → Result Failure (Bytes × Handler)
    → Result Failure Handler
continue_names again (err e) = err e
continue_names again (ok (f, h)) = again h

unfoldable pub name_all : Calls → Handler → Result Failure Handler
unfolding continue_names new_config_storage_filename
name_all [] h = ok h
name_all ((timebuf, config) ∷ calls) h =
    continue_names (name_all calls) (new_config_storage_filename timebuf config h)

-- a time stamp is no empty text
abbrev pub AllStamped : Calls → Type 0
AllStamped [] = Unit
AllStamped (([], config) ∷ calls) = ⊥
AllStamped ((c ∷ cs, config) ∷ calls) = AllStamped calls

start_second_again :
    (c : ℕ) (cs : Bytes) (h : Handler) → h.last_time_stmp ≡ [] → start_second (c ∷ cs) h ≡ h
unfolding start_second eq_bytes
start_second_again c cs h e = rw e refl

new_name :
    (c : ℕ) (cs : Bytes) (config : ConfigurationDescription) (h : Handler)
    → h.last_time_stmp ≡ []
    → h.config_counter < int_max
    → new_config_storage_filename (c ∷ cs) config h
      ≡ ok (
        config_filename (c ∷ cs) (decimal3 h.config_counter) config.method config.type config.name,
        count h,
      )
unfolding new_config_storage_filename numbered
new_name c cs config h e lt =
    let room : leb int_max h.config_counter ≡ false = ground arith in
    ap (numbered (c ∷ cs) config) (start_second_again c cs h e) ∙ rw room refl

name_all-counter :
    (calls : Calls) (h : Handler)
    → AllStamped calls
    → h.last_time_stmp ≡ []
    → h.config_counter + length calls ≤ int_max
    → (g : Handler) × ((name_all calls h ≡ ok g)
        × ((g.config_counter ≡ h.config_counter + length calls) × (g.last_time_stmp ≡ [])))
unfolding name_all continue_names count
name_all-counter [] h st e le = (h, (refl, (omega arith, e)))
name_all-counter (([], config) ∷ calls) h st e le = elim st [ ]
name_all-counter ((c ∷ cs, config) ∷ calls) h st e le =
    let (g, (run, (counter, last))) = name_all-counter calls (count h) st e (omega arith) in
    (
      g,
      (
        ap (continue_names (name_all calls)) (new_name c cs config h e (omega arith)) ∙ run,
        (counter ∙ omega arith, last),
      ),
    )

-- From a new handler on, any sequence of configurations gets its file names without a fault as long as
-- the counter fits, and the counter then is the number of configurations, whatever their time
-- stamps are: it does not start again with a new second.
pub name_all-new :
    (dir service : Bytes) (type_names : List Bytes) (calls : Calls)
    → AllStamped calls
    → length calls ≤ int_max
    → (g : Handler) × ((name_all calls (new_handler dir service type_names) ≡ ok g)
        × ((g.config_counter ≡ length calls) × (g.last_time_stmp ≡ [])))
unfolding new_handler
name_all-new dir service type_names calls st le =
    let (g, (run, (counter, last))) =
      name_all-counter calls (new_handler dir service type_names) st refl (omega arith) in
    (g, (run, (counter ∙ omega arith, last)))
