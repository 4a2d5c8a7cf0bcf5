-- ===== src/Projects/Tests.antt =====
-- The theorems on projects at a concrete manager, whose settings are the columns themselves.
use brup_http_proxy.Prelude.{◌≡◌, refl, true, false, none, some, List, [], ◌∷◌}
use brup_http_proxy.Bytes.{codes, bytes_eq}
use brup_http_proxy.Result.{Result, ok}
use brup_http_proxy.Db.{Columns, ProjectRow, get_project}
use brup_http_proxy.Projects.{ProjectManager, merged_now, settings, delete}
use brup_http_proxy.Projects.Coherent.{Loaded}
use brup_http_proxy.Projects.Steps.{Coherent}
use brup_http_proxy.Projects.Runs.{
  Action, create_one, keep_one, activate_one, rename_to, override, configure, read_settings, run,
  settings-run,
}
use brup_http_proxy.Projects.Deletion.{Deletes, delete-Deletes}

abbrev accept : Columns → Result Columns
accept data' = ok data'

abbrev dump : Columns → Columns
dump data' = data'

abbrev row_p : ProjectRow
row_p = record {
  id = codes "p";
  name = codes "P";
  created = 1;
  notes = [];
  overrides = (codes "max_history", codes "5") ∷ [];
  temporary = true;
}

abbrev row_q : ProjectRow
row_q = record {
  id = codes "q";
  name = codes "Q";
  created = 2;
  notes = [];
  overrides = [];
  temporary = false;
}

abbrev manager : ProjectManager Columns
manager = record {
  db = record {
    meta = [];
    projects = row_p ∷ row_q ∷ [];
    flows = [];
    next_flow = 1;
    attacks = [];
    results = [];
    tabs = [];
  };
  store = record { version = 0; value = (codes "max_history", codes "9") ∷ [] };
  active_id = some (codes "p");
  active = some row_p;
  cached = none;
}

manager-Loaded : Loaded manager
unfolding get_project bytes_eq
manager-Loaded = (codes "p", row_p, (refl, refl, refl))

manager-Coherent : Coherent accept dump [] manager
manager-Coherent = (manager-Loaded, tt)

abbrev actions : List Action
actions =
    read_settings
    ∷ override (codes "p") ((codes "max_history", none) ∷ [])
    ∷ create_one (codes "r") 3 (codes "R") (some (codes "p")) false
    ∷ activate_one (codes "r")
    ∷ configure ((codes "max_history", codes "7") ∷ [])
    ∷ keep_one (codes "p")
    ∷ rename_to (codes "r") (codes "S")
    ∷ []

settings-run_example :
    Loaded (run accept dump [] actions manager)
    × ((settings accept dump [] (run accept dump [] actions manager)).0
        ≡ merged_now accept dump [] (run accept dump [] actions manager))
settings-run_example = settings-run accept dump [] actions manager manager-Coherent

delete-Deletes_example : Deletes (codes "p") manager (delete accept dump [] (codes "p") manager)
delete-Deletes_example = delete-Deletes accept dump [] (codes "p") manager manager-Loaded
