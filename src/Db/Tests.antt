-- ===== src/Db/Tests.antt =====
-- The theorems on the tables at a concrete database.
use brup_http_proxy.Prelude.{
  ℕ, ◌≡◌, ◌≢◌, true, false, List, [], ◌∷◌, ◌-◌, keep, drop, length, arith,
}
use brup_http_proxy.Bytes.{Bytes, codes, bytes_eq}
use brup_http_proxy.Bytes.Laws.{bytes_eq_iff}
use brup_http_proxy.Db.{
  Database, FlowRow, flow_of_project, of_project, get_project, trim, delete_project,
}
use brup_http_proxy.Db.Trim.{trim_lem}
use brup_http_proxy.Db.Flows.{
  Rising, given, Numbered, Write, insert, update, clear, delete, shorten, write_all,
  write_all-Numbered,
}
use brup_http_proxy.Db.Delete.{tab_of_project, delete_project_other}

abbrev flow : ℕ → Bytes → FlowRow
flow id project_id = record { id = id; project_id = project_id; columns = [] }

abbrev db : Database
db = record {
  meta = [];
  projects =
      record {
        id = codes "p";
        name = codes "P";
        created = 1;
        notes = [];
        overrides = [];
        temporary = false;
      }
      ∷ record {
        id = codes "q";
        name = codes "Q";
        created = 2;
        notes = [];
        overrides = [];
        temporary = true;
      }
      ∷ [];
  flows = flow 1 (codes "p") ∷ flow 2 (codes "q") ∷ flow 3 (codes "p") ∷ flow 4 (codes "p") ∷ [];
  next_flow = 5;
  attacks = [];
  results = [];
  tabs = [];
}

db-Numbered : Numbered db
db-Numbered = (
  (
    (omega arith, (omega arith, (omega arith, tt))),
    ((omega arith, (omega arith, tt)), ((omega arith, tt), (tt, tt))),
  ),
  (omega arith, (omega arith, (omega arith, (omega arith, tt)))),
)

q_ne_p : codes "q" ≢ codes "p"
unfolding bytes_eq
q_ne_p = λ e. cc ((bytes_eq_iff (codes "q") (codes "p")).1 e)

trim_lem_example :
    (keep (flow_of_project (codes "p")) (trim (codes "p") 2 db).flows
      ≡ drop
          (length (keep (flow_of_project (codes "p")) db.flows) - 2)
          (keep (flow_of_project (codes "p")) db.flows))
    × (keep (flow_of_project (codes "q")) (trim (codes "p") 2 db).flows
        ≡ keep (flow_of_project (codes "q")) db.flows)
trim_lem_example = trim_lem (codes "p") (codes "q") 2 db db-Numbered.0 q_ne_p

abbrev writes : List Write
writes =
    insert (codes "q") []
    ∷ update 3 ((codes "status", codes "200") ∷ [])
    ∷ shorten (codes "p") 1
    ∷ clear (codes "q")
    ∷ delete (codes "p")
    ∷ []

write_all-Numbered_example : Rising db.next_flow (given writes db) × Numbered (write_all writes db)
write_all-Numbered_example = write_all-Numbered writes db db-Numbered

delete_project_other_example :
    (get_project (codes "q") (delete_project (codes "p") db) ≡ get_project (codes "q") db)
    × (keep (flow_of_project (codes "q")) (delete_project (codes "p") db).flows
        ≡ keep (flow_of_project (codes "q")) db.flows)
    × (keep (of_project (codes "q")) (delete_project (codes "p") db).attacks
        ≡ keep (of_project (codes "q")) db.attacks)
    × (keep (tab_of_project (codes "q")) (delete_project (codes "p") db).tabs
        ≡ keep (tab_of_project (codes "q")) db.tabs)
delete_project_other_example = delete_project_other (codes "p") (codes "q") db q_ne_p
