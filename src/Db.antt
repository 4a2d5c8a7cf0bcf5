-- ===== src/Db.antt =====
-- The tables of backend/brup/db.py as lists of rows, and the queries on projects, flows, attacks and tabs.
-- A table is in the order of its rowid, which for the flows is their identifier. Columns that no query
-- selects by are an association list of texts, and a JSON object is the list of its members. No caller of
-- `update_flow` names `id`, and its value would be no text.
pub mod Rows
pub mod Trim
pub mod Flows
pub mod Delete
mod Tests
use brup_http_proxy.Prelude.{
  ℕ, zero, suc, ◌-◌, Bool, true, false, not, ◌&&◌, ◌||◌, Option, none, some, List, [], ◌∷◌, ◌++◌,
  map, ◌==◌, if◌then◌else◌, ltb, length, take, drop, any, keep,
}
use brup_http_proxy.Bytes.{Bytes, codes, bytes_eq}
use brup_http_proxy.Config.Overrides.{assign}

abbrev pub Columns : Type 0
Columns = List (Bytes × Bytes)

pub record ProjectRow : Type 0 where
  pub id : Bytes
  pub name : Bytes
  pub created : ℕ
  pub notes : Bytes
  pub overrides : Columns
  pub temporary : Bool

pub record FlowRow : Type 0 where
  pub id : ℕ
  pub project_id : Bytes
  pub columns : Columns

pub record AttackRow : Type 0 where
  pub id : Bytes
  pub project_id : Bytes
  pub status : Bytes
  pub message : Bytes
  pub columns : Columns

pub record ResultRow : Type 0 where
  pub attack_id : Bytes
  pub idx : ℕ
  pub columns : Columns

pub record TabRow : Type 0 where
  pub id : Bytes
  pub project_id : Bytes
  pub position : ℕ
  pub columns : Columns

-- `next_flow` is above every identifier that was ever given to a flow (AUTOINCREMENT).
pub record Database : Type 0 where
  pub meta : Columns
  pub projects : List ProjectRow
  pub flows : List FlowRow
  pub next_flow : ℕ
  pub attacks : List AttackRow
  pub results : List ResultRow
  pub tabs : List TabRow

-- the first row that a condition finds
unfoldable pub first_row {ℓ} : {A : Type ℓ} → (A → Bool) → List A → Option A
first_row p [] = none
first_row p (row ∷ rows) = let rest = first_row p rows in if p row then some row else rest

-- UPDATE of the rows that a condition finds
unfoldable pub update_rows {ℓ} : {A : Type ℓ} → (A → Bool) → (A → A) → List A → List A
update_rows p f [] = []
update_rows p f (row ∷ rows) = (if p row then f row else row) ∷ update_rows p f rows

-- DELETE of the rows that a condition finds
abbrev pub delete_rows {ℓ} : {A : Type ℓ} → (A → Bool) → List A → List A
delete_rows p rows = keep (λ row. not (p row)) rows

unfoldable pub set_meta : Bytes → Bytes → Database → Database
unfolding assign
set_meta key value db = record db { meta = assign db.meta key value }

unfoldable pub get_meta : Bytes → Database → Option Bytes
unfolding first_row bytes_eq
get_meta key db = elim (first_row (λ (row : Bytes × Bytes). bytes_eq row.0 key) db.meta) [
  | none ↦ none
  | some row ↦ some row.1
]

-- `ORDER BY p.created`, where rows of the same time stay in their order
unfoldable pub insert_by_created : ProjectRow → List ProjectRow → List ProjectRow
insert_by_created row [] = row ∷ []
insert_by_created row (other ∷ rows) =
    let rest = insert_by_created row rows in
    if ltb row.created other.created then row ∷ other ∷ rows else other ∷ rest

unfoldable pub by_created : List ProjectRow → List ProjectRow → List ProjectRow
unfolding insert_by_created
by_created sorted [] = sorted
by_created sorted (row ∷ rows) = by_created (insert_by_created row sorted) rows

-- `list_projects`, without the counts
unfoldable pub list_projects : Database → List ProjectRow
unfolding by_created
list_projects db = by_created [] db.projects

abbrev pub is_project : Bytes → ProjectRow → Bool
unfolding bytes_eq
is_project project_id row = bytes_eq row.id project_id

unfoldable pub get_project : Bytes → Database → Option ProjectRow
unfolding first_row bytes_eq
get_project project_id db = first_row (is_project project_id) db.projects

-- the identifier is a fresh one of the uuid module, and `now` the time
unfoldable pub create_project :
    Bytes → ℕ → Bytes → Columns → Bool → Database → ProjectRow × Database
create_project id now name overrides temporary db =
    let row : ProjectRow = record {
      id = id;
      name = name;
      created = now;
      notes = [];
      overrides = overrides;
      temporary = temporary;
    } in
    (row, record db { projects = db.projects ++ row ∷ [] })

-- `_update_project`; `change` assigns the columns
unfoldable pub update_project : Bytes → (ProjectRow → ProjectRow) → Database → Database
unfolding update_rows bytes_eq
update_project project_id change db = record db {
  projects = update_rows (is_project project_id) change db.projects;
}

abbrev pub attack_ids : List AttackRow → List Bytes
attack_ids rows = map (λ row. row.id) rows

abbrev pub of_project : Bytes → AttackRow → Bool
unfolding bytes_eq
of_project project_id row = bytes_eq row.project_id project_id

-- Results hang off attacks, so they are cleared by the attacks' identifiers first.
unfoldable pub delete_project : Bytes → Database → Database
unfolding bytes_eq
delete_project project_id db =
    let attacks = attack_ids (keep (of_project project_id) db.attacks) in
    record db {
      results = delete_rows (λ row. any (bytes_eq row.attack_id) attacks) db.results;
      flows = delete_rows (λ row. bytes_eq row.project_id project_id) db.flows;
      attacks = delete_rows (of_project project_id) db.attacks;
      tabs = delete_rows (λ row. bytes_eq row.project_id project_id) db.tabs;
      projects = delete_rows (is_project project_id) db.projects;
    }

unfoldable pub delete_each : List Bytes → Database → Database
unfolding delete_project
delete_each [] db = db
delete_each (id ∷ ids) db = delete_each ids (delete_project id db)

unfoldable pub purge_temporary_projects : Database → Database
unfolding delete_each
purge_temporary_projects db =
    delete_each (map (λ row. row.id) (keep (λ row. row.temporary) db.projects)) db

-- the last statements of `__init__`: temporary projects go, and attacks that a killed run left behind stop
unfoldable pub opened : Bytes → Database → Database
unfolding purge_temporary_projects set_meta update_rows bytes_eq
opened version db =
    let purged = set_meta (codes "schema_version") version (purge_temporary_projects db) in
    record purged {
      attacks =
          update_rows
            (λ row. bytes_eq row.status (codes "running") || bytes_eq row.status (codes "paused"))
            (λ row. record row {
              status = codes "stopped";
              message = codes "interrupted by a restart";
            })
            purged.attacks;
    }

unfoldable pub insert_flow : Bytes → Columns → Database → ℕ × Database
insert_flow project_id columns db =
    let row : FlowRow = record { id = db.next_flow; project_id = project_id; columns = columns } in
    (db.next_flow, record db { next_flow = suc db.next_flow; flows = db.flows ++ row ∷ [] })

unfoldable pub assign_all : Columns → Columns → Columns
unfolding assign
assign_all columns [] = columns
assign_all columns ((key, value) ∷ data') = assign_all (assign columns key value) data'

-- SET of one column after the other
unfoldable pub set_columns : Columns → FlowRow → FlowRow
unfolding assign bytes_eq
set_columns [] row = row
set_columns ((key, value) ∷ data') row = set_columns data' (record row {
  project_id = if bytes_eq key (codes "project_id") then value else row.project_id;
  columns = if bytes_eq key (codes "project_id") then row.columns else assign row.columns key value;
})

unfoldable pub update_flow : ℕ → Columns → Database → Database
unfolding update_rows set_columns
update_flow flow_id data' db = record db {
  flows = update_rows (λ row. row.id == flow_id) (set_columns data') db.flows;
}

abbrev pub flow_of_project : Bytes → FlowRow → Bool
unfolding bytes_eq
flow_of_project project_id row = bytes_eq row.project_id project_id

unfoldable pub get_flow : Bytes → ℕ → Database → Option FlowRow
unfolding first_row bytes_eq
get_flow project_id flow_id db =
    first_row (λ row. row.id == flow_id && flow_of_project project_id row) db.flows

unfoldable pub clear_flows : Bytes → Database → Database
unfolding bytes_eq
clear_flows project_id db = record db { flows = delete_rows (flow_of_project project_id) db.flows }

abbrev pub flow_ids : List FlowRow → List ℕ
flow_ids rows = map (λ row. row.id) rows

-- `SELECT id ... ORDER BY id DESC LIMIT keep`: the last identifiers, since they ascend
unfoldable pub newest : Bytes → ℕ → List FlowRow → List ℕ
unfolding bytes_eq
newest project_id limit rows =
    let ids = flow_ids (keep (flow_of_project project_id) rows) in drop (length ids - limit) ids

unfoldable pub trimmed : Bytes → ℕ → List FlowRow → List FlowRow
unfolding newest bytes_eq
trimmed project_id limit rows =
    let ids = newest project_id limit rows in
    delete_rows (λ row. flow_of_project project_id row && not (any (λ id. row.id == id) ids)) rows

unfoldable pub trim : Bytes → ℕ → Database → Database
unfolding trimmed
trim project_id limit db = record db { flows = trimmed project_id limit db.flows }

-- INSERT OR REPLACE, by the primary key
unfoldable pub upsert_attack : AttackRow → Database → Database
unfolding bytes_eq
upsert_attack row db = record db {
  attacks = delete_rows (λ other. bytes_eq other.id row.id) db.attacks ++ row ∷ [];
}

unfoldable pub delete_attack : Bytes → Database → Database
unfolding bytes_eq
delete_attack attack_id db = record db {
  results = delete_rows (λ row. bytes_eq row.attack_id attack_id) db.results;
  attacks = delete_rows (λ row. bytes_eq row.id attack_id) db.attacks;
}

unfoldable pub insert_result : ResultRow → Database → Database
unfolding bytes_eq
insert_result row db = record db {
  results =
      delete_rows (λ other. bytes_eq other.attack_id row.attack_id && other.idx == row.idx)
        db.results
      ++ row ∷ [];
}

unfoldable pub delete_results : Bytes → Database → Database
unfolding bytes_eq
delete_results attack_id db = record db {
  results = delete_rows (λ row. bytes_eq row.attack_id attack_id) db.results;
}
