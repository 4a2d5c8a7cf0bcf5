-- ===== src/Projects.antt =====
-- `ProjectManager` of backend/brup/projects.py: the active project and the settings in effect, over the
-- tables of the database. A value of a setting is a text; what pydantic accepts as settings is a
-- parameter. Events are left out, but for the settings that they read.
pub mod Coherent
pub mod Steps
pub mod Runs
pub mod Deletion
mod Tests
use brup_http_proxy.Prelude.{
  ℕ, zero, suc, Bool, true, false, not, ◌&&◌, Option, none, some, List, [], ◌∷◌, ◌++◌, ◌==◌,
  if◌then◌else◌, is_empty, length, any, leb,
}
use brup_http_proxy.Bytes.{Bytes, codes, bytes_eq, strip_text}
use brup_http_proxy.Result.{
  Error, Result, ok, err, project_error, value_error, other_error, index_error,
}
use brup_http_proxy.Config.Overrides.{assign, merge_settings, validate_overrides}
use brup_http_proxy.Db.{
  Columns, ProjectRow, Database, list_projects, get_project, create_project, update_project,
  delete_project, set_meta, get_meta, first_row, is_project, delete_rows, assign_all,
}

abbrev pub active_key : Bytes
active_key = codes "active_project"

abbrev pub bootstrap_name : Bytes
bootstrap_name = codes "Temporary project"

-- `SettingsStore`: an update replaces the settings object, so `version` tells objects apart.
pub record Store {ℓ} (S : Type ℓ) : Type ℓ where
  pub version : ℕ
  pub value : S

-- the system settings that a cache was made for, and the settings that it holds
pub record Cached {ℓ} (S : Type ℓ) : Type ℓ where
  pub base : ℕ
  pub value : S

-- The manager with its database and its store.
pub record ProjectManager {ℓ} (S : Type ℓ) : Type ℓ where
  pub db : Database
  pub store : Store S
  pub active_id : Option Bytes
  pub active : Option ProjectRow
  pub cached : Option (Cached S)

abbrev pub fields_of_patch : Columns → List (Bytes × Option Bytes)
fields_of_patch [] = []
fields_of_patch ((key, value) ∷ fields) = (key, some value) ∷ fields_of_patch fields

-- `merged.pop(key, None)`
unfoldable pub pop_key : Bytes → Columns → Columns
unfolding bytes_eq
pop_key key fields = delete_rows (λ (f : Bytes × Bytes). bytes_eq f.0 key) fields

-- a patch over the overrides, where a null value clears a key
unfoldable pub patched : Columns → List (Bytes × Option Bytes) → Columns
unfolding pop_key assign
patched merged [] = merged
patched merged ((key, none) ∷ patch) = patched (pop_key key merged) patch
patched merged ((key, some value) ∷ patch) = patched (assign merged key value) patch

abbrev first_id : List ProjectRow → Bytes → Bytes
first_id [] other = other
first_id (row ∷ rows) other = row.id

-- the project to start with: the one that was active, or the first
unfoldable pub chosen : List ProjectRow → Option Bytes → Bytes → Bytes
unfolding first_row bytes_eq
chosen projects none fresh = first_id projects fresh
chosen projects (some wanted) fresh = elim (first_row (is_project wanted) projects) [
  | none ↦ first_id projects fresh
  | some row ↦ row.id
]

-- the overrides of the project that is copied, if one is named
abbrev pub copied : Option Bytes → Database → Result Columns
unfolding get_project
copied none db = ok []
copied (some id) db = elim (get_project id db) [
  | none ↦ err project_error
  | some row ↦ ok row.overrides
]

abbrev pub permanent : ProjectRow → ProjectRow
permanent row = record row { temporary = false }

abbrev pub renamed : Bytes → ProjectRow → ProjectRow
renamed name row = record row { name = name }

abbrev pub annotated : Bytes → ProjectRow → ProjectRow
annotated notes row = record row { notes = notes }

abbrev pub overriding : Columns → ProjectRow → ProjectRow
overriding overrides row = record row { overrides = overrides }

module _ {ℓ} {S : Type ℓ} where
  unfoldable pub invalidate : ProjectManager S → ProjectManager S
  invalidate m = record m { cached = none }

  -- `_set_active`
  unfoldable pub set_active : Bytes → ProjectManager S → Result (Unit {0}) × ProjectManager S
  unfolding get_project set_meta invalidate
  set_active project_id m = elim (get_project project_id m.db) [
    | none ↦ (err project_error, m)
    | some row ↦ (
      ok tt,
      record (invalidate m) {
        active_id = some project_id;
        active = some row;
        db = set_meta active_key project_id m.db;
      },
    )
  ]

  unfoldable pub is_active : Bytes → ProjectManager S → Bool
  unfolding bytes_eq
  is_active project_id m = elim m.active_id [ none ↦ false | some id ↦ bytes_eq project_id id ]

  -- `if project_id == self._active_id: self._active = await self.db.get_project(project_id)`
  unfoldable pub refresh : Bytes → ProjectManager S → ProjectManager S
  unfolding is_active get_project
  refresh project_id m =
      if is_active project_id m then record m { active = get_project project_id m.db } else m

  abbrev pub with_db : Database → ProjectManager S → ProjectManager S
  with_db db m = record m { db = db }

  -- `load`; a project that is created has the identifier `fresh` and the time `now`
  unfoldable pub load : Bytes → ℕ → ProjectManager S → Result (Unit {0}) × ProjectManager S
  unfolding list_projects create_project get_meta chosen set_active
  load fresh now m =
      let projects = list_projects m.db in
      if is_empty projects
      then (let created = create_project fresh now bootstrap_name [] true m.db in
          set_active fresh (with_db created.1 m))
      else set_active (chosen projects (get_meta active_key m.db) fresh) m

  -- `create`; `source` is the project whose overrides are copied, if one is named
  unfoldable pub create :
      Bytes
      → ℕ
      → Bytes
      → Option Bytes
      → Bool
      → ProjectManager S
      → Result (Unit {0}) × ProjectManager S
  unfolding strip_text copied create_project
  create fresh now name source temporary m =
      let stripped = strip_text name in
      if is_empty stripped then (err project_error, m) else elim (copied source m.db) [
        | err e ↦ (err e, m)
        | ok overrides ↦
            (ok tt, with_db (create_project fresh now stripped overrides temporary m.db).1 m)
      ]

  -- the row in the table, and the active project if it is that
  unfoldable pub update : Bytes → (ProjectRow → ProjectRow) → ProjectManager S → ProjectManager S
  unfolding update_project refresh
  update project_id change m =
      refresh project_id (with_db (update_project project_id change m.db) m)

  -- `keep`
  unfoldable pub keep_project : Bytes → ProjectManager S → Result (Unit {0}) × ProjectManager S
  unfolding get_project update
  keep_project project_id m = elim (get_project project_id m.db) [
    | none ↦ (err project_error, m)
    | some row ↦
        if not row.temporary then (err project_error, m) else (ok tt, update project_id permanent m)
  ]

  unfoldable pub rename : Bytes → Bytes → ProjectManager S → Result (Unit {0}) × ProjectManager S
  unfolding strip_text get_project update
  rename project_id name m =
      let stripped = strip_text name in
      if is_empty stripped then (err project_error, m) else elim (get_project project_id m.db) [
        | none ↦ (err project_error, m)
        | some row ↦ (ok tt, update project_id (renamed stripped) m)
      ]

  -- A project that does not exist is no error until its row is read back.
  unfoldable pub set_notes : Bytes → Bytes → ProjectManager S → Result (Unit {0}) × ProjectManager S
  unfolding update get_project
  set_notes project_id notes m =
      let changed = update project_id (annotated notes) m in
      elim (get_project project_id changed.db) [
        | none ↦ (err other_error, changed)
        | some row ↦ (ok tt, changed)
      ]

module _ {ℓ} {S : Type ℓ} (model_validate : Columns → Result S) (model_dump : S → Columns)
    (defaults : S) where
  -- `settings`, which keeps what it merges
  unfoldable pub merged_now : ProjectManager S → Result S
  unfolding merge_settings
  merged_now m = elim m.active [
    | none ↦ err project_error
    | some row ↦ merge_settings model_validate model_dump m.store.value row.overrides
  ]

  unfoldable pub remember : ProjectManager S → Result S → Result S × ProjectManager S
  remember m (err e) = (err e, m)
  remember m (ok s) =
      (ok s, record m { cached = some (record { base = m.store.version; value = s }) })

  unfoldable pub settings : ProjectManager S → Result S × ProjectManager S
  unfolding merged_now remember
  settings m = elim m.cached [
    | none ↦ remember m (merged_now m)
    | some c ↦ if c.base == m.store.version then (ok c.value, m) else remember m (merged_now m)
  ]

  -- the error of a validation as the operator sees it
  abbrev pub as_project_error : Error → Error
  as_project_error value_error = project_error
  as_project_error e = e

  -- the event with the settings in effect
  abbrev pub published : Result S × ProjectManager S → Result (Unit {0}) × ProjectManager S
  published (err e, m) = (err e, m)
  published (ok s, m) = (ok tt, m)

  unfoldable pub set_overrides :
      Bytes → List (Bytes × Option Bytes) → ProjectManager S → Result (Unit {0}) × ProjectManager S
  unfolding get_project patched validate_overrides update is_active invalidate settings
  set_overrides project_id patch m = elim (get_project project_id m.db) [
    | none ↦ (err project_error, m)
    | some row ↦
        elim (validate_overrides model_validate model_dump defaults
          (fields_of_patch (patched row.overrides patch))) [
            | err e ↦ (err (as_project_error e), m)
            | ok cleaned ↦
                let changed = update project_id (overriding cleaned) m in
                if is_active project_id changed
                then published (settings (invalidate changed))
                else (ok tt, changed)
          ]
  ]

  -- `update_system`: the new settings object, and the settings in effect for the event
  unfoldable pub update_system : Columns → ProjectManager S → Result (Unit {0}) × ProjectManager S
  unfolding invalidate settings
  update_system patch m = elim (model_validate (assign_all (model_dump m.store.value) patch)) [
    | err e ↦ (err e, m)
    | ok new ↦
        let replaced = record m { store = record { version = suc m.store.version; value = new } } in
        published (settings (invalidate replaced))
  ]

  -- `project_changed`, with the settings in effect
  unfoldable pub announced :
      Result (Unit {0}) × ProjectManager S → Result (Unit {0}) × ProjectManager S
  unfolding settings
  announced (err e, m) = (err e, m)
  announced (ok done, m) = published (settings m)

  unfoldable pub activate : Bytes → ProjectManager S → Result (Unit {0}) × ProjectManager S
  unfolding is_active set_active announced
  activate project_id m =
      if is_active project_id m then (ok tt, m) else announced (set_active project_id m)

  -- `delete`
  unfoldable pub delete : Bytes → ProjectManager S → Result (Unit {0}) × ProjectManager S
  unfolding list_projects delete_project is_active set_active announced bytes_eq
  delete project_id m =
      let projects = list_projects m.db in
      let gone = with_db (delete_project project_id m.db) m in
      if leb (length projects) 1
      then (err project_error, m)
      else if not (any (is_project project_id) projects)
      then (err project_error, m)
      else if is_active project_id m
      then (elim (list_projects gone.db) [
        | [] ↦ (err index_error, gone)
        | row ∷ rows ↦ announced (set_active row.id gone)
      ])
      else (ok tt, gone)
