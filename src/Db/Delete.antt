-- ===== src/Db/Delete.antt =====
-- What deleting a project leaves.
use brup_http_proxy.Prelude.{
  ◌≡◌, ◌≢◌, sym, ◌∙◌, Bool, true, false, none, [], Bool-cases, inl, inr, keep, any, All,
}
use brup_http_proxy.Bytes.{Bytes, bytes_eq}
use brup_http_proxy.Bytes.Laws.{bytes_eq_iff}
use brup_http_proxy.Db.{
  ResultRow, TabRow, Database, is_project, flow_of_project, of_project, attack_ids, get_project,
  delete_project,
}
use brup_http_proxy.Db.Rows.{
  keep-delete_rows, keep-delete_rows_other, All-delete_rows, first_row-delete_rows,
  first_row-delete_rows-none,
}

abbrev pub tab_of_project : Bytes → TabRow → Bool
unfolding bytes_eq
tab_of_project project_id row = bytes_eq row.project_id project_id

-- a text is not both
pub distinct_texts : (x p q : Bytes) → q ≢ p → bytes_eq x q ≡ true → bytes_eq x p ≡ false
distinct_texts x p q d e = elim (Bool-cases (bytes_eq x p)) [
  | inl f ↦ absurd (d (sym ((bytes_eq_iff x q).0 e) ∙ (bytes_eq_iff x p).0 f))
  | inr f ↦ f
]

-- After a project is deleted, it is not found, no flow, attack or tab of it is left, and no result of an
-- attack that it had.
pub delete_project-Gone :
    (p : Bytes) (db : Database)
    → (get_project p (delete_project p db) ≡ none)
      × (keep (flow_of_project p) (delete_project p db).flows ≡ [])
      × (keep (of_project p) (delete_project p db).attacks ≡ [])
      × (keep (tab_of_project p) (delete_project p db).tabs ≡ [])
      × All
          (λ (row : ResultRow).
            any (bytes_eq row.attack_id) (attack_ids (keep (of_project p) db.attacks)) ≡ false)
          (delete_project p db).results
unfolding delete_project get_project
delete_project-Gone p db = (
  first_row-delete_rows-none (is_project p) db.projects,
  keep-delete_rows (flow_of_project p) db.flows,
  keep-delete_rows (of_project p) db.attacks,
  keep-delete_rows (tab_of_project p) db.tabs,
  All-delete_rows
      (λ row. any (bytes_eq row.attack_id) (attack_ids (keep (of_project p) db.attacks)))
      db.results,
)

-- Deleting a project leaves any other project, its flows, its attacks and its tabs as they were.
pub delete_project_other :
    (p q : Bytes) (db : Database)
    → q ≢ p
    → (get_project q (delete_project p db) ≡ get_project q db)
      × (keep (flow_of_project q) (delete_project p db).flows ≡ keep (flow_of_project q) db.flows)
      × (keep (of_project q) (delete_project p db).attacks ≡ keep (of_project q) db.attacks)
      × (keep (tab_of_project q) (delete_project p db).tabs ≡ keep (tab_of_project q) db.tabs)
unfolding delete_project get_project
delete_project_other p q db d = (
  first_row-delete_rows (is_project p) (is_project q) db.projects
      (λ row. distinct_texts row.id p q d),
  keep-delete_rows_other (flow_of_project p) (flow_of_project q) db.flows
      (λ row. distinct_texts row.project_id p q d),
  keep-delete_rows_other (of_project p) (of_project q) db.attacks
      (λ row. distinct_texts row.project_id p q d),
  keep-delete_rows_other (tab_of_project p) (tab_of_project q) db.tabs
      (λ row. distinct_texts row.project_id p q d),
)
