-- ===== src/Projects/Deletion.antt =====
-- The deletion of a project.
use brup_http_proxy.Prelude.{
  ◌≡◌, ◌≢◌, refl, sym, ◌∙◌, ap, Bool, true, false, none, some, List, [], ◌∷◌, Bool-cases,
  Option-cases, inl, inr, ◌⊎◌, leb, length, any, keep, ltb, ◌||◌, ◌==◌, arith,
}
use brup_http_proxy.Bytes.{Bytes, bytes_eq}
use brup_http_proxy.Bytes.Laws.{bytes_eq_iff}
use brup_http_proxy.Result.{Result, ok, err, project_error, index_error}
use brup_http_proxy.Db.{
  Columns, ProjectRow, Database, get_project, is_project, insert_by_created, by_created, first_row,
  delete_project, list_projects, flow_of_project, set_meta,
}
use brup_http_proxy.Db.Delete.{delete_project-Gone, delete_project_other}
use brup_http_proxy.Projects.{
  ProjectManager, invalidate, set_active, is_active, with_db, delete, active_key, settings,
  merged_now, remember, published, announced,
}
use brup_http_proxy.Projects.Coherent.{Loaded}

List-cases {ℓ} :
    {A : Type ℓ} (xs : List A) → (xs ≡ []) ⊎ ((x : A) × (rest : List A) × (xs ≡ x ∷ rest))
List-cases [] = inl refl
List-cases (x ∷ rest) = inr (x, rest, refl)

-- A project is active, and nothing of the one that is deleted is left in the list and in the history.
abbrev pub Survives {ℓ} : {S : Type ℓ} → Bytes → ProjectManager S → Type 0
Survives id m =
    Loaded m × (get_project id m.db ≡ none) × (keep (flow_of_project id) m.db.flows ≡ [])

-- How a deletion ends: it is refused and changes nothing, or the project is gone, also if the settings in
-- effect cannot be merged after it, or no project is left that could be active.
pub data Deletes {ℓ} {S : Type ℓ} (id : Bytes) (m : ProjectManager S)
    : Result (Unit {0}) × ProjectManager S → Type ℓ where
  refuses : Deletes id m (err project_error, m)
  deletes : (r : Result (Unit {0})) (m' : ProjectManager S) → Survives id m' → Deletes id m (r, m')
  strands : (m' : ProjectManager S) → list_projects m'.db ≡ [] → Deletes id m (err index_error, m')

or_swap : (a b c : Bool) → (a || (b || c)) ≡ (b || (a || c))
or_swap true true c = refl
or_swap true false c = refl
or_swap false b c = refl

or_assoc : (a b c : Bool) → (a || (b || c)) ≡ ((a || b) || c)
or_assoc true b c = refl
or_assoc false b c = refl

or_false : (a : Bool) → (a || false) ≡ a
or_false true = refl
or_false false = refl

any-insert_by_created :
    (p : ProjectRow → Bool) (row : ProjectRow) (rows : List ProjectRow)
    → any p (insert_by_created row rows) ≡ (p row || any p rows)
unfolding insert_by_created
any-insert_by_created p row [] = refl
any-insert_by_created p row (other ∷ rows) = elim (Bool-cases (ltb row.created other.created)) [
  | inl e ↦ simp (e, insert_by_created) refl
  | inr e ↦
      simp (e, insert_by_created)
        (ap (λ b. p other || b) (any-insert_by_created p row rows)
          ∙ or_swap (p other) (p row) (any p rows))
]

any-by_created :
    (p : ProjectRow → Bool) (sorted rows : List ProjectRow)
    → any p (by_created sorted rows) ≡ (any p rows || any p sorted)
unfolding by_created
any-by_created p sorted [] = refl
any-by_created p sorted (row ∷ rows) =
    any-by_created p (insert_by_created row sorted) rows
    ∙ ap (λ b. any p rows || b) (any-insert_by_created p row sorted)
    ∙ or_swap (any p rows) (p row) (any p sorted)
    ∙ or_assoc (p row) (any p rows) (any p sorted)

first_row-found :
    (p : ProjectRow → Bool) (rows : List ProjectRow)
    → any p rows ≡ true
    → (row : ProjectRow) × (first_row p rows ≡ some row)
unfolding first_row
first_row-found p [] e = absurd (cc e)
first_row-found p (row ∷ rows) e = elim (Bool-cases (p row)) [
  | inl f ↦ (row, simp (f, first_row) refl)
  | inr f ↦
      let later = first_row-found p rows (ground (arith, e, f)) in
      (later.0, simp (f, first_row) later.1)
]

-- The first project of the list is found by its identifier.
head-found :
    (db : Database) (row : ProjectRow) (rows : List ProjectRow)
    → list_projects db ≡ row ∷ rows
    → (found : ProjectRow) × (get_project row.id db ≡ some found)
unfolding list_projects get_project bytes_eq
head-found db row rows e =
    let p = is_project row.id in
    first_row-found p db.projects (
      sym (or_false (any p db.projects))
      ∙ sym (any-by_created p [] db.projects)
      ∙ ap (any p) e
      ∙ ap (λ b. b || any p rows) ((bytes_eq_iff row.id row.id).1 refl))

module _ {ℓ} {S : Type ℓ} (model_validate : Columns → Result S) (model_dump : S → Columns)
    (defaults : S) where
  other_id :
      (id a : Bytes) (m : ProjectManager S) → m.active_id ≡ some a → is_active id m ≡ false → a ≢ id
  unfolding is_active
  other_id id a m i c = λ q.
      let same : is_active id m ≡ bytes_eq id a = simp (i, is_active) refl in
      cc (c, same, (bytes_eq_iff id a).1 (sym q))

  remembered-Deletes :
      (id : Bytes) (m m' : ProjectManager S) (r : Result S)
      → Survives id m'
      → Deletes id m (
          published model_validate model_dump defaults
            (remember model_validate model_dump defaults m' r))
  unfolding remember
  remembered-Deletes id m m' (ok s) h = deletes (ok tt) _ h
  remembered-Deletes id m m' (err e) h = deletes (err e) m' h

  -- Reading the settings changes nothing but the cache.
  settings-Deletes :
      (id : Bytes) (m m' : ProjectManager S)
      → Survives id m'
      → Deletes id m (
          published model_validate model_dump defaults
            (settings model_validate model_dump defaults m'))
  unfolding settings
  settings-Deletes id m m' h =
      let now = remembered-Deletes id m m' (merged_now model_validate model_dump defaults m') h in
      elim (Option-cases m'.cached) [
        | inl e ↦ simp (e, settings) now
        | inr (c, e) ↦ elim (Bool-cases (c.base == m'.store.version)) [
          | inl b ↦ simp (e, b, settings) (deletes (ok tt) m' h)
          | inr b ↦ simp (e, b, settings) now
        ]
      ]

  after_deletion :
      (id next : Bytes) (m gone : ProjectManager S) (row : ProjectRow)
      → get_project next gone.db ≡ some row
      → get_project id gone.db ≡ none
      → keep (flow_of_project id) gone.db.flows ≡ []
      → Deletes id m (announced model_validate model_dump defaults (set_active next gone))
  unfolding set_active announced get_project set_meta invalidate
  after_deletion id next m gone row g n f =
      simp (g, set_active)
        (settings-Deletes id m
          (record (invalidate gone) {
            active_id = some next;
            active = some row;
            db = set_meta active_key next gone.db;
          })
          ((next, row, (refl, g, refl)), n, f))

  -- A deletion is refused and changes nothing, or leaves neither the project nor its history and another
  -- project that is active, unless no project is left at all.
  pub delete-Deletes :
      (id : Bytes) (m : ProjectManager S)
      → Loaded m
      → Deletes id m (delete model_validate model_dump defaults id m)
  unfolding delete
  delete-Deletes id m (a, row, (i, g, r)) =
      let gone = with_db (delete_project id m.db) m in
      let cleared = delete_project-Gone id m.db in
      elim (Bool-cases (leb (length (list_projects m.db)) 1)) [
        | inl e ↦ simp (e, delete) refuses
        | inr e ↦ elim (Bool-cases (any (is_project id) (list_projects m.db))) [
          | inr k ↦ simp (e, k, delete) refuses
          | inl k ↦ elim (Bool-cases (is_active id m)) [
            | inl c ↦ elim (List-cases (list_projects (delete_project id m.db))) [
              | inl n ↦ simp (e, k, c, n, delete) (strands gone n)
              | inr (first, rest, n) ↦
                  let found = head-found (delete_project id m.db) first rest n in
                  simp (e, k, c, n, delete)
                    (after_deletion id first.id m gone found.0 found.1 cleared.0 cleared.1)
            ]
            | inr c ↦
                let still = (delete_project_other id a m.db (other_id id a m i c)).0 ∙ g in
                simp (e, k, c, delete)
                  (deletes (ok tt) gone ((a, row, (i, still, r)), cleared.0, cleared.1))
          ]
        ]
      ]
