-- ===== src/Projects/Coherent.antt =====
-- The active project is a row of the database, and the settings in effect are those merged from it.
use brup_http_proxy.Prelude.{
  ◌≡◌, refl, sym, ◌∙◌, ap, Bool, true, false, Option, none, some, List, [], ◌∷◌, Bool-cases, inl,
  inr, if◌then◌else◌, arith,
}
use brup_http_proxy.Bytes.{Bytes, bytes_eq}
use brup_http_proxy.Bytes.Laws.{bytes_eq_iff}
use brup_http_proxy.Db.{ProjectRow, Database, get_project, update_project, is_project, first_row}
use brup_http_proxy.Db.Rows.{first_row-update_rows}
use brup_http_proxy.Projects.{ProjectManager, is_active, refresh, with_db, update}

pub first_row-yes {ℓ} :
    {A : Type ℓ} (p : A → Bool) (xs : List A) (x : A) → first_row p xs ≡ some x → p x ≡ true
unfolding first_row
first_row-yes p [] x e = absurd (cc e)
first_row-yes p (y ∷ xs) x e = elim (Bool-cases (p y)) [
  | inl f ↦ ground (arith, e, f)
  | inr f ↦ first_row-yes p xs x (ground (arith, e, f))
]

-- The active project is `id`, and what the manager keeps of it is its row.
abbrev pub LoadedAs {ℓ} : {S : Type ℓ} → Bytes → ProjectRow → ProjectManager S → Type 0
LoadedAs id row m =
    (m.active_id ≡ some id) × (get_project id m.db ≡ some row) × (m.active ≡ some row)

abbrev pub Loaded {ℓ} : {S : Type ℓ} → ProjectManager S → Type 0
Loaded m = (id : Bytes) × (row : ProjectRow) × LoadedAs id row m

abbrev pub after_change : Bytes → (ProjectRow → ProjectRow) → ProjectRow → ProjectRow
after_change id change row = if is_project id row then change row else row

got :
    (id a : Bytes) (change : ProjectRow → ProjectRow) (db : Database) (row : ProjectRow)
    → ((x : ProjectRow) → (change x).id ≡ x.id)
    → get_project a db ≡ some row
    → get_project a (update_project id change db) ≡ some (after_change id change row)
unfolding get_project update_project bytes_eq
got id a change db row h g =
    first_row-update_rows (is_project a) (is_project id) change db.projects
      (λ x. ap (λ b. bytes_eq b a) (h x))
    ∙ ap
        (λ (o : Option ProjectRow). elim o as (λ z. Option ProjectRow) [
          | none ↦ none
          | some x ↦ some (after_change id change x)
        ])
        g

pub other_row :
    (id a : Bytes) (change : ProjectRow → ProjectRow) (db : Database) (row : ProjectRow)
    → get_project a db ≡ some row
    → bytes_eq id a ≡ false
    → after_change id change row ≡ row
unfolding get_project bytes_eq
other_row id a change db row g e = elim (Bool-cases (bytes_eq row.id id)) [
  | inl f ↦ absurd (
      cc (
        e,
        (bytes_eq_iff id a).1 (
            sym ((bytes_eq_iff row.id id).0 f)
            ∙ (bytes_eq_iff row.id a).0 (first_row-yes (is_project a) db.projects row g)),
      ))
  | inr f ↦ simp f refl
]

module _ {ℓ} {S : Type ℓ} (id : Bytes) (change : ProjectRow → ProjectRow)
    (m : ProjectManager S) where
  pub update-db : (update id change m).db ≡ update_project id change m.db
  unfolding update refresh
  update-db = elim (Bool-cases (is_active id (with_db (update_project id change m.db) m))) [
    | inl e ↦ simp (e, update) refl
    | inr e ↦ simp (e, update) refl
  ]

  pub update-active_id : (update id change m).active_id ≡ m.active_id
  unfolding update refresh
  update-active_id = elim (Bool-cases (is_active id (with_db (update_project id change m.db) m))) [
    | inl e ↦ simp (e, update) refl
    | inr e ↦ simp (e, update) refl
  ]

  pub update-store : (update id change m).store ≡ m.store
  unfolding update refresh
  update-store = elim (Bool-cases (is_active id (with_db (update_project id change m.db) m))) [
    | inl e ↦ simp (e, update) refl
    | inr e ↦ simp (e, update) refl
  ]

  pub update-cached : (update id change m).cached ≡ m.cached
  unfolding update refresh
  update-cached = elim (Bool-cases (is_active id (with_db (update_project id change m.db) m))) [
    | inl e ↦ simp (e, update) refl
    | inr e ↦ simp (e, update) refl
  ]

  same_active :
      (a : Bytes)
      → m.active_id ≡ some a
      → is_active id (with_db (update_project id change m.db) m) ≡ bytes_eq id a
  unfolding is_active
  same_active a i = simp (i, is_active) refl

  update-active :
      (a : Bytes)
      → m.active_id ≡ some a
      → bytes_eq id a ≡ true
      → (update id change m).active ≡ get_project id (update_project id change m.db)
  unfolding update refresh
  update-active a i e = simp (same_active a i ∙ e, update, refresh) refl

  update-active_other :
      (a : Bytes)
      → m.active_id ≡ some a
      → bytes_eq id a ≡ false
      → (update id change m).active ≡ m.active
  unfolding update refresh
  update-active_other a i e = simp (same_active a i ∙ e, update, refresh) refl

  pub update-LoadedAs :
      (a : Bytes) (row : ProjectRow)
      → ((x : ProjectRow) → (change x).id ≡ x.id)
      → LoadedAs a row m
      → LoadedAs a (after_change id change row) (update id change m)
  update-LoadedAs a row h (i, g, r) = (
    update-active_id ∙ i,
    ap (get_project a) update-db ∙ got id a change m.db row h g,
    elim (Bool-cases (bytes_eq id a)) [
      | inl e ↦
          update-active a i e
          ∙ ap (λ x. get_project x (update_project id change m.db)) ((bytes_eq_iff id a).0 e)
          ∙ got id a change m.db row h g
      | inr e ↦ update-active_other a i e ∙ r ∙ ap some (sym (other_row id a change m.db row g e))
    ],
  )
