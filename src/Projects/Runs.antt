-- ===== src/Projects/Runs.antt =====
-- The settings in effect, whatever the operator does with projects and settings.
use brup_http_proxy.Prelude.{
  ℕ, suc, ◌≡◌, refl, sym, ◌∙◌, ap, Bool, false, Option, none, some, List, [], ◌∷◌, Bool-cases,
  Option-cases, inl, inr, is_empty,
}
use brup_http_proxy.Bytes.{Bytes, bytes_eq, strip_text}
use brup_http_proxy.Result.{Result, ok, err, Result-cases}
use brup_http_proxy.Config.Overrides.{validate_overrides}
use brup_http_proxy.Db.{
  Columns, ProjectRow, Database, get_project, create_project, is_project, assign_all,
}
use brup_http_proxy.Db.Rows.{first_row-append}
use brup_http_proxy.Projects.{
  Store, ProjectManager, invalidate, set_active, is_active, with_db, permanent, renamed, annotated,
  overriding, update, copied, create, keep_project, announced, activate, rename, set_notes,
  merged_now, settings, set_overrides, update_system, fields_of_patch, patched,
}
use brup_http_proxy.Projects.Coherent.{
  LoadedAs, Loaded, after_change, other_row, update-active_id, update-LoadedAs,
}
use brup_http_proxy.Projects.Steps.{
  Coherent, ValidAt, settings-Coherent, settings-merged_now, published-Coherent,
  set_active-Coherent, updated-Coherent, update-Coherent, moved,
}

module _ {ℓ} {S : Type ℓ} (model_validate : Columns → Result S) (model_dump : S → Columns)
    (defaults : S) where
  is_active_of :
      (id a : Bytes) (m : ProjectManager S) → m.active_id ≡ some a → is_active id m ≡ bytes_eq id a
  unfolding is_active
  is_active_of id a m i = simp (i, is_active) refl

  -- the database changes, and the row of the active project does not
  with_db-Coherent :
      (a : Bytes) (row : ProjectRow) (db : Database) (m : ProjectManager S)
      → LoadedAs a row m
      → ValidAt model_validate model_dump defaults m m.cached
      → get_project a db ≡ some row
      → Coherent model_validate model_dump defaults (with_db db m)
  unfolding merged_now
  with_db-Coherent a row db m (i, g, r) v e = (
    (a, row, (i, e, r)),
    moved model_validate model_dump defaults m (with_db db m) m.cached refl refl v,
  )

  create-Coherent :
      (fresh : Bytes) (now : ℕ) (name : Bytes) (source : Option Bytes) (temporary : Bool)
      (m : ProjectManager S)
      → Coherent model_validate model_dump defaults m
      → Coherent model_validate model_dump defaults (create fresh now name source temporary m).1
  unfolding create create_project get_project merged_now
  create-Coherent fresh now name source temporary m ((a, row, l), v) =
      elim (Bool-cases (is_empty (strip_text name))) [
        | inl e ↦ simp (e, create) ((a, row, l), v)
        | inr e ↦ elim (Result-cases (copied source m.db)) [
          | inr (x, r) ↦ simp (e, r, create) ((a, row, l), v)
          | inl (overrides, r) ↦
              simp (e, r, create)
                (with_db-Coherent a row
                  (create_project fresh now (strip_text name) overrides temporary m.db).1 m l v
                  (first_row-append (is_project a) m.db.projects _ row l.1))
        ]
      ]

  keep_project-Coherent :
      (id : Bytes) (m : ProjectManager S)
      → Coherent model_validate model_dump defaults m
      → Coherent model_validate model_dump defaults (keep_project id m).1
  unfolding keep_project
  keep_project-Coherent id m c = elim (Option-cases (get_project id m.db)) [
    | inl e ↦ simp (e, keep_project) c
    | inr (row, e) ↦ elim (Bool-cases row.temporary) [
      | inl t ↦
          simp (e, t, keep_project)
            (update-Coherent model_validate model_dump defaults id permanent m (λ x. refl)
              (λ x. refl) c)
      | inr t ↦ simp (e, t, keep_project) c
    ]
  ]

  announced-Coherent :
      (r : Result (Unit {0}) × ProjectManager S)
      → Coherent model_validate model_dump defaults r.1
      → Coherent model_validate model_dump defaults
          (announced model_validate model_dump defaults r).1
  unfolding announced
  announced-Coherent (ok done, m) c =
      published-Coherent model_validate model_dump defaults
        (settings model_validate model_dump defaults m)
        (settings-Coherent model_validate model_dump defaults m c)
  announced-Coherent (err e, m) c = c

  activate-Coherent :
      (id : Bytes) (m : ProjectManager S)
      → Coherent model_validate model_dump defaults m
      → Coherent model_validate model_dump defaults
          (activate model_validate model_dump defaults id m).1
  unfolding activate
  activate-Coherent id m c = elim (Bool-cases (is_active id m)) [
    | inl e ↦ simp (e, activate) c
    | inr e ↦
        simp (e, activate)
          (announced-Coherent (set_active id m)
            (set_active-Coherent model_validate model_dump defaults id m c))
  ]

  rename-Coherent :
      (id name : Bytes) (m : ProjectManager S)
      → Coherent model_validate model_dump defaults m
      → Coherent model_validate model_dump defaults (rename id name m).1
  unfolding rename
  rename-Coherent id name m c = elim (Bool-cases (is_empty (strip_text name))) [
    | inl e ↦ simp (e, rename) c
    | inr e ↦ elim (Option-cases (get_project id m.db)) [
      | inl g ↦ simp (e, g, rename) c
      | inr (row, g) ↦
          simp (e, g, rename)
            (update-Coherent model_validate model_dump defaults id (renamed (strip_text name)) m
              (λ x. refl) (λ x. refl) c)
    ]
  ]

  set_notes-Coherent :
      (id notes : Bytes) (m : ProjectManager S)
      → Coherent model_validate model_dump defaults m
      → Coherent model_validate model_dump defaults (set_notes id notes m).1
  unfolding set_notes
  set_notes-Coherent id notes m c =
      let kept =
        update-Coherent model_validate model_dump defaults id (annotated notes) m (λ x. refl)
          (λ x. refl) c in
      elim (Option-cases (get_project id (update id (annotated notes) m).db)) [
        | inl e ↦ simp (e, set_notes) kept
        | inr (row, e) ↦ simp (e, set_notes) kept
      ]

  update_system-Coherent :
      (patch : Columns) (m : ProjectManager S)
      → Coherent model_validate model_dump defaults m
      → Coherent model_validate model_dump defaults
          (update_system model_validate model_dump defaults patch m).1
  unfolding update_system invalidate
  update_system-Coherent patch m (l, v) =
      elim (Result-cases (model_validate (assign_all (model_dump m.store.value) patch))) [
        | inr (x, e) ↦ simp (e, update_system) (l, v)
        | inl (new, e) ↦
            let store : Store S = record { version = suc m.store.version; value = new } in
            let fresh : ProjectManager S = record m { store = store; cached = none } in
            simp (e, update_system)
              (published-Coherent model_validate model_dump defaults
                (settings model_validate model_dump defaults fresh)
                (settings-Coherent model_validate model_dump defaults fresh (l, tt)))
      ]

  -- new overrides of the active project, whose cache is dropped, and of another one
  overriding_active-Coherent :
      (id : Bytes) (overrides : Columns) (m : ProjectManager S)
      → Coherent model_validate model_dump defaults m
      → Coherent model_validate model_dump defaults
          (invalidate (update id (overriding overrides) m))
  unfolding invalidate
  overriding_active-Coherent id overrides m ((a, row, l), v) = (
    (
      a,
      after_change id (overriding overrides) row,
      update-LoadedAs id (overriding overrides) m a row (λ x. refl) l,
    ),
    tt,
  )

  overriding_other-Coherent :
      (id : Bytes) (overrides : Columns) (m : ProjectManager S)
      → Coherent model_validate model_dump defaults m
      → is_active id (update id (overriding overrides) m) ≡ false
      → Coherent model_validate model_dump defaults (update id (overriding overrides) m)
  overriding_other-Coherent id overrides m ((a, row, l), v) e =
      let change = overriding overrides in
      let same = is_active_of id a (update id change m) (update-active_id id change m ∙ l.0) in
      updated-Coherent model_validate model_dump defaults id a change m row (λ x. refl)
        (ap (λ (x : ProjectRow). x.overrides) (other_row id a change m.db row l.1 (sym same ∙ e))) l
        v

  set_overrides-Coherent :
      (id : Bytes) (patch : List (Bytes × Option Bytes)) (m : ProjectManager S)
      → Coherent model_validate model_dump defaults m
      → Coherent model_validate model_dump defaults
          (set_overrides model_validate model_dump defaults id patch m).1
  unfolding set_overrides
  set_overrides-Coherent id patch m c = elim (Option-cases (get_project id m.db)) [
    | inl e ↦ simp (e, set_overrides) c
    | inr (row, e) ↦
        elim (Result-cases (
          validate_overrides model_validate model_dump defaults
            (fields_of_patch (patched row.overrides patch)))) [
              | inr (x, o) ↦ simp (e, o, set_overrides) c
              | inl (cleaned, o) ↦
                  elim (Bool-cases (is_active id (update id (overriding cleaned) m))) [
                    | inl k ↦
                        simp (e, o, k, set_overrides)
                          (published-Coherent model_validate model_dump defaults _ (
                            settings-Coherent model_validate model_dump defaults
                              (invalidate (update id (overriding cleaned) m))
                              (overriding_active-Coherent id cleaned m c)))
                    | inr k ↦
                        simp (e, o, k, set_overrides) (overriding_other-Coherent id cleaned m c k)
                  ]
            ]
  ]

-- what the operator and the proxy do, but for deletions
pub data Action : Type 0 where
  create_one : Bytes → ℕ → Bytes → Option Bytes → Bool → Action
  keep_one activate_one : Bytes → Action
  rename_to note_down : Bytes → Bytes → Action
  override : Bytes → List (Bytes × Option Bytes) → Action
  configure : Columns → Action
  read_settings : Action

module _ {ℓ} {S : Type ℓ} (model_validate : Columns → Result S) (model_dump : S → Columns)
    (defaults : S) where
  unfoldable pub act : Action → ProjectManager S → ProjectManager S
  unfolding create keep_project activate rename set_notes set_overrides update_system settings
  act (create_one fresh now name source temporary) m = (create fresh now name source temporary m).1
  act (keep_one id) m = (keep_project id m).1
  act (activate_one id) m = (activate model_validate model_dump defaults id m).1
  act (rename_to id name) m = (rename id name m).1
  act (note_down id notes) m = (set_notes id notes m).1
  act (override id patch) m = (set_overrides model_validate model_dump defaults id patch m).1
  act (configure patch) m = (update_system model_validate model_dump defaults patch m).1
  act read_settings m = (settings model_validate model_dump defaults m).1

  unfoldable pub run : List Action → ProjectManager S → ProjectManager S
  unfolding act
  run [] m = m
  run (action ∷ actions) m = run actions (act action m)

  act-Coherent :
      (action : Action) (m : ProjectManager S)
      → Coherent model_validate model_dump defaults m
      → Coherent model_validate model_dump defaults (act action m)
  unfolding act
  act-Coherent (create_one fresh now name source temporary) m c =
      create-Coherent model_validate model_dump defaults fresh now name source temporary m c
  act-Coherent (keep_one id) m c = keep_project-Coherent model_validate model_dump defaults id m c
  act-Coherent (activate_one id) m c = activate-Coherent model_validate model_dump defaults id m c
  act-Coherent (rename_to id name) m c =
      rename-Coherent model_validate model_dump defaults id name m c
  act-Coherent (note_down id notes) m c =
      set_notes-Coherent model_validate model_dump defaults id notes m c
  act-Coherent (override id patch) m c =
      set_overrides-Coherent model_validate model_dump defaults id patch m c
  act-Coherent (configure patch) m c =
      update_system-Coherent model_validate model_dump defaults patch m c
  act-Coherent read_settings m c = settings-Coherent model_validate model_dump defaults m c

  run-Coherent :
      (actions : List Action) (m : ProjectManager S)
      → Coherent model_validate model_dump defaults m
      → Coherent model_validate model_dump defaults (run actions m)
  unfolding run
  run-Coherent [] m c = c
  run-Coherent (action ∷ actions) m c =
      run-Coherent actions (act action m) (act-Coherent action m c)

  -- Whatever projects are created, kept, activated, renamed, annotated and given overrides, and however the
  -- system settings change, the active project stays a row of the database, and the settings in effect
  -- are those merged now from the system settings and that row's overrides: the cache is never stale.
  pub settings-run :
      (actions : List Action) (m : ProjectManager S)
      → Coherent model_validate model_dump defaults m
      → Loaded (run actions m)
        × ((settings model_validate model_dump defaults (run actions m)).0
            ≡ merged_now model_validate model_dump defaults (run actions m))
  settings-run actions m c =
      let c' = run-Coherent actions m c in
      (c'.0, settings-merged_now model_validate model_dump defaults (run actions m) c')
