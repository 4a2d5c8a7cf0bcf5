-- ===== src/Projects/Steps.antt =====
-- The settings in effect are kept in step with the active project.
use mathlib.Core.Path.{subst}
use brup_http_proxy.Prelude.{
  ◌≡◌, refl, sym, ◌∙◌, ap, Option, none, some, ==_refl, Bool-cases, Option-cases, inl, inr,
}
use brup_http_proxy.Bytes.{Bytes}
use brup_http_proxy.Result.{Result, ok, err}
use brup_http_proxy.Config.Overrides.{merge_settings}
use brup_http_proxy.Db.{Columns, ProjectRow, get_project, is_project, set_meta}
use brup_http_proxy.Projects.{
  Store, Cached, ProjectManager, invalidate, set_active, update, merged_now, remember, settings,
  published,
}
use brup_http_proxy.Projects.Coherent.{
  LoadedAs, Loaded, after_change, update-store, update-cached, update-LoadedAs,
}

module _ {ℓ} {S : Type ℓ} (model_validate : Columns → Result S) (model_dump : S → Columns)
    (defaults : S) where
  -- What is kept of the settings was merged from the settings object and the overrides that are in use.
  abbrev pub ValidAt : ProjectManager S → Option (Cached S) → Type ℓ
  ValidAt m none = Unit
  ValidAt m (some c) =
      (c.base ≡ m.store.version) × (merged_now model_validate model_dump defaults m ≡ ok c.value)

  abbrev pub Coherent : ProjectManager S → Type ℓ
  Coherent m = Loaded m × ValidAt m m.cached

  merged_now_of :
      (m : ProjectManager S) (row : ProjectRow)
      → m.active ≡ some row
      → merged_now model_validate model_dump defaults m
        ≡ merge_settings model_validate model_dump m.store.value row.overrides
  unfolding merged_now
  merged_now_of m row e = simp (e, merged_now) refl

  remember-Coherent :
      (m : ProjectManager S) (r : Result S)
      → Coherent m
      → merged_now model_validate model_dump defaults m ≡ r
      → Coherent (remember model_validate model_dump defaults m r).1
  unfolding remember merged_now
  remember-Coherent m (ok s) c e = (c.0, (refl, e))
  remember-Coherent m (err x) c e = c

  remember_value :
      (m : ProjectManager S) (r : Result S)
      → (remember model_validate model_dump defaults m r).0 ≡ r
  unfolding remember
  remember_value m (ok s) = refl
  remember_value m (err x) = refl

  -- The settings that are read are those merged now, whether they come from the cache or not.
  pub settings-merged_now :
      (m : ProjectManager S)
      → Coherent m
      → (settings model_validate model_dump defaults m).0
        ≡ merged_now model_validate model_dump defaults m
  unfolding settings
  settings-merged_now m (l, v) = elim (Option-cases m.cached) [
    | inl e ↦
        simp (e, settings) (remember_value m (merged_now model_validate model_dump defaults m))
    | inr (c, e) ↦
        let valid = subst (ValidAt m) e v in
        simp (e, valid.0, ==_refl m.store.version, settings) (sym valid.1)
  ]

  miss :
      (m : ProjectManager S)
      → m.cached ≡ none
      → settings model_validate model_dump defaults m
        ≡ remember model_validate model_dump defaults m
            (merged_now model_validate model_dump defaults m)
  unfolding settings
  miss m e = simp (e, settings) refl

  hit :
      (m : ProjectManager S) (k : Cached S)
      → m.cached ≡ some k
      → k.base ≡ m.store.version
      → settings model_validate model_dump defaults m ≡ (ok k.value, m)
  unfolding settings
  hit m k e b = simp (e, b, ==_refl m.store.version, settings) refl

  pub settings-Coherent :
      (m : ProjectManager S)
      → Coherent m
      → Coherent (settings model_validate model_dump defaults m).1
  unfolding settings
  settings-Coherent m c = elim (Option-cases m.cached) [
    | inl e ↦
        subst (λ (r : Result S × ProjectManager S). Coherent r.1) (sym (miss m e))
          (remember-Coherent m (merged_now model_validate model_dump defaults m) c refl)
    | inr (k, e) ↦
        subst (λ (r : Result S × ProjectManager S). Coherent r.1)
          (sym (hit m k e (subst (ValidAt m) e c.1).0)) c
  ]

  pub published-Coherent :
      (r : Result S × ProjectManager S)
      → Coherent r.1
      → Coherent (published model_validate model_dump defaults r).1
  published-Coherent (ok s, m) c = c
  published-Coherent (err e, m) c = c

  pub set_active-Coherent :
      (id : Bytes) (m : ProjectManager S) → Coherent m → Coherent (set_active id m).1
  unfolding set_active get_project set_meta invalidate
  set_active-Coherent id m c = elim (Option-cases (get_project id m.db)) [
    | inl e ↦ simp (e, set_active) c
    | inr (row, e) ↦ simp (e, set_active) ((id, row, (refl, e, refl)), tt)
  ]

  pub moved :
      (m m' : ProjectManager S) (o : Option (Cached S))
      → m'.store ≡ m.store
      → merged_now model_validate model_dump defaults m'
        ≡ merged_now model_validate model_dump defaults m
      → ValidAt m o
      → ValidAt m' o
  moved m m' none s e v = tt
  moved m m' (some c) s e v = (v.0 ∙ ap (λ (x : Store S). x.version) (sym s), e ∙ v.1)

  pub merged_same :
      (m m' : ProjectManager S) (row row' : ProjectRow)
      → m'.store ≡ m.store
      → m.active ≡ some row
      → m'.active ≡ some row'
      → row'.overrides ≡ row.overrides
      → merged_now model_validate model_dump defaults m'
        ≡ merged_now model_validate model_dump defaults m
  merged_same m m' row row' s a a' o =
      merged_now_of m' row' a'
      ∙ ap (λ (x : Store S). merge_settings model_validate model_dump x.value row'.overrides) s
      ∙ ap (λ x. merge_settings model_validate model_dump m.store.value x) o
      ∙ sym (merged_now_of m row a)

  -- An update of a project whose overrides, as far as the active one is concerned, stay as they are.
  pub updated-Coherent :
      (id a : Bytes) (change : ProjectRow → ProjectRow) (m : ProjectManager S) (row : ProjectRow)
      → ((x : ProjectRow) → (change x).id ≡ x.id)
      → (after_change id change row).overrides ≡ row.overrides
      → LoadedAs a row m
      → ValidAt m m.cached
      → Coherent (update id change m)
  updated-Coherent id a change m row h k l v =
      let l' = update-LoadedAs id change m a row h l in
      let s = update-store id change m in
      (
        (a, after_change id change row, l'),
        subst (ValidAt (update id change m)) (sym (update-cached id change m)) (
            moved m (update id change m) m.cached s
              (merged_same m (update id change m) row (after_change id change row) s l.2 l'.2 k) v),
      )

  same_overrides :
      (id : Bytes) (change : ProjectRow → ProjectRow) (row : ProjectRow)
      → ((x : ProjectRow) → (change x).overrides ≡ x.overrides)
      → (after_change id change row).overrides ≡ row.overrides
  same_overrides id change row k = elim (Bool-cases (is_project id row)) [
    | inl e ↦ simp e (k row)
    | inr e ↦ simp e refl
  ]

  pub update-Coherent :
      (id : Bytes) (change : ProjectRow → ProjectRow) (m : ProjectManager S)
      → ((x : ProjectRow) → (change x).id ≡ x.id)
      → ((x : ProjectRow) → (change x).overrides ≡ x.overrides)
      → Coherent m
      → Coherent (update id change m)
  update-Coherent id change m h k ((a, row, l), v) =
      updated-Coherent id a change m row h (same_overrides id change row k) l v
