-- ===== src/Db/Trim.antt =====
-- What trimming leaves of the history.
use brup_http_proxy.Prelude.{
  ℕ, zero, suc, ◌-◌, ◌<◌, ◌≡◌, ◌≢◌, refl, sym, ◌∙◌, ap, Bool, true, false, not, ◌&&◌, List, [], ◌∷◌,
  ◌==◌, Bool-cases, inl, inr, keep, any, All, drop, length, length-map, arith, ==_refl, ==_ne,
}
use brup_http_proxy.Bytes.{Bytes, bytes_eq}
use brup_http_proxy.Bytes.Laws.{bytes_eq_iff}
use brup_http_proxy.Db.{FlowRow, Database, flow_of_project, flow_ids, newest, trimmed, trim}
use brup_http_proxy.Db.Rows.{keep-keep, keep_same, keep-All, keep-delete_rows_other, All-keep}

-- The identifiers ascend, and are below the next one.
abbrev pub Ascending : List FlowRow → Type 0
Ascending [] = Unit
Ascending (row ∷ rows) = All (λ (other : FlowRow). row.id < other.id) rows × Ascending rows

abbrev pub Below : ℕ → List FlowRow → Type 0
Below n rows = All (λ (row : FlowRow). row.id < n) rows

pub keep-Ascending :
    (p : FlowRow → Bool) (rows : List FlowRow) → Ascending rows → Ascending (keep p rows)
keep-Ascending p [] h = tt
keep-Ascending p (row ∷ rows) h = elim (Bool-cases (p row)) [
  | inl e ↦
      simp (e, keep)
        (All-keep (λ (other : FlowRow). row.id < other.id) p rows h.0, keep-Ascending p rows h.1)
  | inr e ↦ simp (e, keep) (keep-Ascending p rows h.1)
]

not_later :
    (id m : ℕ) (rows : List FlowRow)
    → All (λ (other : FlowRow). id < other.id) rows
    → any (λ i. id == i) (drop m (flow_ids rows)) ≡ false
not_later id zero [] h = refl
not_later id (suc m) [] h = refl
not_later id zero (row ∷ rows) h =
    simp (==_ne id row.id (omega (arith, h.0))) (not_later id zero rows h.1)
not_later id (suc m) (row ∷ rows) h = not_later id m rows h.1

one_more :
    (id : ℕ) (ids : List ℕ) (rows : List FlowRow)
    → All (λ (row : FlowRow). any (λ i. row.id == i) ids ≡ true) rows
    → All (λ (row : FlowRow). any (λ i. row.id == i) (id ∷ ids) ≡ true) rows
one_more id ids [] h = tt
one_more id ids (row ∷ rows) h = (
  elim (Bool-cases (row.id == id)) [ inl e ↦ simp e refl | inr e ↦ simp e h.0 ],
  one_more id ids rows h.1,
)

own_ids :
    (rows : List FlowRow)
    → All (λ (row : FlowRow). any (λ i. row.id == i) (flow_ids rows) ≡ true) rows
own_ids [] = tt
own_ids (row ∷ rows) =
    (simp (==_refl row.id) refl, one_more row.id (flow_ids rows) rows (own_ids rows))

keep_last :
    (m : ℕ) (rows : List FlowRow)
    → Ascending rows
    → keep (λ (row : FlowRow). any (λ i. row.id == i) (drop m (flow_ids rows))) rows ≡ drop m rows
keep_last zero rows h =
    keep-All (λ (row : FlowRow). any (λ i. row.id == i) (flow_ids rows)) rows (own_ids rows)
keep_last (suc m) [] h = refl
keep_last (suc m) (row ∷ rows) h = simp (not_later row.id m rows h.0, keep) (keep_last m rows h.1)

kept_own :
    (p : Bytes) (ids : List ℕ) (row : FlowRow)
    → flow_of_project p row ≡ true
    → not (flow_of_project p row && not (any (λ id. row.id == id) ids))
      ≡ any (λ id. row.id == id) ids
kept_own p ids row e = elim (Bool-cases (any (λ id. row.id == id) ids)) [
  | inl f ↦ simp (e, f) refl
  | inr f ↦ simp (e, f) refl
]

other_project :
    (p q : Bytes) (ids : List ℕ) (row : FlowRow)
    → q ≢ p
    → flow_of_project q row ≡ true
    → (flow_of_project p row && not (any (λ id. row.id == id) ids)) ≡ false
unfolding bytes_eq flow_of_project
other_project p q ids row d e = elim (Bool-cases (flow_of_project p row)) [
  | inl f ↦
      absurd (d (sym ((bytes_eq_iff row.project_id q).0 e) ∙ (bytes_eq_iff row.project_id p).0 f))
  | inr f ↦ simp f refl
]

own_rows :
    (p : Bytes) (limit : ℕ) (rows : List FlowRow)
    → Ascending rows
    → keep (flow_of_project p) (trimmed p limit rows)
      ≡ drop (length (keep (flow_of_project p) rows) - limit) (keep (flow_of_project p) rows)
unfolding trimmed newest
own_rows p limit rows h =
    let mine = keep (flow_of_project p) rows in
    let ids = newest p limit rows in
    keep-keep (flow_of_project p)
      (λ row. not (flow_of_project p row && not (any (λ id. row.id == id) ids))) rows
    ∙ keep_same _ (λ row. any (λ id. row.id == id) ids) (flow_of_project p) rows (kept_own p ids)
    ∙ keep_last (length (flow_ids mine) - limit) mine (keep-Ascending (flow_of_project p) rows h)
    ∙ ap (λ n. drop (n - limit) mine) (length-map mine (λ (row : FlowRow). row.id))

-- Trimming leaves of a project the newest flows, as many as the limit allows, in their order, and of any
-- other project all flows, for a table whose identifiers ascend.
pub trim_lem :
    (p q : Bytes) (limit : ℕ) (db : Database)
    → Ascending db.flows
    → q ≢ p
    → (keep (flow_of_project p) (trim p limit db).flows
        ≡ drop
            (length (keep (flow_of_project p) db.flows) - limit)
            (keep (flow_of_project p) db.flows))
      × (keep (flow_of_project q) (trim p limit db).flows ≡ keep (flow_of_project q) db.flows)
unfolding trim trimmed
trim_lem p q limit db h d = (
  own_rows p limit db.flows h,
  keep-delete_rows_other _ (flow_of_project q) db.flows
      (λ row. other_project p q (newest p limit db.flows) row d),
)
