-- ===== src/Db/Flows.antt =====
-- The identifiers of the flows, whatever is written.
use mathlib.Core.Path.{subst}
use brup_http_proxy.Prelude.{
  ℕ, suc, ◌≡◌, refl, sym, ◌<◌, ◌≤◌, Bool, List, [], ◌∷◌, ◌++◌, ◌==◌, Bool-cases, inl, inr, keep,
  All, arith,
}
use brup_http_proxy.Bytes.{Bytes}
use brup_http_proxy.Db.{
  Columns, FlowRow, Database, trimmed, trim, insert_flow, update_flow, clear_flows, delete_project,
  update_rows, set_columns,
}
use brup_http_proxy.Db.Rows.{All-keep}
use brup_http_proxy.Db.Trim.{Ascending, Below, keep-Ascending}

-- The identifiers ascend, and the next one is above them all.
abbrev pub Numbered : Database → Type 0
Numbered db = Ascending db.flows × Below db.next_flow db.flows

-- the operations that change the table of flows
pub data Write : Type 0 where
  insert : Bytes → Columns → Write
  update : ℕ → Columns → Write
  clear delete : Bytes → Write
  shorten : Bytes → ℕ → Write

unfoldable pub write : Write → Database → Database
unfolding insert_flow update_flow clear_flows trim delete_project
write (insert project_id columns) db = (insert_flow project_id columns db).1
write (update flow_id columns) db = update_flow flow_id columns db
write (clear project_id) db = clear_flows project_id db
write (delete project_id) db = delete_project project_id db
write (shorten project_id limit) db = trim project_id limit db

unfoldable pub write_all : List Write → Database → Database
unfolding write
write_all [] db = db
write_all (w ∷ ws) db = write_all ws (write w db)

Below-suc : (n : ℕ) (rows : List FlowRow) → Below n rows → Below (suc n) rows
Below-suc n [] h = tt
Below-suc n (row ∷ rows) h = (omega (arith, h.0), Below-suc n rows h.1)

Below-append :
    (n : ℕ) (rows : List FlowRow) (row : FlowRow)
    → row.id < n
    → Below n rows
    → Below n (rows ++ row ∷ [])
Below-append n [] row e h = (e, tt)
Below-append n (other ∷ rows) row e h = (h.0, Below-append n rows row e h.1)

Ascending-append :
    (rows : List FlowRow) (row : FlowRow)
    → Ascending rows
    → Below row.id rows
    → Ascending (rows ++ row ∷ [])
Ascending-append [] row h b = (tt, tt)
Ascending-append (other ∷ rows) row h b = (above rows h.0, Ascending-append rows row h.1 b.1)
  where
    above :
        (rest : List FlowRow)
        → All (λ (x : FlowRow). other.id < x.id) rest
        → All (λ (x : FlowRow). other.id < x.id) (rest ++ row ∷ [])
    above [] k = (b.0, tt)
    above (x ∷ rest) k = (k.0, above rest k.1)

set_columns_id : (data' : Columns) (row : FlowRow) → (set_columns data' row).id ≡ row.id
unfolding set_columns
set_columns_id [] row = refl
set_columns_id ((key, value) ∷ data') row = set_columns_id data' _

-- An update leaves the identifiers alone and keeps what is said of them.
All-update_rows :
    (P : ℕ → Type 0) (q : FlowRow → Bool) (data' : Columns) (rows : List FlowRow)
    → All (λ (row : FlowRow). P row.id) rows
    → All (λ (row : FlowRow). P row.id) (update_rows q (set_columns data') rows)
unfolding update_rows
All-update_rows P q data' [] h = tt
All-update_rows P q data' (row ∷ rows) h = elim (Bool-cases (q row)) [
  | inl e ↦
      simp (e, update_rows)
        (subst P (sym (set_columns_id data' row)) h.0, All-update_rows P q data' rows h.1)
  | inr e ↦ simp (e, update_rows) (h.0, All-update_rows P q data' rows h.1)
]

Ascending-update_rows :
    (q : FlowRow → Bool) (data' : Columns) (rows : List FlowRow)
    → Ascending rows
    → Ascending (update_rows q (set_columns data') rows)
unfolding update_rows
Ascending-update_rows q data' [] h = tt
Ascending-update_rows q data' (row ∷ rows) h =
    let later = All-update_rows (λ n. row.id < n) q data' rows h.0 in
    let same = sym (set_columns_id data' row) in
    let rest = update_rows q (set_columns data') rows in
    elim (Bool-cases (q row)) [
      | inl e ↦
          simp (e, update_rows)
            (
              subst (λ n. All (λ (r : FlowRow). n < r.id) rest) same later,
              Ascending-update_rows q data' rows h.1,
            )
      | inr e ↦ simp (e, update_rows) (later, Ascending-update_rows q data' rows h.1)
    ]

keep-Numbered :
    (p : FlowRow → Bool) (n : ℕ) (rows : List FlowRow)
    → Ascending rows × Below n rows
    → Ascending (keep p rows) × Below n (keep p rows)
keep-Numbered p n rows h =
    (keep-Ascending p rows h.0, All-keep (λ (row : FlowRow). row.id < n) p rows h.1)

write-Numbered : (w : Write) (db : Database) → Numbered db → Numbered (write w db)
unfolding write insert_flow update_flow clear_flows trim trimmed delete_project
write-Numbered (insert project_id columns) db h = (
  Ascending-append db.flows _ h.0 h.1,
  Below-append (suc db.next_flow) db.flows _ (omega arith) (Below-suc db.next_flow db.flows h.1),
)
write-Numbered (update flow_id columns) db h = (
  Ascending-update_rows (λ row. row.id == flow_id) columns db.flows h.0,
  All-update_rows (λ n. n < db.next_flow) (λ row. row.id == flow_id) columns db.flows h.1,
)
write-Numbered (clear project_id) db h = keep-Numbered _ db.next_flow db.flows h
write-Numbered (delete project_id) db h = keep-Numbered _ db.next_flow db.flows h
write-Numbered (shorten project_id limit) db h = keep-Numbered _ db.next_flow db.flows h

-- the identifiers that the insertions return, in their order
unfoldable pub given : List Write → Database → List ℕ
unfolding insert_flow write
given [] db = []
given (insert project_id columns ∷ ws) db =
    (insert_flow project_id columns db).0 ∷ given ws (write (insert project_id columns) db)
given (update flow_id columns ∷ ws) db = given ws (write (update flow_id columns) db)
given (clear project_id ∷ ws) db = given ws (write (clear project_id) db)
given (delete project_id ∷ ws) db = given ws (write (delete project_id) db)
given (shorten project_id limit ∷ ws) db = given ws (write (shorten project_id limit) db)

-- Each is above the ones before it, and none is below `n`.
abbrev pub Rising : ℕ → List ℕ → Type 0
Rising n [] = Unit
Rising n (id ∷ ids) = (n ≤ id) × Rising (suc id) ids

given-Rising : (ws : List Write) (db : Database) → Rising db.next_flow (given ws db)
unfolding given write insert_flow update_flow clear_flows trim delete_project
given-Rising [] db = tt
given-Rising (insert project_id columns ∷ ws) db =
    (omega arith, given-Rising ws (write (insert project_id columns) db))
given-Rising (update flow_id columns ∷ ws) db = given-Rising ws (write (update flow_id columns) db)
given-Rising (clear project_id ∷ ws) db = given-Rising ws (write (clear project_id) db)
given-Rising (delete project_id ∷ ws) db = given-Rising ws (write (delete project_id) db)
given-Rising (shorten project_id limit ∷ ws) db =
    given-Rising ws (write (shorten project_id limit) db)

-- Whatever is inserted, updated, cleared, trimmed and deleted, every identifier that an insertion returns is
-- above all that were returned before and all that the table held at first, also those of rows that
-- have been deleted, so that none is given out twice, and the identifiers in the table ascend and
-- stay below the next one.
pub write_all-Numbered :
    (ws : List Write) (db : Database)
    → Numbered db
    → Rising db.next_flow (given ws db) × Numbered (write_all ws db)
unfolding write_all
write_all-Numbered ws db h = (given-Rising ws db, after ws db h)
  where
    after : (ws : List Write) (db : Database) → Numbered db → Numbered (write_all ws db)
    after [] db h = h
    after (w ∷ ws) db h = after ws (write w db) (write-Numbered w db h)
