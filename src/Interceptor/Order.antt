-- ===== src/Interceptor/Order.antt =====
-- The table of pending items and its identifiers.
use brup_http_proxy.Prelude.{
  ℕ, suc, ◌≤◌, ◌≡◌, refl, Option, none, List, [], ◌∷◌, ◌++◌, arith, Bool-cases, Option-cases, inl,
  inr, ◌==◌,
}
use brup_http_proxy.Bytes.{Bytes}
use brup_http_proxy.Interceptor.{
  PendingItem, Interceptor, Future, Decision, Action, hold_message, leave_item, cancel_item,
  drop_item, forward_item, forward_every, drop_every, done, get, pop, put, hold, leave, cancel,
  resolve, forward, drop, resolve_all, ids_of, forward_all, drop_all, act, run,
}

abbrev pub Ascending : ℕ → ℕ → List PendingItem → Type 0
Ascending low next [] = low ≤ next
Ascending low next (item ∷ items) = (low ≤ item.id) × Ascending (suc item.id) next items

abbrev pub WellFormed : Interceptor → Type 0
WellFormed s = Ascending 0 s.next_id s.pending

Ascending-lower :
    (low more next : ℕ) (items : List PendingItem)
    → low ≤ more
    → Ascending more next items
    → Ascending low next items
Ascending-lower low more next [] h k = omega (arith, h, k)
Ascending-lower low more next (item ∷ items) h k = (omega (arith, h, k.0), k.1)

Ascending-append :
    (low next : ℕ) (items : List PendingItem) (item : PendingItem)
    → Ascending low next items
    → item.id ≡ next
    → Ascending low (suc next) (items ++ item ∷ [])
Ascending-append low next [] item h e = (omega (arith, h, e), omega (arith, e))
Ascending-append low next (x ∷ items) item h e =
    (h.0, Ascending-append (suc x.id) next items item h.1 e)

Ascending-pop :
    (id low next : ℕ) (items : List PendingItem)
    → Ascending low next items
    → Ascending low next (pop id items)
unfolding pop
Ascending-pop id low next [] h = h
Ascending-pop id low next (x ∷ items) h = elim (Bool-cases (x.id == id)) [
  | inl e ↦ rw (e, pop) (Ascending-lower low (suc x.id) next items (omega (arith, h.0)) h.1)
  | inr e ↦ rw (e, pop) (h.0, Ascending-pop id (suc x.id) next items h.1)
]

Ascending-put :
    (id low next : ℕ) (f : Future) (items : List PendingItem)
    → Ascending low next items
    → Ascending low next (put id f items)
unfolding put
Ascending-put id low next f [] h = h
Ascending-put id low next f (x ∷ items) h = elim (Bool-cases (x.id == id)) [
  | inl e ↦ rw (e, put) h
  | inr e ↦ rw (e, put) (h.0, Ascending-put id (suc x.id) next f items h.1)
]

leave-WellFormed : (id : ℕ) (s : Interceptor) → WellFormed s → WellFormed (leave id s)
unfolding leave
leave-WellFormed id s h = elim (Option-cases (get id s.pending)) [
  | inl e ↦ rw (e, leave) h
  | inr (item, e) ↦ elim (Bool-cases (done item.future)) [
    | inl d ↦ rw (e, d, leave) (Ascending-pop id 0 s.next_id s.pending h)
    | inr d ↦ rw (e, d, leave) h
  ]
]

cancel-WellFormed : (id : ℕ) (s : Interceptor) → WellFormed s → WellFormed (cancel id s)
unfolding cancel
cancel-WellFormed id s h = elim (Option-cases (get id s.pending)) [
  | inl e ↦ rw (e, cancel) h
  | inr (item, e) ↦ elim (Bool-cases (done item.future)) [
    | inl d ↦ rw (e, d, cancel) h
    | inr d ↦ rw (e, d, cancel) (Ascending-put id 0 s.next_id Future.cancelled s.pending h)
  ]
]

pub resolve-WellFormed :
    (id : ℕ) (d : Decision) (raw : Option Bytes) (s : Interceptor)
    → WellFormed s
    → WellFormed (resolve id d raw s).1
unfolding resolve
resolve-WellFormed id decision raw s h = elim (Option-cases (get id s.pending)) [
  | inl e ↦ rw (e, resolve) h
  | inr (item, e) ↦ elim (Bool-cases (done item.future)) [
    | inl d ↦ rw (e, d, resolve) h
    | inr d ↦ rw (e, d, resolve) (Ascending-put id 0 s.next_id _ s.pending h)
  ]
]

pub resolve_all-WellFormed :
    (d : Decision) (ids : List ℕ) (s : Interceptor)
    → WellFormed s
    → WellFormed (resolve_all d ids s).1
unfolding resolve_all
resolve_all-WellFormed d [] s h = h
resolve_all-WellFormed d (id ∷ ids) s h =
    resolve_all-WellFormed d ids (resolve id d none s).1 (resolve-WellFormed id d none s h)

pub act-WellFormed : (a : Action) (s : Interceptor) → WellFormed s → WellFormed (act a s)
unfolding act hold forward drop forward_all drop_all
act-WellFormed (hold_message message) s h = Ascending-append 0 s.next_id s.pending _ h refl
act-WellFormed (leave_item id) s h = leave-WellFormed id s h
act-WellFormed (cancel_item id) s h = cancel-WellFormed id s h
act-WellFormed (drop_item id) s h = resolve-WellFormed id Decision.decide_drop none s h
act-WellFormed (forward_item id raw) s h = resolve-WellFormed id Decision.decide_forward raw s h
act-WellFormed forward_every s h =
    resolve_all-WellFormed Decision.decide_forward (ids_of s.pending) s h
act-WellFormed drop_every s h = resolve_all-WellFormed Decision.decide_drop (ids_of s.pending) s h

-- Whatever happens, the identifiers of the pending items ascend, so that no two are equal, and stay
-- below the next one.
pub run-WellFormed :
    (actions : List Action) (s : Interceptor) → WellFormed s → WellFormed (run actions s)
unfolding run
run-WellFormed [] s h = h
run-WellFormed (a ∷ actions) s h = run-WellFormed actions (act a s) (act-WellFormed a s h)
