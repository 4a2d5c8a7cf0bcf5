-- ===== src/Interceptor/Decided.antt =====
-- Decisions on held messages, over sequences of actions.
use brup_http_proxy.Prelude.{
  ℕ, suc, ◌≤◌, ◌<◌, ◌≡◌, ◌⊎◌, refl, ◌∙◌, ap, true, false, Option, none, some, List, [], ◌∷◌, ◌++◌,
  arith, Bool-cases, Option-cases, inl, inr, ◌==◌, eq_of_==, ==_ne,
}
use brup_http_proxy.Bytes.{Bytes}
use brup_http_proxy.Interceptor.{
  PendingItem, Interceptor, Future, Decision, Action, hold_message, leave_item, cancel_item,
  drop_item, forward_item, forward_every, drop_every, done, get, pop, put, hold, leave, cancel,
  resolve, forward, drop, resolve_all, ids_of, forward_all, drop_all, act, run, chosen,
}
use brup_http_proxy.Interceptor.Order.{Ascending, WellFormed, act-WellFormed, resolve-WellFormed}

get-put :
    (id k : ℕ) (f : Future) (items : List PendingItem)
    → (k == id) ≡ false
    → get id (put k f items) ≡ get id items
unfolding get put
get-put id k f [] h = refl
get-put id k f (x ∷ items) h = ground (arith, get-put id k f items h)

get-pop :
    (id k : ℕ) (items : List PendingItem) → (k == id) ≡ false → get id (pop k items) ≡ get id items
unfolding get pop
get-pop id k [] h = refl
get-pop id k (x ∷ items) h = ground (arith, get-pop id k items h)

pub get_above :
    (id low next : ℕ) (items : List PendingItem)
    → id < low
    → Ascending low next items
    → get id items ≡ none
unfolding get
get_above id low next [] h k = refl
get_above id low next (x ∷ items) h k =
    ground (arith, get_above id (suc x.id) next items (omega (arith, h, k.0)) k.1, h, k.0)

get-pop_same :
    (id low next : ℕ) (items : List PendingItem)
    → Ascending low next items
    → get id (pop id items) ≡ none
unfolding get pop
get-pop_same id low next [] h = refl
get-pop_same id low next (x ∷ items) h = elim (Bool-cases (x.id == id)) [
  | inl e ↦ rw (e, pop) (get_above id (suc x.id) next items (omega (arith, eq_of_== x.id id e)) h.1)
  | inr e ↦ rw (e, pop) (rw e (get-pop_same id (suc x.id) next items h.1))
]

get-append :
    (id : ℕ) (items : List PendingItem) (item : PendingItem)
    → (item.id == id) ≡ false
    → get id (items ++ item ∷ []) ≡ get id items
unfolding get
get-append id [] item h = rw h
get-append id (x ∷ items) item h = ground (arith, get-append id items item h)

-- The item has the future `f`, or it has left.
abbrev pub Kept : ℕ → Future → List PendingItem → Type 0
Kept id f items =
    (get id items ≡ none) ⊎ ((item : PendingItem) × (get id items ≡ some item) × (item.future ≡ f))

Kept-of_get :
    (id : ℕ) (f : Future) (items others : List PendingItem)
    → get id others ≡ get id items
    → Kept id f items
    → Kept id f others
Kept-of_get id f items others e (inl h) = inl (e ∙ h)
Kept-of_get id f items others e (inr (item, g, h)) = inr (item, e ∙ g, h)

-- an item whose future is not done is another one
other :
    (id k : ℕ) (f : Future) (items : List PendingItem) (item : PendingItem)
    → done f ≡ true
    → Kept id f items
    → get k items ≡ some item
    → done item.future ≡ false
    → (k == id) ≡ false
other id k f items item df (inl h) g d = elim (Bool-cases (k == id)) [
  | inl e ↦ absurd (cc (ap (λ j. get j items) (eq_of_== k id e), h, g))
  | inr e ↦ e
]
other id k f items item df (inr (x, h, w)) g d = elim (Bool-cases (k == id)) [
  | inl e ↦ absurd (cc (ap (λ j. get j items) (eq_of_== k id e), h, g, d, df, w))
  | inr e ↦ e
]

next-resolve :
    (k : ℕ) (d : Decision) (raw : Option Bytes) (s : Interceptor)
    → (resolve k d raw s).1.next_id ≡ s.next_id
unfolding resolve
next-resolve k d raw s = ground arith

module _ (id : ℕ) (f : Future) (df : done f ≡ true) where
  -- The item has the future `f` or has left, and its identifier is not given out again.
  abbrev pub Decided : Interceptor → Type 0
  Decided s = (id < s.next_id) × Kept id f s.pending

  put-Decided :
      (k : ℕ) (g : Future) (s : Interceptor) (item : PendingItem)
      → get k s.pending ≡ some item
      → done item.future ≡ false
      → Kept id f s.pending
      → Kept id f (put k g s.pending)
  put-Decided k g s item e d h =
      Kept-of_get id f s.pending (put k g s.pending)
        (get-put id k g s.pending (other id k f s.pending item df h e d)) h

  hold-Decided :
      (s : Interceptor) (item : PendingItem)
      → item.id ≡ s.next_id
      → id < s.next_id
      → Kept id f s.pending
      → Kept id f (s.pending ++ item ∷ [])
  hold-Decided s item e below h =
      Kept-of_get id f s.pending (s.pending ++ item ∷ [])
        (get-append id s.pending item (==_ne item.id id (λ c. omega (arith, e, below, c)))) h

  pop-Decided :
      (k : ℕ) (s : Interceptor) → WellFormed s → Kept id f s.pending → Kept id f (pop k s.pending)
  pop-Decided k s w h = elim (Bool-cases (k == id)) [
    | inl e ↦ inl (
        ap (λ j. get id (pop j s.pending)) (eq_of_== k id e)
        ∙ get-pop_same id 0 s.next_id s.pending w)
    | inr e ↦ Kept-of_get id f s.pending (pop k s.pending) (get-pop id k s.pending e) h
  ]

  leave-Decided : (k : ℕ) (s : Interceptor) → WellFormed s → Decided s → Decided (leave k s)
  unfolding leave
  leave-Decided k s w h = elim (Option-cases (get k s.pending)) [
    | inl e ↦ rw (e, leave) h
    | inr (item, e) ↦ elim (Bool-cases (done item.future)) [
      | inl d ↦ rw (e, d, leave) (h.0, pop-Decided k s w h.1)
      | inr d ↦ rw (e, d, leave) h
    ]
  ]

  cancel-Decided : (k : ℕ) (s : Interceptor) → Decided s → Decided (cancel k s)
  unfolding cancel
  cancel-Decided k s h = elim (Option-cases (get k s.pending)) [
    | inl e ↦ rw (e, cancel) h
    | inr (item, e) ↦ elim (Bool-cases (done item.future)) [
      | inl d ↦ rw (e, d, cancel) h
      | inr d ↦ rw (e, d, cancel) (h.0, put-Decided k Future.cancelled s item e d h.1)
    ]
  ]

  resolve-Kept :
      (k : ℕ) (d : Decision) (raw : Option Bytes) (s : Interceptor)
      → Kept id f s.pending
      → Kept id f (resolve k d raw s).1.pending
  unfolding resolve
  resolve-Kept k decision raw s h = elim (Option-cases (get k s.pending)) [
    | inl e ↦ rw (e, resolve) h
    | inr (item, e) ↦ elim (Bool-cases (done item.future)) [
      | inl d ↦ rw (e, d, resolve) h
      | inr d ↦ rw (e, d, resolve) (put-Decided k _ s item e d h)
    ]
  ]

  pub resolve_all-Kept :
      (d : Decision) (ids : List ℕ) (s : Interceptor)
      → Kept id f s.pending
      → Kept id f (resolve_all d ids s).1.pending
  unfolding resolve_all
  resolve_all-Kept d [] s h = h
  resolve_all-Kept d (k ∷ ids) s h =
      resolve_all-Kept d ids (resolve k d none s).1 (resolve-Kept k d none s h)

  resolve-Decided :
      (k : ℕ) (d : Decision) (raw : Option Bytes) (s : Interceptor)
      → Decided s
      → Decided (resolve k d raw s).1
  resolve-Decided k d raw s h =
      (omega (arith, next-resolve k d raw s, h.0), resolve-Kept k d raw s h.1)

  resolve_all-Decided :
      (d : Decision) (ids : List ℕ) (s : Interceptor) → Decided s → Decided (resolve_all d ids s).1
  unfolding resolve_all
  resolve_all-Decided d [] s h = h
  resolve_all-Decided d (k ∷ ids) s h =
      resolve_all-Decided d ids (resolve k d none s).1 (resolve-Decided k d none s h)

  act-Decided : (a : Action) (s : Interceptor) → WellFormed s → Decided s → Decided (act a s)
  unfolding act hold forward drop forward_all drop_all
  act-Decided (hold_message message) s w h = (omega (arith, h.0), hold-Decided s _ refl h.0 h.1)
  act-Decided (leave_item k) s w h = leave-Decided k s w h
  act-Decided (cancel_item k) s w h = cancel-Decided k s h
  act-Decided (drop_item k) s w h = resolve-Decided k Decision.decide_drop none s h
  act-Decided (forward_item k raw) s w h = resolve-Decided k Decision.decide_forward raw s h
  act-Decided forward_every s w h =
      resolve_all-Decided Decision.decide_forward (ids_of s.pending) s h
  act-Decided drop_every s w h = resolve_all-Decided Decision.decide_drop (ids_of s.pending) s h

  run-Decided :
      (actions : List Action) (s : Interceptor) → WellFormed s → Decided s → Decided (run actions s)
  unfolding run
  run-Decided [] s w h = h
  run-Decided (a ∷ actions) s w h =
      run-Decided actions (act a s) (act-WellFormed a s w) (act-Decided a s w h)

above_low : (low next : ℕ) (items : List PendingItem) → Ascending low next items → low ≤ next
above_low low next [] h = h
above_low low next (x ∷ items) h = omega (arith, h.0, above_low (suc x.id) next items h.1)

below_of_get :
    (id low next : ℕ) (items : List PendingItem) (item : PendingItem)
    → Ascending low next items
    → get id items ≡ some item
    → id < next
unfolding get
below_of_get id low next [] item h e = absurd (cc e)
below_of_get id low next (x ∷ items) item h e = elim (Bool-cases (x.id == id)) [
  | inl c ↦ omega (arith, eq_of_== x.id id c, above_low (suc x.id) next items h.1)
  | inr c ↦ below_of_get id (suc x.id) next items item h.1 (ground (arith, e, c))
]

-- A future that is done never changes: whatever happens later, the item still has it, or has left and
-- its identifier is not given out again.
pub run-Kept :
    (actions : List Action) (s : Interceptor) (id : ℕ) (item : PendingItem)
    → WellFormed s
    → get id s.pending ≡ some item
    → done item.future ≡ true
    → Kept id item.future (run actions s).pending
run-Kept actions s id item w e d =
    let below = below_of_get id 0 s.next_id s.pending item w e in
    (run-Decided id item.future d actions s w (below, inr (item, e, refl))).1

pub get-put_same :
    (id : ℕ) (f : Future) (items : List PendingItem) (item : PendingItem)
    → get id items ≡ some item
    → (new : PendingItem) × (get id (put id f items) ≡ some new) × (new.future ≡ f)
unfolding get put
get-put_same id f [] item e = absurd (cc e)
get-put_same id f (x ∷ items) item e = elim (Bool-cases (x.id == id)) [
  | inl c ↦ (record { id = x.id; held = x.held; future = f }, rw (c, put) (rw c refl), refl)
  | inr c ↦
      let (new, g, h) = get-put_same id f items item (ground (arith, e, c)) in
      (new, rw (c, put) (rw c g), h)
]

resolved_by :
    (id : ℕ) (d : Decision) (raw : Option Bytes) (s : Interceptor)
    → (resolve id d raw s).0 ≡ true
    → (item : PendingItem) × (get id (resolve id d raw s).1.pending ≡ some item)
      × (done item.future ≡ true)
unfolding resolve done
resolved_by id decision raw s h = elim (Option-cases (get id s.pending)) [
  | inl e ↦ absurd (ground (arith, h, e))
  | inr (item, e) ↦ elim (Bool-cases (done item.future)) [
    | inl d ↦ absurd (ground (arith, h, e, d))
    | inr d ↦
        let (new, g, f) =
          get-put_same id (Future.resolved decision (chosen raw item)) s.pending item e in
        rw (e, d, resolve) (new, g, ap done f)
  ]
]

-- nothing is decided again
settled :
    (id : ℕ) (f : Future) (d : Decision) (raw : Option Bytes) (s : Interceptor)
    → done f ≡ true
    → Kept id f s.pending
    → (resolve id d raw s).0 ≡ false
unfolding resolve
settled id f d raw s df (inl h) = rw (h, resolve) refl
settled id f d raw s df (inr (item, h, e)) = rw (h, resolve) (ground (arith, e, df))

-- An item is decided at most once: after a decision that succeeded, every later decision for it is
-- refused, whatever happens in between.
pub resolve-run :
    (id : ℕ) (d later : Decision) (raw other_raw : Option Bytes) (s : Interceptor)
    (actions : List Action)
    → WellFormed s
    → (resolve id d raw s).0 ≡ true
    → (resolve id later other_raw (run actions (resolve id d raw s).1)).0 ≡ false
resolve-run id d later raw other_raw s actions w h =
    let (item, e, r) = resolved_by id d raw s h in
    let after = resolve-WellFormed id d raw s w in
    settled id item.future later other_raw (run actions (resolve id d raw s).1) r
      (run-Kept actions (resolve id d raw s).1 id item after e r)
