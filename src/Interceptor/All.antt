-- ===== src/Interceptor/All.antt =====
-- What `forward_all` and `drop_all` do to the messages that wait.
use mathlib.Core.Path.{subst}
use brup_http_proxy.Prelude.{
  ℕ, suc, ◌+◌, ◌≡◌, refl, sym, true, false, not, Option, none, some, List, [], ◌∷◌, arith,
  Bool-cases, Option-cases, inl, inr, ◌==◌, if◌then◌else◌, eq_of_==, ==_refl, keep, length, any,
}
use brup_http_proxy.Bytes.{Bytes}
use brup_http_proxy.Interceptor.{
  PendingItem, Interceptor, Future, Decision, done, get, put, resolve, resolve_all, ids_of,
  forward_all, drop_all, chosen,
}
use brup_http_proxy.Interceptor.Order.{Ascending, WellFormed, resolve_all-WellFormed}
use brup_http_proxy.Interceptor.Decided.{Kept, get-put_same, get_above, resolve_all-Kept}

-- how many messages wait for a decision
abbrev pub waiting_count : Interceptor → ℕ
waiting_count s = length (keep (λ (item : PendingItem). not (done item.future)) s.pending)

count-put :
    (id : ℕ) (f : Future) (items : List PendingItem) (item : PendingItem)
    → get id items ≡ some item
    → done item.future ≡ false
    → done f ≡ true
    → length (keep (λ (i : PendingItem). not (done i.future)) items)
      ≡ 1 + length (keep (λ (i : PendingItem). not (done i.future)) (put id f items))
unfolding get put
count-put id f [] item e d df = absurd (cc e)
count-put id f (x ∷ items) item e d df = elim (Bool-cases (x.id == id)) [
  | inl c ↦ ground (arith, e, d, df, c)
  | inr c ↦ ground (arith, e, c, count-put id f items item (ground (arith, e, c)) d df)
]

count-resolve :
    (id : ℕ) (d : Decision) (raw : Option Bytes) (s : Interceptor)
    → waiting_count s
      ≡ (if (resolve id d raw s).0 then 1 else 0) + waiting_count (resolve id d raw s).1
unfolding resolve done
count-resolve id decision raw s = elim (Option-cases (get id s.pending)) [
  | inl e ↦ rw (e, resolve) (omega arith)
  | inr (item, e) ↦ elim (Bool-cases (done item.future)) [
    | inl d ↦ rw (e, d, resolve) (omega arith)
    | inr d ↦
        rw (e, d, resolve)
          (count-put id (Future.resolved decision (chosen raw item)) s.pending item e d refl)
  ]
]

count-resolve_all :
    (d : Decision) (ids : List ℕ) (s : Interceptor)
    → waiting_count s ≡ (resolve_all d ids s).0 + waiting_count (resolve_all d ids s).1
unfolding resolve_all
count-resolve_all d [] s = omega arith
count-resolve_all d (id ∷ ids) s =
    omega (arith, count-resolve id d none s, count-resolve_all d ids (resolve id d none s).1)

-- The message `id` does not wait.
abbrev Done : ℕ → Interceptor → Type 0
Done id s = (f : Future) × (done f ≡ true) × Kept id f s.pending

done-cancelled : done Future.cancelled ≡ true
unfolding done
done-cancelled = refl

done-resolved : (d : Decision) (raw : Bytes) → done (Future.resolved d raw) ≡ true
unfolding done
done-resolved d raw = refl

resolve-Done :
    (id : ℕ) (d : Decision) (raw : Option Bytes) (s : Interceptor) → Done id (resolve id d raw s).1
unfolding resolve
resolve-Done id decision raw s = elim (Option-cases (get id s.pending)) [
  | inl e ↦ rw (e, resolve) (Future.cancelled, done-cancelled, inl e)
  | inr (item, e) ↦ elim (Bool-cases (done item.future)) [
    | inl d ↦ rw (e, d, resolve) (item.future, d, inr (item, e, refl))
    | inr d ↦
        rw (e, d, resolve)
          (
            Future.resolved decision (chosen raw item),
            done-resolved decision (chosen raw item),
            inr (get-put_same id (Future.resolved decision (chosen raw item)) s.pending item e),
          )
  ]
]

resolve_all-Done :
    (id : ℕ) (d : Decision) (ids : List ℕ) (s : Interceptor)
    → any (λ k. k == id) ids ≡ true
    → Done id (resolve_all d ids s).1
unfolding resolve_all
resolve_all-Done id d [] s h = absurd (cc h)
resolve_all-Done id d (k ∷ ids) s h = elim (Bool-cases (k == id)) [
  | inl e ↦
      let after =
        subst (λ j. Done id (resolve j d none s).1) (sym (eq_of_== k id e))
          (resolve-Done id d none s) in
      (after.0, after.1, resolve_all-Kept id after.0 after.1 d ids (resolve k d none s).1 after.2)
  | inr e ↦ resolve_all-Done id d ids (resolve k d none s).1 (ground (arith, h, e))
]

get-ids_of :
    (id : ℕ) (items : List PendingItem)
    → any (λ k. k == id) (ids_of items) ≡ false
    → get id items ≡ none
unfolding get
get-ids_of id [] h = refl
get-ids_of id (x ∷ items) h = ground (arith, h, get-ids_of id items)

every-Done :
    (id : ℕ) (d : Decision) (s : Interceptor) → Done id (resolve_all d (ids_of s.pending) s).1
every-Done id d s = elim (Bool-cases (any (λ k. k == id) (ids_of s.pending))) [
  | inl e ↦ resolve_all-Done id d (ids_of s.pending) s e
  | inr e ↦ (
    Future.cancelled,
    done-cancelled,
    resolve_all-Kept id Future.cancelled done-cancelled d (ids_of s.pending) s
        (inl (get-ids_of id s.pending e)),
  )
]

done_of_Done :
    (id : ℕ) (s : Interceptor) (item : PendingItem)
    → Done id s
    → get id s.pending ≡ some item
    → done item.future ≡ true
done_of_Done id s item (f, df, inl n) e = absurd (cc (n, e))
done_of_Done id s item (f, df, inr (x, g, w)) e = cc (df, g, w, e)

none_waits :
    (low next : ℕ) (items : List PendingItem)
    → Ascending low next items
    → ((id : ℕ) (item : PendingItem) → get id items ≡ some item → done item.future ≡ true)
    → length (keep (λ (i : PendingItem). not (done i.future)) items) ≡ 0
unfolding get
none_waits low next [] h k = refl
none_waits low next (x ∷ items) h k = ground (
  arith,
  k x.id x (rw (==_refl x.id) refl),
  none_waits (suc x.id) next items h.1 (λ id item e. elim (Bool-cases (x.id == id)) [
    | inl c ↦
        absurd (cc (e, get_above id (suc x.id) next items (omega (arith, eq_of_== x.id id c)) h.1))
    | inr c ↦ k id item (rw c e)
  ]),
)

every_decided :
    (d : Decision) (s : Interceptor)
    → WellFormed s
    → ((resolve_all d (ids_of s.pending) s).0 ≡ waiting_count s)
      × (waiting_count (resolve_all d (ids_of s.pending) s).1 ≡ 0)
every_decided d s w =
    let after = (resolve_all d (ids_of s.pending) s).1 in
    let none_left =
      none_waits 0 after.next_id after.pending (resolve_all-WellFormed d (ids_of s.pending) s w)
        (λ id item e. done_of_Done id after item (every-Done id d s) e) in
    (omega (arith, none_left, count-resolve_all d (ids_of s.pending) s), none_left)

-- forward_all returns the number of messages that waited for a decision, and none waits after it.
pub count-forward_all :
    (s : Interceptor)
    → WellFormed s
    → ((forward_all s).0 ≡ waiting_count s) × (waiting_count (forward_all s).1 ≡ 0)
unfolding forward_all
count-forward_all s w = every_decided Decision.decide_forward s w

-- drop_all returns the number of messages that waited for a decision, and none waits after it.
pub count-drop_all :
    (s : Interceptor)
    → WellFormed s
    → ((drop_all s).0 ≡ waiting_count s) × (waiting_count (drop_all s).1 ≡ 0)
unfolding drop_all
count-drop_all s w = every_decided Decision.decide_drop s w
