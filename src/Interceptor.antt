-- ===== src/Interceptor.antt =====
-- Interceptor (backend/brup/proxy/interceptor.py): the messages that are held until the operator decides.
-- The identifier `i7` is the number 7. An item's future is part of the item, which stands in the one place
-- where it is shared, the table of pending items. The time of creation is left out.
pub mod Order
pub mod Decided
pub mod All
mod Tests
use brup_http_proxy.Prelude.{
  ℕ, suc, ◌+◌, Bool, true, false, Option, none, some, List, [], ◌∷◌, ◌++◌, map, ◌==◌, if◌then◌else◌,
}
use brup_http_proxy.Bytes.{Bytes}

pub data Kind : Type 0 where
  request response : Kind

pub data Decision : Type 0 where
  decide_forward decide_drop : Decision

-- `asyncio.Future`: cancelled with the task that awaits it
pub data Future : Type 0 where
  waiting cancelled : Future
  resolved : Decision → Bytes → Future

-- the arguments of `hold`
pub record Held : Type 0 where
  pub kind : Kind
  pub project_id : Bytes
  pub flow_id : Option ℕ
  pub host : Bytes
  pub port : ℕ
  pub tls : Bool
  pub url : Bytes
  pub method : Bytes
  pub raw : Bytes
  pub status : Option ℕ

pub record PendingItem : Type 0 where
  pub id : ℕ
  pub held : Held
  pub future : Future

-- what is published on the hub
pub data Event : Type 0 where
  intercept : Kind → ℕ → Event
  intercept_resolved : ℕ → Event

pub record Interceptor : Type 0 where
  pub pending : List PendingItem
  pub next_id : ℕ
  pub published : List Event

abbrev pub initial : Interceptor
initial = record { pending = []; next_id = 1; published = [] }

unfoldable pub done : Future → Bool
done waiting = false
done cancelled = true
done (resolved d raw) = true

-- `self._pending.get(item_id)`
unfoldable pub get : ℕ → List PendingItem → Option PendingItem
get id [] = none
get id (item ∷ items) = let rest = get id items in if item.id == id then some item else rest

-- `self._pending.pop(item_id, None)`
unfoldable pub pop : ℕ → List PendingItem → List PendingItem
pop id [] = []
pop id (item ∷ items) = let rest = pop id items in if item.id == id then items else item ∷ rest

-- the future of the item is written
unfoldable pub put : ℕ → Future → List PendingItem → List PendingItem
put id f [] = []
put id f (item ∷ items) =
    let rest = put id f items in
    if item.id == id
    then record { id = item.id; held = item.held; future = f } ∷ items
    else item ∷ rest

abbrev with_pending : Interceptor → List PendingItem → Interceptor
with_pending s items = record { pending = items; next_id = s.next_id; published = s.published }

-- `hold` until it awaits the future
unfoldable pub hold : Held → Interceptor → Interceptor
hold message s = record {
  pending = s.pending ++ record { id = s.next_id; held = message; future = waiting } ∷ [];
  next_id = suc s.next_id;
  published = s.published ++ intercept message.kind s.next_id ∷ [];
}

-- the rest of `hold`, once the future is done and the task runs again
unfoldable pub leave : ℕ → Interceptor → Interceptor
unfolding get pop done
leave id s = elim (get id s.pending) [
  | none ↦ s
  | some item ↦
      if done item.future
      then record {
        pending = pop id s.pending;
        next_id = s.next_id;
        published = s.published ++ intercept_resolved id ∷ [];
      }
      else s
]

-- The task that awaits is cancelled, and its future with it.
unfoldable pub cancel : ℕ → Interceptor → Interceptor
unfolding get put done
cancel id s = elim (get id s.pending) [
  | none ↦ s
  | some item ↦ if done item.future then s else with_pending s (put id cancelled s.pending)
]

-- `raw if raw is not None else item.raw`
unfoldable pub chosen : Option Bytes → PendingItem → Bytes
chosen none item = item.held.raw
chosen (some raw) item = raw

unfoldable pub resolve : ℕ → Decision → Option Bytes → Interceptor → Bool × Interceptor
unfolding get put done chosen
resolve id d raw s = elim (get id s.pending) [
  | none ↦ (false, s)
  | some item ↦
      if done item.future
      then (false, s)
      else (true, with_pending s (put id (resolved d (chosen raw item)) s.pending))
]

unfoldable pub forward : ℕ → Option Bytes → Interceptor → Bool × Interceptor
unfolding resolve
forward id raw = resolve id decide_forward raw

unfoldable pub drop : ℕ → Interceptor → Bool × Interceptor
unfolding resolve
drop id = resolve id decide_drop none

-- the sum over the items
unfoldable pub resolve_all : Decision → List ℕ → Interceptor → ℕ × Interceptor
unfolding resolve
resolve_all d [] s = (0, s)
resolve_all d (id ∷ ids) s =
    let first = resolve id d none s in
    let rest = resolve_all d ids first.1 in ((if first.0 then 1 else 0) + rest.0, rest.1)

abbrev pub ids_of : List PendingItem → List ℕ
ids_of = map (λ (item : PendingItem). item.id)

unfoldable pub forward_all : Interceptor → ℕ × Interceptor
unfolding resolve_all
forward_all s = resolve_all decide_forward (ids_of s.pending) s

unfoldable pub drop_all : Interceptor → ℕ × Interceptor
unfolding resolve_all
drop_all s = resolve_all decide_drop (ids_of s.pending) s

-- Whatever can happen between two points where the event loop switches tasks.
pub data Action : Type 0 where
  hold_message : Held → Action
  leave_item cancel_item drop_item : ℕ → Action
  forward_item : ℕ → Option Bytes → Action
  forward_every drop_every : Action

unfoldable pub act : Action → Interceptor → Interceptor
unfolding hold leave cancel forward drop forward_all drop_all
act (hold_message message) s = hold message s
act (leave_item id) s = leave id s
act (cancel_item id) s = cancel id s
act (drop_item id) s = (drop id s).1
act (forward_item id raw) s = (forward id raw s).1
act forward_every s = (forward_all s).1
act drop_every s = (drop_all s).1

unfoldable pub run : List Action → Interceptor → Interceptor
unfolding act
run [] s = s
run (a ∷ actions) s = run actions (act a s)
