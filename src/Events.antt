-- ===== src/Events.antt =====
-- EventHub (backend/brup/events.py): live events, fanned out to one bounded queue for each subscriber. A
-- queue is known by a number, and holds the messages that its subscriber has not read, oldest first. As
-- with `asyncio.Queue`, a maxsize of 0 is no bound.
pub mod Last
mod Tests
use brup_http_proxy.Prelude.{
  ℕ, suc, Bool, true, false, Option, none, some, List, [], ◌∷◌, ◌++◌, ◌&&◌, map, ltb, leb, ◌==◌,
  if◌then◌else◌, length,
}
use brup_http_proxy.Bytes.{Bytes}

abbrev pub queue_size : ℕ
queue_size = 2000

pub record Queue : Type 0 where
  pub id : ℕ
  pub maxsize : ℕ
  pub items : List Bytes

pub record EventHub : Type 0 where
  pub subscribers : List Queue
  pub next_id : ℕ

-- `queue.put_nowait(message)`, with `none` for QueueFull
unfoldable pub put_nowait : ℕ → List Bytes → Bytes → Option (List Bytes)
put_nowait size items message =
    if ltb 0 size && leb size (length items) then none else some (items ++ message ∷ [])

-- `queue.get_nowait()` without its result, with `none` for QueueEmpty
unfoldable pub get_nowait : List Bytes → Option (List Bytes)
get_nowait [] = none
get_nowait (oldest ∷ items) = some items

-- a suppressed exception
unfoldable pub suppress : List Bytes → Option (List Bytes) → List Bytes
suppress items none = items
suppress items (some after) = after

-- the body of the loop over the subscribers
unfoldable pub deliver : ℕ → Bytes → List Bytes → List Bytes
unfolding put_nowait get_nowait suppress
deliver size message items = elim (put_nowait size items message) [
  | some after ↦ after
  | none ↦
      let shorter = suppress items (get_nowait items) in
      suppress shorter (put_nowait size shorter message)
]

-- the loop over the subscribers
unfoldable pub broadcast : Bytes → List Queue → List Queue
unfolding deliver
broadcast message = map (λ (q : Queue). record q { items = deliver q.maxsize message q.items })

unfoldable pub publish : Bytes → EventHub → EventHub
unfolding broadcast
publish message hub = record hub { subscribers = broadcast message hub.subscribers }

unfoldable pub subscribe : EventHub → EventHub
subscribe hub = record {
  subscribers = record { id = hub.next_id; maxsize = queue_size; items = [] } ∷ hub.subscribers;
  next_id = suc hub.next_id;
}

unfoldable pub discard : ℕ → List Queue → List Queue
discard id [] = []
discard id (q ∷ queues) = let rest = discard id queues in if q.id == id then rest else q ∷ rest

unfoldable pub unsubscribe : ℕ → EventHub → EventHub
unfolding discard
unsubscribe id hub = record { subscribers = discard id hub.subscribers; next_id = hub.next_id }

unfoldable pub take_oldest : ℕ → List Queue → List Queue
unfolding get_nowait suppress
take_oldest id = map (λ (q : Queue).
    if q.id == id then record q { items = suppress q.items (get_nowait q.items) } else q)

-- The subscriber reads its oldest message.
unfoldable pub read : ℕ → EventHub → EventHub
unfolding take_oldest
read id hub = record hub { subscribers = take_oldest id hub.subscribers }

pub data Action : Type 0 where
  publish_message : Bytes → Action
  subscribe_one : Action
  unsubscribe_one read_one : ℕ → Action

unfoldable pub run : List Action → EventHub → EventHub
unfolding publish subscribe unsubscribe read
run [] hub = hub
run (publish_message message ∷ actions) hub = run actions (publish message hub)
run (subscribe_one ∷ actions) hub = run actions (subscribe hub)
run (unsubscribe_one id ∷ actions) hub = run actions (unsubscribe id hub)
run (read_one id ∷ actions) hub = run actions (read id hub)
