-- ===== src/Events/Tests.antt =====
-- The theorems on the event hub at concrete inputs.
use brup_http_proxy.Prelude.{◌≡◌, refl, some, List, [], ◌∷◌}
use brup_http_proxy.Bytes.{codes}
use brup_http_proxy.Events.{
  EventHub, subscribe, deliver, put_nowait, Action, run, publish_message, subscribe_one,
  unsubscribe_one, read_one,
}
use brup_http_proxy.Events.Last.{find, find-run, queue_of, is_stalled, messages_of}

abbrev one : EventHub
one = record {
  subscribers = record { id = 1; maxsize = 2000; items = codes "a" ∷ [] } ∷ [];
  next_id = 2;
}

abbrev actions : List Action
actions =
    publish_message (codes "b")
    ∷ subscribe_one
    ∷ read_one 1
    ∷ publish_message (codes "c")
    ∷ unsubscribe_one 1
    ∷ []

oldest_dropped : deliver 2 (codes "c") (codes "a" ∷ codes "b" ∷ []) ≡ codes "b" ∷ codes "c" ∷ []
unfolding deliver put_nowait
oldest_dropped = refl

find-run_example :
    find 2 (run actions (subscribe one)).subscribers
    ≡ some (queue_of 2 (codes "b" ∷ codes "c" ∷ []))
unfolding is_stalled messages_of
find-run_example = find-run actions one refl
