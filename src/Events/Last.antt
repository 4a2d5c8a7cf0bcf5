-- ===== src/Events/Last.antt =====
-- Which messages a bounded queue holds.
use brup_http_proxy.Prelude.{
  ℕ, zero, suc, ◌+◌, ◌-◌, ◌≤◌, ◌<◌, ◌≡◌, refl, sym, ◌∙◌, ap, List, [], ◌∷◌, ◌++◌, arith, Bool-cases,
  inl, inr, ltb, ◌==◌, if◌then◌else◌, length, drop, not, ◌&&◌, Bool, true, false, Option, none,
  some, length-append, length-drop, append_assoc, append-nil,
}
use brup_http_proxy.Bytes.{Bytes}
use brup_http_proxy.Events.{
  queue_size, Queue, broadcast, take_oldest, EventHub, put_nowait, get_nowait, suppress, deliver,
  publish, subscribe, discard, unsubscribe, read, Action, run, publish_message, subscribe_one,
  unsubscribe_one, read_one,
}

-- the last `n` messages
abbrev pub last : ℕ → List Bytes → List Bytes
last n messages = drop (length messages - n) messages

drop-append_le : (k : ℕ) (xs ys : List Bytes) → k ≤ length xs → drop k (xs ++ ys) ≡ drop k xs ++ ys
drop-append_le zero xs ys h = refl
drop-append_le (suc k) [] ys h = elim h [ ]
drop-append_le (suc k) (x ∷ xs) ys h = drop-append_le k xs ys (omega (arith, h))

drop_every : (xs : List Bytes) (k : ℕ) → length xs ≤ k → drop k xs ≡ []
drop_every [] zero h = refl
drop_every [] (suc k) h = refl
drop_every (x ∷ xs) zero h = absurd (omega (arith, h))
drop_every (x ∷ xs) (suc k) h = drop_every xs k (omega (arith, h))

drop-drop : (j k : ℕ) (xs : List Bytes) → drop j (drop k xs) ≡ drop (k + j) xs
drop-drop j zero xs = ap (λ n. drop n xs) (omega arith)
drop-drop zero (suc k) [] = sym (drop_every [] (suc k + 0) (omega arith))
drop-drop (suc j) (suc k) [] = sym (drop_every [] (suc k + suc j) (omega arith))
drop-drop j (suc k) (x ∷ xs) =
    let shift : suc (k + j) ≡ suc k + j = omega arith in
    drop-drop j k xs ∙ ap (λ n. drop n (x ∷ xs)) shift

deliver_room :
    (size : ℕ) (m : Bytes) (items : List Bytes)
    → length items < size
    → deliver size m items ≡ items ++ m ∷ []
unfolding deliver put_nowait
deliver_room size m items h = ground (arith, h)

deliver_full :
    (size : ℕ) (m : Bytes) (items : List Bytes)
    → 1 ≤ size
    → length items ≡ size
    → deliver size m items ≡ drop 1 items ++ m ∷ []
unfolding deliver put_nowait get_nowait suppress
deliver_full size m [] p h = absurd (omega (arith, p, h))
deliver_full size m (x ∷ items) p h = ground (arith, p, h)

deliver-last :
    (size : ℕ) (m : Bytes) (messages : List Bytes)
    → 1 ≤ size
    → deliver size m (last size messages) ≡ last size (messages ++ m ∷ [])
deliver-last size m messages p = elim (Bool-cases (ltb (length messages) size)) [
  | inl e ↦
      let none_dropped : length messages - size ≡ 0 = ground (arith, e) in
      let room : length (last size messages) < size =
        ground (arith, e, length-drop (length messages - size) messages) in
      let still : length (messages ++ m ∷ []) - size ≡ 0 =
        ground (arith, e, length-append messages (m ∷ [])) in
      deliver_room size m (last size messages) room
      ∙ ap (λ k. drop k messages ++ m ∷ []) none_dropped
      ∙ sym (ap (λ k. drop k (messages ++ m ∷ [])) still)
  | inr e ↦
      let full : length (last size messages) ≡ size =
        ground (arith, e, length-drop (length messages - size) messages) in
      let enough : 1 ≤ length (last size messages) = omega (arith, full, p) in
      let keeps : length messages - size + 1 ≤ length messages = ground (arith, e, p) in
      let count : length (messages ++ m ∷ []) - size ≡ length messages - size + 1 =
        ground (arith, e, length-append messages (m ∷ [])) in
      deliver_full size m (last size messages) p full
      ∙ ap (λ t. t ++ m ∷ []) (drop-drop 1 (length messages - size) messages)
      ∙ sym (drop-append_le (length messages - size + 1) messages (m ∷ []) keeps)
      ∙ sym (ap (λ k. drop k (messages ++ m ∷ [])) count)
]

-- the items of a queue after the messages are delivered in turn
abbrev pub deliver_each : List Bytes → List Bytes → List Bytes
deliver_each [] items = items
deliver_each (m ∷ messages) items = deliver_each messages (deliver queue_size m items)

-- the queue of a number
unfoldable pub find : ℕ → List Queue → Option Queue
find id [] = none
find id (q ∷ queues) = let rest = find id queues in if q.id == id then some q else rest

find-broadcast :
    (id : ℕ) (message : Bytes) (queues : List Queue) (q : Queue)
    → find id queues ≡ some q
    → find id (broadcast message queues)
      ≡ some (record q { items = deliver q.maxsize message q.items })
unfolding find broadcast
find-broadcast id message [] q f = absurd (ground (arith, f))
find-broadcast id message (p ∷ queues) q f = elim (Bool-cases (p.id == id)) [
  | inl e ↦
      let found : Path (Option Queue) (some p) (some q) = ground (arith, e, f) in
      simp (e, find, broadcast)
        (ap
          (λ (o : Option Queue). elim o [
            | none ↦ none
            | some r ↦ some (record r { items = deliver r.maxsize message r.items })
          ])
          found)
  | inr e ↦
      let later : find id queues ≡ some q = ground (arith, e, f) in
      simp (e, find, broadcast) (find-broadcast id message queues q later)
]

find-discard :
    (id other : ℕ) (queues : List Queue)
    → (id == other) ≡ false
    → find id (discard other queues) ≡ find id queues
unfolding find discard
find-discard id other [] n = refl
find-discard id other (p ∷ queues) n = elim (Bool-cases (p.id == other)) [
  | inl o ↦
      let e : (p.id == id) ≡ false = ground (arith, o, n) in
      simp (o, e, find, discard) (find-discard id other queues n)
  | inr o ↦ elim (Bool-cases (p.id == id)) [
    | inl e ↦ simp (o, e, find, discard) refl
    | inr e ↦ simp (o, e, find, discard) (find-discard id other queues n)
  ]
]

find-take_oldest :
    (id other : ℕ) (queues : List Queue)
    → (id == other) ≡ false
    → find id (take_oldest other queues) ≡ find id queues
unfolding find take_oldest
find-take_oldest id other [] n = refl
find-take_oldest id other (p ∷ queues) n = elim (Bool-cases (p.id == other)) [
  | inl o ↦
      let e : (p.id == id) ≡ false = ground (arith, o, n) in
      simp (o, e, find, take_oldest) (find-take_oldest id other queues n)
  | inr o ↦ elim (Bool-cases (p.id == id)) [
    | inl e ↦ simp (o, e, find, take_oldest) refl
    | inr e ↦ simp (o, e, find, take_oldest) (find-take_oldest id other queues n)
  ]
]

-- What is published, and that the subscriber of a number neither reads nor goes.
unfoldable pub messages_of : List Action → List Bytes
messages_of [] = []
messages_of (publish_message message ∷ actions) = message ∷ messages_of actions
messages_of (subscribe_one ∷ actions) = messages_of actions
messages_of (unsubscribe_one other ∷ actions) = messages_of actions
messages_of (read_one other ∷ actions) = messages_of actions

unfoldable pub is_stalled : ℕ → List Action → Bool
is_stalled id [] = true
is_stalled id (publish_message message ∷ actions) = is_stalled id actions
is_stalled id (subscribe_one ∷ actions) = is_stalled id actions
is_stalled id (unsubscribe_one other ∷ actions) = not (id == other) && is_stalled id actions
is_stalled id (read_one other ∷ actions) = not (id == other) && is_stalled id actions

abbrev pub queue_of : ℕ → List Bytes → Queue
queue_of id messages = record { id = id; maxsize = queue_size; items = last queue_size messages }

run_from :
    (id : ℕ) (actions : List Action) (hub : EventHub) (before : List Bytes)
    → id < hub.next_id
    → is_stalled id actions ≡ true
    → find id hub.subscribers ≡ some (queue_of id before)
    → find id (run actions hub).subscribers ≡ some (queue_of id (before ++ messages_of actions))
unfolding run publish subscribe unsubscribe read messages_of is_stalled find
run_from id [] hub before l s f = f ∙ ap (λ ms. some (queue_of id ms)) (sym (append-nil before))
run_from id (publish_message m ∷ actions) hub before l s f =
    run_from id actions (publish m hub) (before ++ m ∷ []) l s (
      find-broadcast id m hub.subscribers (queue_of id before) f
      ∙ ap (λ items. some (record { id = id; maxsize = queue_size; items = items }))
          (deliver-last queue_size m before (omega arith)))
    ∙ ap (λ ms. some (queue_of id ms)) (append_assoc before (m ∷ []) (messages_of actions))
run_from id (subscribe_one ∷ actions) hub before l s f =
    run_from id actions (subscribe hub) before (omega (arith, l)) s
      (let other : (hub.next_id == id) ≡ false = ground (arith, l) in simp (other, find) f)
run_from id (unsubscribe_one other ∷ actions) hub before l s f =
    run_from id actions (unsubscribe other hub) before l (ground (arith, s))
      (find-discard id other hub.subscribers (ground (arith, s)) ∙ f)
run_from id (read_one other ∷ actions) hub before l s f =
    run_from id actions (read other hub) before l (ground (arith, s))
      (find-take_oldest id other hub.subscribers (ground (arith, s)) ∙ f)

-- Whatever is published and whatever other subscribers do, a new subscriber that neither reads nor goes
-- finds in its queue the newest queue_size of the messages that were published since it subscribed, in
-- their order.
pub find-run :
    (actions : List Action) (hub : EventHub)
    → is_stalled hub.next_id actions ≡ true
    → find hub.next_id (run actions (subscribe hub)).subscribers
      ≡ some (queue_of hub.next_id (messages_of actions))
unfolding subscribe find
find-run actions hub s =
    run_from hub.next_id actions (subscribe hub) [] (omega arith) s (ground arith)
