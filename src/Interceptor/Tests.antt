-- ===== src/Interceptor/Tests.antt =====
-- A run of the interceptor, and the theorems at concrete inputs.
use brup_http_proxy.Prelude.{◌≡◌, refl, false, none, some, List, [], ◌∷◌, arith}
use brup_http_proxy.Bytes.{codes}
use brup_http_proxy.Interceptor.{
  Kind, Decision, Future, Held, PendingItem, Interceptor, initial, hold, resolve, drop, forward_all,
  run, Action, hold_message, leave_item, cancel_item, drop_item, forward_item, forward_every, Event,
}
use brup_http_proxy.Interceptor.Order.{WellFormed}
use brup_http_proxy.Interceptor.All.{waiting_count, count-forward_all}
use brup_http_proxy.Interceptor.Decided.{resolve-run}

abbrev message : Held
message = record {
  kind = Kind.request;
  project_id = codes "p";
  flow_id = none;
  host = codes "h";
  port = 80;
  tls = false;
  url = codes "http://h/";
  method = codes "GET";
  raw = codes "raw";
  status = none;
}

abbrev two : Interceptor
two = hold message (hold message initial)

two-WellFormed : WellFormed two
unfolding hold
two-WellFormed = (omega arith, (omega arith, omega arith))

forwarded :
    run
      (forward_item 1 (some (codes "edited")) ∷ drop_item 1 ∷ leave_item 1 ∷ forward_every ∷ [])
      two
    ≡ record {
      pending =
          record {
            id = 2;
            held = message;
            future = Future.resolved Decision.decide_forward (codes "raw");
          }
          ∷ [];
      next_id = 3;
      published =
          Event.intercept Kind.request 1
          ∷ Event.intercept Kind.request 2
          ∷ Event.intercept_resolved 1
          ∷ [];
    }
unfolding run hold
forwarded = refl

abbrev actions : List Action
actions = drop_item 1 ∷ hold_message message ∷ forward_every ∷ leave_item 1 ∷ cancel_item 2 ∷ []

abbrev dropped : PendingItem
dropped = record {
  id = 1;
  held = message;
  future = Future.resolved Decision.decide_drop (codes "raw");
}

resolve-run_example :
    (resolve 1 Decision.decide_forward none
      (run actions (resolve 1 Decision.decide_drop none two).1)).0
    ≡ false
unfolding resolve hold
resolve-run_example =
    resolve-run 1 Decision.decide_drop Decision.decide_forward none none two actions two-WellFormed
      refl

count-forward_all_example :
    ((forward_all (drop 1 two).1).0 ≡ waiting_count (drop 1 two).1)
    × (waiting_count (forward_all (drop 1 two).1).1 ≡ 0)
unfolding drop hold
count-forward_all_example =
    count-forward_all (drop 1 two).1 (omega arith, (omega arith, omega arith))
