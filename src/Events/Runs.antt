-- ===== src/Events/Runs.antt =====
-- After any subscriptions and withdrawals on src/trimum_core/event_bus.py (lines 143 to 175), an
-- event goes to the listeners that a scan of the subscriptions gives.
use trimum.Base.{
  ℕ, ◌≡◌, refl, ap, ◌∙◌, sym, ◌≢◌, Option, none, some, List, [], ◌∷◌, ◌++◌, arith, if◌then◌else◌,
  Text, same,
}
use trimum.Base.Dict.{Dict, lookup, insert, erase, lookup-insert, insert-Distinct, erase-Distinct}
use trimum.Events.{
  Listeners, first_segment, or_empty, bucket_of, with_new, add_listener, remove_first,
  without_order, drop_listener, remove_listener, match_index, EventBus, subscribe, put_back,
  left_after, unsubscribed, unsubscribe,
}
use trimum.Events.Buckets.{pick, Ascending, insert-Ascending, append-Ascending, erase-Ascending}
use trimum.Events.Scan.{scan, match-scan}
use trimum.Events.Agreement.{
  InStep, insert-Full, erase-Full, lookup-Full, insert_again, same_listeners, put-bucket,
  put_bucket-Distinct, put_bucket-order, new-kept, less-kept,
}

module _ (b : EventBus) (a : InStep b) (p : Text) (callback : ℕ) where
  ordered-new :
      (o : Option Listeners) (v : Listeners)
      → lookup p b.subscribers ≡ o
      → Ascending
          (with_new o p b.index).pattern_order
          0
          (with_new o p b.index).next_order
          (insert p v b.subscribers)
  ordered-new none v h =
      append-Ascending b.index.pattern_order 0 b.index.next_order p v b.subscribers h
        a.agrees.ordered
  ordered-new (some l) v h =
      insert-Ascending b.index.pattern_order 0 b.index.next_order p v l b.subscribers h
        a.agrees.ordered

  snoc-full : (l : Listeners) → (l ++ callback ∷ []) ≢ []
  snoc-full [] h = cc
  snoc-full (c ∷ l) h = cc

  abbrev new_listeners : Listeners
  new_listeners = or_empty (lookup p b.subscribers) ++ callback ∷ []

  saved :
      (first : Text) (d : Dict Listeners)
      → or_empty (lookup first (insert (first_segment p) d b.index.buckets))
        ≡ (if same first (first_segment p) then d else bucket_of first b.index)
  saved first d = ground (arith, lookup-insert first (first_segment p) d b.index.buckets)

  subscribe-InStep : InStep (subscribe p callback b)
  unfolding subscribe add_listener
  subscribe-InStep = record {
    agrees = record {
      distinct = insert-Distinct p _ b.subscribers a.agrees.distinct;
      kept = λ first.
          saved first _
          ∙ (ap
                (λ o.
                  if same first (first_segment p)
                  then insert p (or_empty o ++ callback ∷ []) (bucket_of (first_segment p) b.index)
                  else bucket_of first b.index)
                (same_listeners b a p)
              ∙ new-kept b a p new_listeners first);
      ordered =
          ordered-new (lookup p (bucket_of (first_segment p) b.index)) new_listeners
            (sym (same_listeners b a p));
      apart = insert-Distinct (first_segment p) _ b.index.buckets a.agrees.apart;
    };
    full = insert-Full p _ b.subscribers (snoc-full (or_empty (lookup p b.subscribers))) a.full;
  }

  -- What is left of the pattern, when the callback was found.
  dropped-InStep :
      (l l' : Listeners)
      → lookup p b.subscribers ≡ some l
      → InStep (record {
        subscribers = put_back p l' b.subscribers;
        index = drop_listener p (some l') (bucket_of (first_segment p) b.index) b.index;
      })
  dropped-InStep l [] h =
      let bucket = erase p (bucket_of (first_segment p) b.index) in
      let ix = without_order p b.index in
      let (same_order, same_next) = put_bucket-order b a p bucket ix in
      record {
        agrees = record {
          distinct = erase-Distinct p b.subscribers a.agrees.distinct;
          kept = λ first. put-bucket b a p first bucket ix a.agrees.apart ∙ less-kept b a p first;
          ordered =
              rw (same_order, same_next)
                (erase-Ascending b.index.pattern_order 0 b.index.next_order p b.subscribers
                  a.agrees.distinct a.agrees.ordered);
          apart = put_bucket-Distinct b a p bucket ix a.agrees.apart;
        };
        full = erase-Full p b.subscribers a.full;
      }
  dropped-InStep l (c ∷ l') h =
      let bucket = insert p (c ∷ l') (bucket_of (first_segment p) b.index) in
      let (same_order, same_next) = put_bucket-order b a p bucket b.index in
      record {
        agrees = record {
          distinct = insert-Distinct p (c ∷ l') b.subscribers a.agrees.distinct;
          kept = λ first.
              put-bucket b a p first bucket b.index a.agrees.apart ∙ new-kept b a p (c ∷ l') first;
          ordered =
              rw (same_order, same_next)
                (insert-Ascending b.index.pattern_order 0 b.index.next_order p (c ∷ l') l
                  b.subscribers h a.agrees.ordered);
          apart = put_bucket-Distinct b a p bucket b.index a.agrees.apart;
        };
        full = insert-Full p (c ∷ l') b.subscribers (λ e. cc) a.full;
      }

  removed-InStep :
      (l : Listeners) (o : Option Listeners)
      → lookup p b.subscribers ≡ some l
      → InStep (record {
        subscribers = put_back p (left_after callback l o) b.subscribers;
        index = drop_listener p o (bucket_of (first_segment p) b.index) b.index;
      })
  removed-InStep l (some l') h = dropped-InStep l l' h
  removed-InStep [] none h = elim (lookup-Full p [] b.subscribers h a.full refl) [ ]
  removed-InStep (c ∷ l) none h = rw (insert_again p (c ∷ l) b.subscribers h) a

  unsubscribed-InStep :
      (o : Option Listeners) → lookup p b.subscribers ≡ o → InStep (unsubscribed p callback o b)
  unfolding remove_listener
  unsubscribed-InStep none h = a
  unsubscribed-InStep (some l) h =
      rw (same_listeners b a p, h) (removed-InStep l (remove_first callback l) h)

  unsubscribe-InStep : InStep (unsubscribe p callback b)
  unfolding unsubscribe
  unsubscribe-InStep = unsubscribed-InStep (lookup p b.subscribers) refl

-- A call on the bus.
pub data BusCall : Type 0 where
  subscribes unsubscribes : (pattern : Text) (callback : ℕ) → BusCall

unfoldable pub perform : BusCall → EventBus → EventBus
unfolding subscribe unsubscribe
perform (subscribes p c) b = subscribe p c b
perform (unsubscribes p c) b = unsubscribe p c b

unfoldable pub run_calls : List BusCall → EventBus → EventBus
unfolding perform
run_calls [] b = b
run_calls (x ∷ xs) b = run_calls xs (perform x b)

abbrev pub empty_bus : EventBus
empty_bus = record {
  subscribers = [];
  index = record { buckets = []; pattern_order = []; next_order = 0 };
}

empty-InStep : InStep empty_bus
unfolding lookup pick
empty-InStep = record {
  agrees = record { distinct = tt; kept = λ first. refl; ordered = ground arith; apart = tt };
  full = tt;
}

run-InStep : (xs : List BusCall) (b : EventBus) → InStep b → InStep (run_calls xs b)
unfolding run_calls perform
run-InStep [] b a = a
run-InStep (subscribes p c ∷ xs) b a = run-InStep xs (subscribe p c b) (subscribe-InStep b a p c)
run-InStep (unsubscribes p c ∷ xs) b a =
    run-InStep xs (unsubscribe p c b) (unsubscribe-InStep b a p c)

-- After any sequence of subscriptions and withdrawals on a new bus, also of callbacks that are not
-- subscribed or several times, the index gives for every event exactly the listeners, with their
-- repetitions and in their order, that a scan of all the subscriptions gives.
pub match_index-run :
    (xs : List BusCall) (event : Text)
    → match_index event (run_calls xs empty_bus).index
      ≡ scan event (run_calls xs empty_bus).subscribers
match_index-run xs event =
    match-scan event (run_calls xs empty_bus) (run-InStep xs empty_bus empty-InStep).agrees
