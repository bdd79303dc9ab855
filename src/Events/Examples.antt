-- ===== src/Events/Examples.antt =====
-- The theorem on the event index at concrete calls, and tests of the patterns.
use trimum.Base.{◌≡◌, refl, true, false, List, [], ◌∷◌, codes}
use trimum.Events.{matches, match_index}
use trimum.Events.Scan.{scan}
use trimum.Events.Runs.{BusCall, subscribes, unsubscribes, run_calls, empty_bus, match_index-run}

abbrev calls : List BusCall
calls =
    subscribes (codes "node.*") 1
    ∷ subscribes (codes "*.done") 2
    ∷ subscribes (codes "node.*") 3
    ∷ subscribes (codes "task.run") 4
    ∷ unsubscribes (codes "node.*") 1
    ∷ unsubscribes (codes "node.*") 9
    ∷ []

listeners_found : match_index (codes "node.a.done") (run_calls calls empty_bus).index ≡ 3 ∷ 2 ∷ []
unfolding match_index run_calls
listeners_found = refl

match_index-run_example :
    match_index (codes "node.a.done") (run_calls calls empty_bus).index
    ≡ scan (codes "node.a.done") (run_calls calls empty_bus).subscribers
match_index-run_example = match_index-run calls (codes "node.a.done")

-- A star in the middle takes one segment or more, and one at the end takes the rest.
floating_star : matches (codes "node.*.done") (codes "node.x.y.done") ≡ true
unfolding matches
floating_star = refl

-- The two together do not: the first star leaves one segment for the last one.
two_stars : matches (codes "a.*.b.*") (codes "a.x.b.y.z") ≡ false
unfolding matches
two_stars = refl
