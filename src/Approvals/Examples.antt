-- ===== src/Approvals/Examples.antt =====
-- Concrete calls of src/trimum_core/approvals.py.
use mathlib.Core.List.{Perm}
use trimum.Approvals.Listing.Order.{IsAscending}
use trimum.Base.{
  ℕ, ◌≤◌, ◌≡◌, refl, inl, true, false, some, List, [], ◌∷◌, map, Text, codes, All, same, same_iff,
  arith,
}
use trimum.Base.Dict.{lookup, insert, contains}
use trimum.Base.Int.{pos}
use trimum.Approvals.Request.{
  Outcome, returns, pending, approved, denied, ApprovalRequest, is_expired, to_dict, from_dict,
}
use trimum.Approvals.Store.{Store, read, load, write, request, Ask, list_pending}
use trimum.Approvals.Lifecycle.{
  IsKeyed, Op, fetch, decision, consumption, creation, listing, Spares, perform, next, vote_on,
  settle,
}
use trimum.Approvals.Runs.{run, evolve, run-evolve, perform-IsKeyed}
use trimum.Approvals.Safety.{Later, SameAsk, HasVote, run-Later, run-HasVote}
use trimum.Approvals.Uses.{uses, uses-le-one}
use trimum.Approvals.Listing.{live, settled}
use trimum.Approvals.Listing.Loop.{list_pending-live}
use trimum.Approvals.Claims.{ClaimCall, wins, wins-le-one}
use trimum.Approvals.Rules.{Value, Rule}
use trimum.Approvals.Ttl.{TtlSource, Lifetime, parse_ttl}

abbrev rid : Text
rid = codes "r1"

abbrev ask : Ask
ask = record {
  agent_id = codes "coder";
  tool = codes "shell";
  command = codes "make";
  cwd = codes "/w";
  risk_level = codes "medium";
  reason = codes "rule";
}

abbrev empty_store : Store
empty_store = record { files = []; claims = [] }

abbrev made : ApprovalRequest × Store
made = request rid 100 300 ask empty_store

empty_store-IsKeyed : IsKeyed empty_store
unfolding lookup
empty_store-IsKeyed k d h = cc

made-IsKeyed : IsKeyed made.1
unfolding perform
made-IsKeyed = perform-IsKeyed (creation rid 100 300 ask) empty_store empty_store-IsKeyed

made-read : read rid made.1 ≡ returns (some made.0)
unfolding read load write request to_dict from_dict lookup insert same
made-read = refl

-- A vote in time, a use, a repetition, and a listing.
abbrev day : List Op
day =
    fetch rid 150
    ∷ decision rid 200 200 true (codes "alice")
    ∷ consumption rid 210 210
    ∷ consumption rid 220 220
    ∷ listing 500
    ∷ []

spared : All (Spares rid) day
spared = (tt, (tt, (tt, (tt, (tt, tt)))))

run-evolve_example :
    (read rid (run day made.1) ≡ returns (some (evolve rid day made.0))) × IsKeyed (run day made.1)
run-evolve_example = run-evolve rid day made.1 made.0 made-IsKeyed made-read spared

uses-le-one_example : uses rid day made.1 ≤ 1
uses-le-one_example = uses-le-one rid day made.1 made.0 made-IsKeyed made-read spared

run-Later_example :
    (q : ApprovalRequest) × (read rid (run day made.1) ≡ returns (some q))
    × SameAsk made.0 q
    × Later made.0.status q.status
run-Later_example = run-Later rid day made.1 made.0 made-IsKeyed made-read spared

abbrev refused : Op
refused = decision rid 150 150 false (codes "bob")

abbrev refused_record : ApprovalRequest
refused_record = evolve rid (refused ∷ []) made.0

refused-read : read rid (run (refused ∷ []) made.1) ≡ returns (some refused_record)
refused-read = (run-evolve rid (refused ∷ []) made.1 made.0 made-IsKeyed made-read (tt, tt)).0

refused-IsKeyed : IsKeyed (run (refused ∷ []) made.1)
refused-IsKeyed = (run-evolve rid (refused ∷ []) made.1 made.0 made-IsKeyed made-read (tt, tt)).1

refused_status : refused_record.status ≡ denied
unfolding evolve next vote_on settle is_expired request same
refused_status = refl

made_status : made.0.status ≡ pending
unfolding request
made_status = refl

made-is_expired : is_expired 400 made.0 ≡ true
unfolding request is_expired
made-is_expired = refl

abbrev voted : List Op
voted = decision rid 200 200 true (codes "alice") ∷ []

approved_status : (evolve rid voted made.0).status ≡ approved
unfolding evolve next vote_on settle is_expired request same
approved_status = refl

run-HasVote_example : HasVote rid made.0.expires_at voted
run-HasVote_example =
    run-HasVote rid voted made.1 made.0 (evolve rid voted made.0) made-IsKeyed made-read (tt, tt)
      made_status (run-evolve rid voted made.1 made.0 made-IsKeyed made-read (tt, tt)).0
      (inl approved_status)

list_pending-live_example :
    (ns : List Text) × Perm ns (map (λ e. e.0) made.1.files)
    × IsAscending ns
    × ((list_pending 450 made.1).0 ≡ returns (live 450 ns made.1))
    × IsKeyed (list_pending 450 made.1).1
    × ((j : Text) → read j (list_pending 450 made.1).1 ≡ settled 450 (read j made.1))
list_pending-live_example = list_pending-live 450 made.1 made-IsKeyed

abbrev approved_store : Store
approved_store = run voted made.1

abbrev approved_record : ApprovalRequest
approved_record = evolve rid voted made.0

abbrev table : List Rule
table =
    Rule.stray
    ∷ Rule.allow (Value.text (codes "browser")) Value.absent
    ∷ Rule.allow Value.absent (Value.text (codes "/w"))
    ∷ []

abbrev parsed_ttl : Outcome Lifetime
parsed_ttl =
    parse_ttl TtlSource.absent TtlSource.malformed (TtlSource.seconds (pos 60))
      (TtlSource.seconds (pos 300))

parsed_lem : parsed_ttl ≡ returns (Lifetime.lasting 60)
unfolding parse_ttl
parsed_lem = refl

-- A digest that is one to one.
abbrev sample_digest : Text → Text
sample_digest t = 0 ∷ t

abbrev claim_of : Text → ℕ → ClaimCall
claim_of key clock = record { key = key; meta = []; clock = clock; writable = true; dumps = true }

abbrev claims : List ClaimCall
claims = claim_of (codes "b") 2 ∷ claim_of (codes "a") 3 ∷ claim_of (codes "a") 4 ∷ []

wins-le-one_example : wins sample_digest (codes "a") claims empty_store ≤ 1
wins-le-one_example = wins-le-one sample_digest (codes "a") claims empty_store

no_claim : contains (sample_digest (codes "a")) empty_store.claims ≡ false
unfolding lookup
no_claim = refl

differ : same (codes "a") (codes "b") ≡ false
unfolding same
differ = refl

differ' : same (codes "a") (codes "c") ≡ false
unfolding same
differ' = refl

other_keys :
    All (λ other. codes "a" ≡ other.key → ⊥) (claim_of (codes "b") 2 ∷ claim_of (codes "c") 3 ∷ [])
other_keys = (
  λ e. ground (arith, same_iff (codes "a") (codes "b"), differ),
  (λ e. ground (arith, same_iff (codes "a") (codes "c"), differ'), tt),
)
