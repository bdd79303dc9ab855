-- ===== src/Security/Access.antt =====
-- Access between agents, and the peers of a workflow, from src/trimum_core/security_rule.py
-- (lines 101 to 164 and 405 to 418). A Python set is a list of which only membership is read.
use trimum.Base.{
  ◌≡◌, refl, ◌↔◌, Bool, true, false, not, ◌&&◌, ◌||◌, Option, none, some, List, [], ◌∷◌, ◌++◌,
  arith, if◌then◌else◌, member, Text, codes, same, same_iff,
}
use trimum.Base.Dict.{Dict, lookup, insert, lookup-insert}
use trimum.Security.Rule.{DecisionResult, Decision, allow, confirm, deny, plain}

abbrev pub Peers : Type 0
Peers = Dict (List Text)

abbrev pub or_no_peers : Option (List Text) → List Text
or_no_peers none = []
or_no_peers (some ps) = ps

-- `agent_set - {aid}`
unfoldable pub without : Text → List Text → List Text
without a [] = []
without a (b ∷ ids) = if same a b then without a ids else b ∷ without a ids

-- One turn of the loop of `register_workflow_peers`.
unfoldable pub add_peers : Text → List Text → Peers → Peers
unfolding without
add_peers a ids p = insert a (or_no_peers (lookup a p) ++ without a ids) p

unfoldable pub register_from : List Text → List Text → Peers → Peers
unfolding add_peers
register_from [] ids p = p
register_from (a ∷ rest) ids p = register_from rest ids (add_peers a ids p)

unfoldable pub register_workflow_peers : List Text → Peers → Peers
unfolding register_from
register_workflow_peers ids p = register_from ids ids p

unfoldable pub is_workflow_peer : Peers → Text → Text → Bool
is_workflow_peer p source target = member target (or_no_peers (lookup source p))

-- `can_access`, given the peers that are registered.
unfoldable pub can_access : Peers → Text → Text → Text → Text → Text → DecisionResult
unfolding is_workflow_peer
can_access peers source_id target_id access_type source_sandbox target_sandbox =
    let same_box = same source_sandbox target_sandbox in
    let same_id = same source_id target_id in
    if same_box && same_id
    then plain allow (codes "same sandbox and agent") (codes "low")
    else if not same_box && same source_sandbox (codes "host")
    then plain deny (codes "host cannot access sandbox") (codes "high")
    else if not same_box
    then record {
      action = confirm;
      reason = codes "cross-sandbox access: " ++ (source_id ++ (codes " → " ++ target_id));
      risk_level = codes "high";
      requires_confirmation = true;
      metadata =
          (codes "source_id", source_id)
          ∷ (codes "target_id", target_id)
          ∷ (codes "source_sandbox", source_sandbox)
          ∷ (codes "target_sandbox", target_sandbox)
          ∷ (codes "access_type", access_type)
          ∷ [];
    }
    else if same_box && not same_id
    then if is_workflow_peer peers source_id target_id
      then plain allow (codes "workflow peer") (codes "low")
      else record {
        action = confirm;
        reason = codes "cross-tool access: " ++ (source_id ++ (codes " → " ++ target_id));
        risk_level = codes "medium";
        requires_confirmation = true;
        metadata =
            (codes "source_id", source_id)
            ∷ (codes "target_id", target_id)
            ∷ (codes "sandbox", source_sandbox)
            ∷ (codes "access_type", access_type)
            ∷ [];
      }
    else plain allow (codes "default allow") (codes "low")

member-append : (a : Text) (xs ys : List Text) → member a (xs ++ ys) ≡ (member a xs || member a ys)
member-append a [] ys = refl
member-append a (x ∷ xs) ys = ground (arith, member-append a xs ys)

member-without :
    (t a : Text) (ids : List Text) → member t (without a ids) ≡ (not (same t a) && member t ids)
unfolding without
member-without t a [] = ground arith
member-without t a (b ∷ ids) =
    ground (arith, same_iff t a, same_iff a b, same_iff t b, member-without t a ids)

add_peers_lem :
    (s t a : Text) (ids : List Text) (p : Peers)
    → is_workflow_peer (add_peers a ids p) s t
      ≡ (is_workflow_peer p s t || (same s a && (not (same t s) && member t ids)))
unfolding is_workflow_peer add_peers
add_peers_lem s t a ids p =
    let ps = or_no_peers (lookup a p) in
    ground (
      arith,
      lookup-insert s a (ps ++ without a ids) p,
      member-append t ps (without a ids),
      member-without t a ids,
      same_iff s a,
      same_iff t s,
      same_iff t a,
    )

register_from_lem :
    (s t : Text) (rest ids : List Text) (p : Peers)
    → is_workflow_peer (register_from rest ids p) s t
      ≡ (is_workflow_peer p s t || (member s rest && (not (same t s) && member t ids)))
unfolding register_from
register_from_lem s t [] ids p = ground arith
register_from_lem s t (a ∷ rest) ids p =
    ground (arith, register_from_lem s t rest ids (add_peers a ids p), add_peers_lem s t a ids p)

-- Registering a workflow makes each two distinct agents of it peers, both ways, and no others:
-- two agents are peers afterwards exactly if they were, or are distinct and both registered.
pub register_workflow_peers_lem :
    (s t : Text) (ids : List Text) (p : Peers)
    → is_workflow_peer (register_workflow_peers ids p) s t
      ≡ (is_workflow_peer p s t || (member s ids && (not (same t s) && member t ids)))
unfolding register_workflow_peers
register_workflow_peers_lem s t ids p = register_from_lem s t ids ids p

-- The specification of `can_access`: the decision by the two places and the two agents.
unfoldable pub access_rule : Bool → Bool → Bool → Bool → Decision
access_rule true true _ _ = allow
access_rule true false true _ = allow
access_rule true false false _ = confirm
access_rule false _ _ true = deny
access_rule false _ _ false = confirm

-- `can_access` decides by that table: inside one sandbox it allows an agent itself and its
-- workflow peers and asks for any other pair; across sandboxes it denies the host and asks for
-- any other pair. It asks for a confirmation exactly when the decision is to confirm.
pub can_access-access_rule :
    (p : Peers) (s t access source_box target_box : Text)
    → let d = can_access p s t access source_box target_box in
      (d.action
        ≡ access_rule
            (same source_box target_box)
            (same s t)
            (is_workflow_peer p s t)
            (same source_box (codes "host")))
      × ((d.requires_confirmation ≡ true) ↔ (d.action ≡ confirm))
unfolding can_access access_rule
can_access-access_rule p s t access source_box target_box =
    go (same source_box target_box) (same s t) (is_workflow_peer p s t)
      (same source_box (codes "host")) refl refl refl refl
  where
    go :
        (a b c d : Bool)
        → same source_box target_box ≡ a
        → same s t ≡ b
        → is_workflow_peer p s t ≡ c
        → same source_box (codes "host") ≡ d
        → let r = can_access p s t access source_box target_box in
          (r.action ≡ access_rule a b c d)
          × ((r.requires_confirmation ≡ true) ↔ (r.action ≡ confirm))
    go true true c d ea eb ec ed = rw (ea, eb, can_access) (refl, (λ h. cc, λ h. cc))
    go true false true d ea eb ec ed = rw (ea, eb, ec, can_access) (refl, (λ h. cc, λ h. cc))
    go true false false d ea eb ec ed = rw (ea, eb, ec, can_access) (refl, (λ h. refl, λ h. refl))
    go false b c true ea eb ec ed = rw (ea, ed, can_access) (refl, (λ h. cc, λ h. cc))
    go false b c false ea eb ec ed = rw (ea, ed, can_access) (refl, (λ h. refl, λ h. refl))
