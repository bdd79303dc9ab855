-- ===== src/Security/Decisions.antt =====
-- The decisions of src/trimum_core/security_rule.py (lines 166 to 377) against their inputs.
use trimum.Base.{
  ◌+◌, same_refl, ◌≡◌, refl, ap, ◌≢◌, ◌↔◌, ◌⊎◌, inl, inr, Bool, true, false, not, Option, none,
  some, [], ◌∷◌, arith, Text, codes, Has, if◌then◌else◌,
}
use trimum.Base.Dict.{Dict}
use trimum.Approvals.Request
use trimum.Approvals.Request.{Status, ApprovalRequest}
use trimum.Approvals.Store.{Store, read, write, request}
use trimum.Approvals.Lifecycle.{read-write}
use trimum.Monitor.History.{anomaly}
use trimum.Resources.{ResourceUsage, build_check_result-IsWithin, IsWithin}
use trimum.Policy.{
  critical, Action, risk_value, SourceType, FirstIsAuto, normalize_command, evaluate-auto,
}
use trimum.Security.Rule.{
  Outcome, returns, raises, Decision, allow, confirm, DecisionResult, Call, Desk, Context, call_for,
  can_execute, resources_ok, or_given, merge, decide_call, settle, ask_for, request_approval,
  with_id, confirming, by_action, is_critical, is_anomaly, anomaly_reason,
}

-- The resources of a call, where they are enforced, are within their limits.
abbrev pub IsAffordable : Call → Type 0
IsAffordable c = (c.enforced ≡ false) ⊎ IsWithin (or_given c.usage c.given) c.limits

resources_ok-cases :
    (c : Call)
    → ((resources_ok c ≡ returns true) × IsAffordable c)
      ⊎ ((resources_ok c ≡ raises)
          × (c.enforced ≡ true)
          × (IsWithin (or_given c.usage c.given) c.limits → ⊥))
unfolding resources_ok
resources_ok-cases c =
    ground (arith, build_check_result-IsWithin (or_given c.usage c.given) c.limits)

some_inj : {a b : Decision} → some a ≡ some b → a ≡ b
some_inj e = cc

-- The decision of a call, if it did not raise.
abbrev pub decided : Outcome (DecisionResult × Option Store) → Option Decision
decided (returns (d, s)) = some d.action
decided raises = none

merge-allow :
    (c : Call) (k : Desk)
    → (merge true c k).0.action ≡ allow
    → (c.evaluation.action ≡ Action.auto)
      × (c.evaluation.risk ≢ critical)
      × (c.verdict ≢ some anomaly)
unfolding merge
merge-allow c k h = ground arith

allow-merge :
    (c : Call) (k : Desk)
    → c.evaluation.action ≡ Action.auto
    → c.evaluation.risk ≢ critical
    → c.verdict ≢ some anomaly
    → ((merge true c k).0.action ≡ allow) × ((merge true c k).1 ≡ k.store)
unfolding merge
allow-merge c k a r v = ground arith

not_both :
    (c : Call)
    → c.enforced ≡ true
    → (IsWithin (or_given c.usage c.given) c.limits → ⊥)
    → IsAffordable c
    → ⊥
not_both c on excess (inl off) = cc
not_both c on excess (inr fits) = excess fits

-- A call is allowed at once exactly when its policy says automatic at a risk below critical, the
-- monitor sees no anomaly, and the resources that are enforced are within their limits.
pub decide_call-allow :
    (c : Call) (k : Desk)
    → (decided (decide_call c k) ≡ some allow) ↔ (
        (c.evaluation.action ≡ Action.auto)
        × (c.evaluation.risk ≢ critical)
        × (c.verdict ≢ some anomaly)
        × IsAffordable c)
unfolding decide_call
decide_call-allow c k = elim (resources_ok-cases c) [
  | inl (e, fits) ↦
      rw (e, decide_call)
        (
          λ h. let (a, r, v) = merge-allow c k (some_inj h) in (a, r, v, fits),
          λ (a, r, v, _). ap some (allow-merge c k a r v).0,
        )
  | inr (e, on, excess) ↦
      rw (e, decide_call) (λ h. cc, λ (a, r, v, f). absurd (not_both c on excess f))
]

-- What a confirmation can make of a decision on a call within its limits.
merge-settle :
    (c : Call) (k : Desk) (answer : Option Bool)
    → (settle (merge true c k).0 answer).action ≡ allow
    → (c.evaluation.risk ≢ critical)
      × ((c.evaluation.action ≢ Action.deny) ⊎ (c.verdict ≡ some anomaly))
      × (((merge true c k).0.action ≡ allow)
          ⊎ ((merge true c k).0.action ≡ confirm) × (answer ≡ some true))
unfolding merge settle
merge-settle c k answer h = ground arith

-- A call that ends up allowed, after whatever answer of the user, is within its limits and below
-- critical, its policy does not deny it or the monitor saw an anomaly, and it was allowed at once
-- or the decision was to confirm and the user said yes.
pub settle-decide_call :
    (c : Call) (k : Desk) (answer : Option Bool) (d : DecisionResult) (s : Option Store)
    → decide_call c k ≡ returns (d, s)
    → (settle d answer).action ≡ allow
    → (c.evaluation.risk ≢ critical)
      × ((c.evaluation.action ≢ Action.deny) ⊎ (c.verdict ≡ some anomaly))
      × IsAffordable c
      × ((d.action ≡ allow) ⊎ (d.action ≡ confirm) × (answer ≡ some true))
unfolding decide_call
settle-decide_call c k answer d s e h = elim (resources_ok-cases c) [
  | inl (ok, fits) ↦
      let same_d : (merge true c k).0 ≡ d = ground arith in
      let (r, a, v) = merge-settle c k answer (rw same_d h) in (r, a, fits, rw same_d at v)
  | inr (no_ok, _, _) ↦ ground arith
]

-- A command that the policy denies below critical is not denied when the monitor also sees an
-- anomaly: it becomes a confirmation, and the user's yes allows it.
pub anomaly_lifts_deny :
    (c : Call) (k : Desk)
    → IsAffordable c
    → c.evaluation.action ≡ Action.deny
    → c.evaluation.risk ≢ critical
    → c.verdict ≡ some anomaly
    → (d : DecisionResult) × (s : Option Store) × (decide_call c k ≡ returns (d, s))
      × (d.action ≡ confirm)
      × ((settle d (some true)).action ≡ allow)
unfolding decide_call merge settle
anomaly_lifts_deny c k fits a r v = elim (resources_ok-cases c) [
  | inl (ok, _) ↦
      let (d, s) = merge true c k in (d, s, rw (ok, decide_call) refl, ground arith, ground arith)
  | inr (_, on, excess) ↦ absurd (not_both c on excess fits)
]

-- The record of a decision to confirm: who asks, for which command, where, and until when.
abbrev pub filed_record : Call → Desk → Text → Text → ApprovalRequest
filed_record c k risk reason = record {
  id = k.id;
  agent_id = c.agent_id;
  tool = codes "shell";
  command = c.command;
  cwd = c.sandbox;
  risk_level = risk;
  reason = reason;
  created_at = k.clock;
  expires_at = k.clock + k.ttl;
  status = Status.pending;
  decided_at = 0;
  decided_by = [];
  used_at = 0;
}

-- The request of a decision to confirm is in the store and the decision names it; any other
-- decision leaves the store as it was.
abbrev pub IsFiled : Call → Desk → Store → DecisionResult × Option Store → Type 0
IsFiled c k s (d, s') =
    ((d.action ≡ confirm)
      × (s' ≡ some (write (filed_record c k d.risk_level d.reason) s))
      × ((t : Store) × (s' ≡ some t)
          × (read k.id t ≡ Request.returns (some (filed_record c k d.risk_level d.reason))))
      × Has (codes "approval_id", k.id) d.metadata)
    ⊎ ((d.action ≢ confirm) × (s' ≡ some s))

confirming-IsFiled :
    (c : Call) (k : Desk) (s : Store) (risk reason : Text) (m : Dict Text)
    → k.store ≡ some s
    → k.writable ≡ true
    → Has (codes "approval_id", k.id) (with_id (some k.id) m)
    → IsFiled c k s (confirming reason risk m (request_approval (ask_for c risk reason) k))
unfolding request_approval request
confirming-IsFiled c k s risk reason m attached w has =
    let q = filed_record c k risk reason in
    let filed : request_approval (ask_for c risk reason) k ≡ (some k.id, some (write q s)) =
      ground arith in
    rw filed (
      inl (refl, refl, (write q s, refl, ground (arith, read-write k.id q s, same_refl k.id)), has))

by_action-IsFiled :
    (a : Action) (c : Call) (k : Desk) (s : Store)
    → k.store ≡ some s
    → k.writable ≡ true
    → IsFiled c k s (by_action a c k)
by_action-IsFiled Action.deny c k s attached w = inr (λ h. cc, attached)
by_action-IsFiled Action.auto c k s attached w = inr (λ h. cc, attached)
by_action-IsFiled Action.confirm c k s attached w =
    confirming-IsFiled c k s (risk_value c.evaluation.risk) c.evaluation.reason [] attached w
      (inl refl)

if-IsFiled :
    (c : Call) (k : Desk) (s : Store) (b : Bool) (x y : DecisionResult × Option Store)
    → IsFiled c k s x
    → IsFiled c k s y
    → IsFiled c k s (if b then x else y)
if-IsFiled c k s true x y hx hy = hx
if-IsFiled c k s false x y hx hy = hy

merge-IsFiled :
    (b : Bool) (c : Call) (k : Desk) (s : Store)
    → k.store ≡ some s
    → k.writable ≡ true
    → IsFiled c k s (merge b c k)
unfolding merge
merge-IsFiled b c k s attached w =
    if-IsFiled c k s (is_critical c.evaluation.risk) _ _ (inr (λ h. cc, attached)) (
      if-IsFiled c k s (not b) _ _ (inr (λ h. cc, attached)) (
        if-IsFiled c k s (is_anomaly c.verdict) _ _
          (confirming-IsFiled c k s (codes "high") anomaly_reason
            ((codes "monitor_verdict", codes "anomaly") ∷ []) attached w (inr (inl refl)))
          (by_action-IsFiled c.evaluation.action c k s attached w)))

-- With a store attached that can be written, a decision to confirm writes one record: a pending
-- request of this agent for this command in its sandbox as the directory, with the decision's risk and
-- reason, from now until the time to live has passed. It is what is read under the identifier that the
-- decision carries. Any other decision leaves the store as it was.
pub decide_call-IsFiled :
    (c : Call) (k : Desk) (s : Store) (r : DecisionResult × Option Store)
    → k.store ≡ some s
    → k.writable ≡ true
    → decide_call c k ≡ returns r
    → IsFiled c k s r
unfolding decide_call
decide_call-IsFiled c k s r attached w e = elim (resources_ok-cases c) [
  | inl (ok, _) ↦
      let same_r : merge true c k ≡ r = ground arith in
      rw same_r at (merge-IsFiled true c k s attached w)
  | inr (no_ok, _, _) ↦ ground arith
]

-- A command is allowed at once exactly when the first rule of the policy that applies to its
-- normal form says automatic, that rule's risk is below critical, the monitor, if there is one,
-- sees no anomaly in it, and the resources that are enforced are within the agent's limits.
pub can_execute-allow :
    (found : Text → Text → Bool) (x : Context) (agent command sandbox ctx : Text)
    (src : Option SourceType) (usage : Outcome ResourceUsage) (given : ResourceUsage) (k : Desk)
    → let c = call_for found x agent command sandbox ctx src usage given in
      (decided (can_execute found x agent command sandbox ctx src usage given k) ≡ some allow) ↔ (
        FirstIsAuto found (normalize_command command) src x.rules
        × (c.evaluation.risk ≢ critical)
        × (c.verdict ≢ some anomaly)
        × IsAffordable c)
unfolding can_execute call_for
can_execute-allow found x agent command sandbox ctx src usage given k =
    let c = call_for found x agent command sandbox ctx src usage given in
    let on_call = decide_call-allow c k in
    let on_rules = evaluate-auto found x.rules command src in
    (
      λ h. let (a, rest_r, rest_v, rest_f) = on_call.0 h in (on_rules.0 a, rest_r, rest_v, rest_f),
      λ (first, r, v, f). on_call.1 (on_rules.1 first, r, v, f),
    )
