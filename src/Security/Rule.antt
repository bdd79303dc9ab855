-- ===== src/Security/Rule.antt =====
-- `DecisionResult` and the decisions of `SecurityRule`, from src/trimum_core/security_rule.py
-- (lines 29 to 53, 166 to 260, 320 to 377 and 434 to 472). The `metadata` of a decision is a
-- dictionary of texts.
use trimum.Base.{
  ℕ, Bool, true, false, not, Option, none, some, List, [], ◌∷◌, ◌++◌, if◌then◌else◌, Text, codes,
}
use trimum.Base.Dict.{Dict}
use trimum.Approvals.Store.{Store, request, Ask}
use trimum.Monitor.History.{Monitor, Verdict, anomaly, check_command}
use trimum.Resources.{ResourceUsage, ResourceLimits, build_check_result, get_limits}
use trimum.Policy
use trimum.Policy.{RiskLevel, critical, Evaluation, Action, SourceType, risk_value, evaluate}

pub data Outcome (A : Type 0) : Type 0 where
  returns : A → Outcome A
  raises : Outcome A

pub data Decision : Type 0 where
  allow confirm deny pending : Decision

pub record DecisionResult : Type 0 where
  pub action : Decision
  pub reason : Text
  pub risk_level : Text
  pub requires_confirmation : Bool
  pub metadata : Dict Text

abbrev pub is_critical : RiskLevel → Bool
is_critical critical = true
is_critical _ = false

abbrev pub is_anomaly : Option Verdict → Bool
is_anomaly (some anomaly) = true
is_anomaly _ = false

-- The store that is attached, with what it takes from outside when a request is made: the
-- identifier, the clock and the time to live, and whether the request can be written.
pub record Desk : Type 0 where
  pub store : Option Store
  pub id : Text
  pub clock : ℕ
  pub ttl : ℕ
  pub writable : Bool

-- `_request_approval`: the identifier of the request that was made, if one was.
abbrev pub file_in : Ask → Desk → Option Store → Option Text × Option Store
file_in a k none = (none, none)
file_in a k (some s) =
    if k.writable then (some k.id, some (request k.id k.clock k.ttl a s).1) else (none, some s)

unfoldable pub request_approval : Ask → Desk → Option Text × Option Store
request_approval a k = file_in a k k.store

abbrev pub with_id : Option Text → Dict Text → Dict Text
with_id none m = m
with_id (some i) m = m ++ (codes "approval_id", i) ∷ []

-- `_check_resource_limits`: a snapshot that cannot be taken is replaced by the caller's numbers,
-- and an excess raises.
abbrev pub or_given : Outcome ResourceUsage → ResourceUsage → ResourceUsage
or_given (returns u) given = u
or_given raises given = given

unfoldable pub check_resource_limits :
    Outcome ResourceUsage → ResourceUsage → ResourceLimits → Outcome Bool
unfolding build_check_result
check_resource_limits usage given limits =
    if (build_check_result (or_given usage given) limits).allowed then returns true else raises

-- What `can_execute` is called with, and what the components answer: the policy's evaluation, the
-- monitor's verdict if there is a monitor, and the resources if they are enforced.
pub record Call : Type 0 where
  pub agent_id : Text
  pub command : Text
  pub sandbox : Text
  pub resource_ctx : Text
  pub evaluation : Evaluation
  pub verdict : Option Verdict
  pub enforced : Bool
  pub usage : Outcome ResourceUsage
  pub given : ResourceUsage
  pub limits : ResourceLimits

-- The request that a decision files.
abbrev pub ask_for : Call → Text → Text → Ask
ask_for c risk reason = record {
  agent_id = c.agent_id;
  tool = codes "shell";
  command = c.command;
  cwd = c.sandbox;
  risk_level = risk;
  reason = reason;
}

unfoldable pub resources_ok : Call → Outcome Bool
unfolding check_resource_limits
resources_ok c = if c.enforced then check_resource_limits c.usage c.given c.limits else returns true

abbrev pub anomaly_reason : Text
anomaly_reason = codes "behavior anomaly detected for command"

abbrev pub confirming :
    Text → Text → Dict Text → Option Text × Option Store → DecisionResult × Option Store
confirming reason risk m (i, s) = (
  record {
    action = confirm;
    reason = reason;
    risk_level = risk;
    requires_confirmation = true;
    metadata = with_id i m;
  },
  s,
)

abbrev pub plain : Decision → Text → Text → DecisionResult
plain d reason risk = record {
  action = d;
  reason = reason;
  risk_level = risk;
  requires_confirmation = false;
  metadata = [];
}

-- The last two tests, on the action of the policy.
abbrev pub by_action : Action → Call → Desk → DecisionResult × Option Store
by_action Action.deny c k = (plain deny c.evaluation.reason (risk_value c.evaluation.risk), k.store)
by_action Action.confirm c k =
    let risk = risk_value c.evaluation.risk in
    confirming c.evaluation.reason risk [] (request_approval (ask_for c risk c.evaluation.reason) k)
by_action Action.auto c k =
    (plain allow c.evaluation.reason (risk_value c.evaluation.risk), k.store)

-- "Step 4", once the resources are checked.
unfoldable pub merge : Bool → Call → Desk → DecisionResult × Option Store
unfolding request_approval risk_value
merge resource_ok c k =
    if is_critical c.evaluation.risk
    then (plain deny (codes "critical risk: " ++ c.evaluation.reason) (codes "critical"), k.store)
    else if not resource_ok
    then (
      record {
        action = deny;
        reason = codes "resource limit exceeded";
        risk_level = codes "high";
        requires_confirmation = false;
        metadata = (codes "resource_ctx", c.resource_ctx) ∷ [];
      },
      k.store,
    )
    else if is_anomaly c.verdict
    then confirming anomaly_reason (codes "high") ((codes "monitor_verdict", codes "anomaly") ∷ [])
        (request_approval (ask_for c (codes "high") anomaly_reason) k)
    else by_action c.evaluation.action c k

unfoldable pub decide_call : Call → Desk → Outcome (DecisionResult × Option Store)
unfolding resources_ok merge
decide_call c k = elim (resources_ok c) [ returns ok ↦ returns (merge ok c k) | raises ↦ raises ]

-- What `can_execute` asks of the other components: `found` is the search of the policy's patterns.
pub record Context : Type 0 where
  pub rules : List Policy.Rule
  pub monitor : Option Monitor
  pub now : ℕ
  pub enforced : Bool
  pub limits : Dict ResourceLimits

abbrev verdict_of : Option Monitor → ℕ → Text → Text → Text → Option Verdict
verdict_of none now agent command sandbox = none
verdict_of (some m) now agent command sandbox = some (check_command now agent command sandbox m)

unfoldable pub call_for :
    (Text → Text → Bool)
    → Context
    → Text
    → Text
    → Text
    → Text
    → Option SourceType
    → Outcome ResourceUsage
    → ResourceUsage
    → Call
unfolding evaluate check_command get_limits
call_for found x agent command sandbox ctx src usage given = record {
  agent_id = agent;
  command = command;
  sandbox = sandbox;
  resource_ctx = ctx;
  evaluation = evaluate found x.rules command src;
  verdict = verdict_of x.monitor x.now agent command sandbox;
  enforced = x.enforced;
  usage = usage;
  given = given;
  limits = get_limits agent x.limits;
}

unfoldable pub can_execute :
    (Text → Text → Bool)
    → Context
    → Text
    → Text
    → Text
    → Text
    → Option SourceType
    → Outcome ResourceUsage
    → ResourceUsage
    → Desk
    → Outcome (DecisionResult × Option Store)
unfolding call_for decide_call
can_execute found x agent command sandbox ctx src usage given k =
    decide_call (call_for found x agent command sandbox ctx src usage given) k

-- `SecurityRule.confirm`: what becomes of a decision when the user answers.
unfoldable pub settle : DecisionResult → Option Bool → DecisionResult
settle d answer = if not d.requires_confirmation then d else elim answer [
  | some true ↦ plain allow (codes "user confirmed: " ++ d.reason) d.risk_level
  | some false ↦ plain deny (codes "user denied: " ++ d.reason) d.risk_level
  | none ↦ record {
    action = pending;
    reason = codes "awaiting user confirmation: " ++ d.reason;
    risk_level = d.risk_level;
    requires_confirmation = true;
    metadata = d.metadata;
  }
]
