-- ===== src/Delegation/Plan.antt =====
-- `plan_delegation` of src/trimum_core/delegation.py (lines 61 to 271), which decides what a child
-- agent may do. The texts and dictionaries that report a decision are rendered from the data here.
-- `glob` is `fnmatch.fnmatch`, and `fresh` the identifier that `uuid4` would make.
use trimum.Base.{
  ℕ, Bool, not, ◌||◌, Option, none, some, List, [], ◌∷◌, ◌++◌, ◌==◌, leb, any, take, if◌then◌else◌,
  Text, codes, nonempty, member,
}
use trimum.Base.Strings.{strip}
use trimum.Approvals.Store.{name_leb}
use trimum.Capability.Block.{
  RawBlock, Block, Problem, MaxRisk, inherit, low, medium, high, normalise, has_problem,
  tool_allowed,
}

-- `Budget`; its constructor refuses amounts that are not positive.
pub record Budget : Type 0 where
  pub steps : ℕ
  pub tokens : ℕ

abbrev pub default_budget : Budget
default_budget = record { steps = 20; tokens = 20000 }

-- `min(a, b)`
abbrev pub lesser : ℕ → ℕ → ℕ
lesser a b = if leb a b then a else b

-- `Budget.tighten`
abbrev pub tighten_budget : Budget → Budget → Budget
tighten_budget b parent = record {
  steps = lesser b.steps parent.steps;
  tokens = lesser b.tokens parent.tokens;
}

pub record DelegationRequest : Type 0 where
  pub task : Text
  pub agent_type : Text
  pub capabilities : Option RawBlock
  pub budget : Option Budget

-- Why a plan is rejected: the data of `reason` and of the one entry of `tightenings`.
pub data Rejection : Type 0 where
  capability_unreadable : List Problem → List Problem → Rejection
  tool_not_permitted : Text → Rejection
  capability_empty : List Text → Rejection

pub data PlanStatus : Type 0 where
  ready : PlanStatus
  rejected : Rejection → PlanStatus

-- The entry of `tightenings` of a plan that is ready.
pub record RiskTightening : Type 0 where
  pub parent : MaxRisk
  pub request : MaxRisk
  pub result : MaxRisk

pub record DelegationPlan : Type 0 where
  pub task_id : Text
  pub agent_id : Text
  pub agent_type : Text
  pub task : Text
  pub capabilities : Block
  pub budget : Budget
  pub status : PlanStatus
  pub tightenings : List RiskTightening

-- `ValueError`, or the plan.
pub data Planned : Type 0 where
  empty_task : Planned
  planned : DelegationPlan → Planned

-- `identity.MAX_RISK_VALUES.index(risk)`
abbrev pub risk_index : MaxRisk → ℕ
risk_index inherit = 0
risk_index low = 1
risk_index medium = 2
risk_index high = 3

-- `_intersect_risk`
abbrev pub intersect_risk : MaxRisk → MaxRisk → MaxRisk
intersect_risk inherit r = r
intersect_risk p inherit = p
intersect_risk p r = if leb (risk_index p) (risk_index r) then p else r

-- `min(str(a), str(b))`, when both are there.
abbrev pub intersect_expiry : Option Text → Option Text → Option Text
intersect_expiry none r = r
intersect_expiry (some p) none = some p
intersect_expiry (some p) (some r) = if name_leb p r then some p else some r

-- `"*" in tool`
abbrev pub has_star : Text → Bool
has_star t = any (λ c. c == b'*') t

-- The tools of the child, or why there are none.
pub data Selection : Type 0 where
  chosen : List Text → Selection
  refused : Rejection → Selection

abbrev pub refusal : List Text → Rejection
refusal (t ∷ []) =
    if has_star t then Rejection.capability_empty (t ∷ []) else Rejection.tool_not_permitted t
refusal ts = Rejection.capability_empty ts

abbrev pub choose : List Text → List Text → Selection
choose [] overreaches = refused (refusal overreaches)
choose (t ∷ ts) overreaches = chosen (t ∷ ts)

abbrev pub budget_of : Option Budget → Budget
budget_of none = default_budget
budget_of (some b) = b

abbrev pub child_budget : Option Budget → Option Budget → Budget
child_budget parent none = budget_of parent
child_budget parent (some b) = tighten_budget b (budget_of parent)

abbrev pub same_risk : MaxRisk → MaxRisk → Bool
same_risk a b = risk_index a == risk_index b

abbrev pub risk_tightenings : MaxRisk → MaxRisk → List RiskTightening
risk_tightenings p r =
    let c = intersect_risk p r in
    if same_risk c r then [] else record { parent = p; request = r; result = c } ∷ []

abbrev pub task_id_of : Text → Text → Text
task_id_of [] fresh = fresh
task_id_of (c ∷ t) fresh = c ∷ t

-- `normalise` of a block that is not there.
abbrev pub no_block : RawBlock
no_block = record {
  tools = trimum.Capability.Block.ToolsValue.absent;
  max_risk = none;
  expires_at = none;
  scope = none;
}

abbrev pub raw_or_none : Option RawBlock → RawBlock
raw_or_none none = no_block
raw_or_none (some b) = b

-- The plan, once both blocks were read.
abbrev pub intersect : DelegationPlan → Block → Selection → DelegationPlan
intersect p r (refused why) = record p { status = rejected why }
intersect p r (chosen tools) = record p {
  capabilities = record {
    tools = tools;
    max_risk = intersect_risk p.capabilities.max_risk r.max_risk;
    expires_at = intersect_expiry p.capabilities.expires_at r.expires_at;
    scope = p.capabilities.scope;
  };
  tightenings = risk_tightenings p.capabilities.max_risk r.max_risk;
}

abbrev pub budget_on : PlanStatus → Budget → Budget → Budget
budget_on ready old new = new
budget_on (rejected w) old new = old

abbrev pub with_budget : Budget → DelegationPlan → DelegationPlan
with_budget b p = record p { budget = budget_on p.status p.budget b }

module _ (glob : Text → Text → Bool) where
  -- The request's tools that the parent's list allows, and the others.
  unfoldable pub permitted : List Text → List Text → List Text
  permitted parent [] = []
  permitted parent (t ∷ ts) =
      if tool_allowed glob t parent then t ∷ permitted parent ts else permitted parent ts

  unfoldable pub overreaching : List Text → List Text → List Text
  overreaching parent [] = []
  overreaching parent (t ∷ ts) =
      if tool_allowed glob t parent then overreaching parent ts else t ∷ overreaching parent ts

  unfoldable pub select_tools : List Text → List Text → Selection
  unfolding permitted overreaching
  select_tools parent request =
      if member (codes "*") request
      then chosen parent
      else choose (permitted parent request) (overreaching parent request)

  -- The capabilities of a plan with the parent's block in their place.
  unfoldable pub restrict : DelegationPlan → Option RawBlock → Block → DelegationPlan
  unfolding select_tools
  restrict p none r = p
  restrict p (some raw) r = intersect p r (select_tools p.capabilities.tools r.tools)

  unfoldable pub plan_delegation :
      RawBlock → DelegationRequest → Option Budget → Text → Text → Planned
  unfolding restrict normalise strip
  plan_delegation raw request parent_budget task_id fresh =
      let task = strip request.task in
      let tid = task_id_of task_id fresh in
      let (parent, parent_problems) = normalise raw in
      let (asked, problems) = normalise (raw_or_none request.capabilities) in
      let p : DelegationPlan = record {
        task_id = tid;
        agent_id = request.agent_type ++ codes "-" ++ take 8 tid;
        agent_type = request.agent_type;
        task = task;
        capabilities = parent;
        budget = budget_of parent_budget;
        status = ready;
        tightenings = [];
      } in
      if not (nonempty task)
      then empty_task
      else if has_problem parent_problems || has_problem problems
      then planned (record p {
        status = rejected (Rejection.capability_unreadable parent_problems problems);
      })
      else planned (
          with_budget (child_budget parent_budget request.budget)
            (restrict p request.capabilities asked))
