-- ===== src/Delegation/Examples.antt =====
-- Concrete tasks for child agents (src/trimum_core/delegation.py).
use trimum.Base.{◌≡◌, refl, Bool, true, false, none, some, [], ◌∷◌, Text, codes, same}
use trimum.Capability.Block.{ToolsValue, RawBlock, Block, low, normalise, covers, tool_allowed}
use trimum.Delegation.Plan.{
  DelegationRequest, DelegationPlan, ready, planned, budget_of, default_budget, plan_delegation,
}
use trimum.Delegation.Child.{
  Status, Spawned, reports, DelegationResult, no_error, Event, assigned, is_over, delegate,
}
use trimum.Delegation.Bounds.{Within, plan-Within}
use trimum.Delegation.Outcomes.{open_bus, completed_in_budget}

-- A search without wild cards.
abbrev exact : Text → Text → Bool
exact name pattern = same name pattern

abbrev owner : RawBlock
owner = record {
  tools = ToolsValue.many (codes "ls" ∷ codes "cat" ∷ []);
  max_risk = some (codes "low");
  expires_at = some (codes "2027");
  scope = none;
}

abbrev wish : RawBlock
wish = record {
  tools = ToolsValue.many (codes "ls" ∷ codes "rm" ∷ []);
  max_risk = some (codes "high");
  expires_at = none;
  scope = none;
}

abbrev errand : DelegationRequest
errand = record {
  task = codes "look";
  agent_type = codes "coder";
  capabilities = some wish;
  budget = some (record { steps = 50; tokens = 10 });
}

abbrev plan : DelegationPlan
plan = record {
  task_id = codes "t1";
  agent_id = codes "coder-t1";
  agent_type = codes "coder";
  task = codes "look";
  capabilities = record {
    tools = codes "ls" ∷ [];
    max_risk = low;
    expires_at = some (codes "2027");
    scope = [];
  };
  budget = record { steps = 20; tokens = 10 };
  status = ready;
  tightenings =
      record { parent = low; request = trimum.Capability.Block.MaxRisk.high; result = low } ∷ [];
}

plan_made : plan_delegation exact owner errand none (codes "t1") [] ≡ planned plan
unfolding plan_delegation same covers tool_allowed
plan_made = refl

plan-Within_example : Within exact (normalise owner).0 (budget_of none) plan
plan-Within_example = plan-Within exact owner errand none (codes "t1") [] plan plan_made refl

-- A child that reports seven steps.
abbrev child : DelegationPlan → Spawned
child p = reports record {
  is_completed = true;
  output = codes "done";
  error = [];
  steps_used = some 7;
  tokens_used = none;
  usage_reported = none;
}

abbrev outcome : DelegationResult
outcome = record {
  status = Status.completed;
  output = codes "done";
  error = no_error;
  reason = none;
  steps_used = some 7;
  tokens_used = none;
  usage_reported = true;
  events = assigned ∷ Event.completed ∷ [];
}

outcome_made : delegate exact (some open_bus) child owner errand none (codes "t1") [] ≡ some outcome
unfolding delegate same covers tool_allowed
outcome_made = refl

completed_in_budget_example :
    (is_over outcome.steps_used default_budget.steps ≡ false)
    × (is_over outcome.tokens_used default_budget.tokens ≡ false)
    × (p : DelegationPlan) × (plan_delegation exact owner errand none (codes "t1") [] ≡ planned p)
    × (p.status ≡ ready)
completed_in_budget_example =
    completed_in_budget exact (some open_bus) child owner errand none (codes "t1") [] outcome
      outcome_made refl
