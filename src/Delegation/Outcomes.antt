-- ===== src/Delegation/Outcomes.antt =====
-- What `delegate` of src/trimum_core/delegation.py (lines 384 to 580) tells of a child.
use trimum.Base.{
  ℕ, ◌≡◌, ◌≤◌, refl, ap, ◌∙◌, Bool, false, Option, none, some, List, [], ◌∷◌, arith, Option-cases,
  Text,
}
use trimum.Capability.Block.{RawBlock}
use trimum.Delegation.Plan.{
  Budget, DelegationRequest, DelegationPlan, PlanStatus, ready, Planned, empty_task, planned,
  budget_of, plan_delegation,
}
use trimum.Delegation.Child.{
  Status, Event, assigned, Spawned, reports, raises, Bus, DelegationResult, is_over, classify,
  on_status, on_plan, on_planned, delegate,
}
use trimum.Delegation.Bounds.{plan-Within}

-- A bus that takes every event.
abbrev pub open_bus : Bus
open_bus = record { on_assigned = none; on_ended = none; on_crashed = none }

abbrev pub expected : Status → List Event
expected Status.rejected = []
expected Status.completed = assigned ∷ Event.completed ∷ []
expected s = assigned ∷ Event.failed s ∷ []

delegate_inv :
    (glob : Text → Text → Bool) (bus : Option Bus) (spawn : DelegationPlan → Spawned)
    (raw : RawBlock) (request : DelegationRequest) (limit : Option Budget) (task_id fresh : Text)
    (r : DelegationResult)
    → delegate glob bus spawn raw request limit task_id fresh ≡ some r
    → (p : DelegationPlan) × (plan_delegation glob raw request limit task_id fresh ≡ planned p)
      × (on_status bus (spawn p) p.budget p.status ≡ r)
unfolding delegate on_plan
delegate_inv glob bus spawn raw request limit task_id fresh r h =
    by_plan (plan_delegation glob raw request limit task_id fresh) refl h
  where
    by_plan :
        (o : Planned)
        → plan_delegation glob raw request limit task_id fresh ≡ o
        → on_planned bus spawn o ≡ some r
        → (p : DelegationPlan) × (plan_delegation glob raw request limit task_id fresh ≡ planned p)
          × (on_status bus (spawn p) p.budget p.status ≡ r)
    by_plan empty_task e g = cc
    by_plan (planned p) e g = (p, e, cc)

status_events :
    (child : Spawned) (b : Budget) (st : PlanStatus)
    → (let r = on_status (some open_bus) child b st in r.events ≡ expected r.status)
unfolding classify
status_events child b (PlanStatus.rejected why) = refl
status_events (raises err) b ready = refl
status_events (reports c) b ready = ground arith

-- On a bus that takes every event, the events are those of the status.
pub events_of_status :
    (glob : Text → Text → Bool) (spawn : DelegationPlan → Spawned) (raw : RawBlock)
    (request : DelegationRequest) (limit : Option Budget) (task_id fresh : Text)
    (r : DelegationResult)
    → delegate glob (some open_bus) spawn raw request limit task_id fresh ≡ some r
    → r.events ≡ expected r.status
events_of_status glob spawn raw request limit task_id fresh r h =
    let (p, e, q) = delegate_inv glob (some open_bus) spawn raw request limit task_id fresh r h in
    let events = status_events (spawn p) p.budget p.status in rw q at events

-- Only a plan that is ready, of a child that keeps to its budget, is completed.
completed_status :
    (bus : Option Bus) (child : Spawned) (b : Budget) (st : PlanStatus)
    → (on_status bus child b st).status ≡ Status.completed
    → (st ≡ ready)
      × (is_over (on_status bus child b st).steps_used b.steps ≡ false)
      × (is_over (on_status bus child b st).tokens_used b.tokens ≡ false)
unfolding classify
completed_status bus child b (PlanStatus.rejected why) h = cc
completed_status none (raises err) b ready h = cc
completed_status none (reports c) b ready h = (refl, ground arith, ground arith)
completed_status (some bs) (raises err) b ready h =
    absurd (ground (arith, Option-cases bs.on_assigned))
completed_status (some bs) (reports c) b ready h = (
  refl,
  ground (arith, Option-cases bs.on_assigned, Option-cases bs.on_ended),
  ground (arith, Option-cases bs.on_assigned, Option-cases bs.on_ended),
)

over_mono : (used : Option ℕ) (a b : ℕ) → a ≤ b → is_over used a ≡ false → is_over used b ≡ false
over_mono none a b h g = refl
over_mono (some n) a b h g = ground arith

-- A child whose result is completed was started on a plan that is ready, and it reported no more
-- steps and tokens than the budget of its parent.
pub completed_in_budget :
    (glob : Text → Text → Bool) (bus : Option Bus) (spawn : DelegationPlan → Spawned)
    (raw : RawBlock) (request : DelegationRequest) (limit : Option Budget) (task_id fresh : Text)
    (r : DelegationResult)
    → delegate glob bus spawn raw request limit task_id fresh ≡ some r
    → r.status ≡ Status.completed
    → (is_over r.steps_used (budget_of limit).steps ≡ false)
      × (is_over r.tokens_used (budget_of limit).tokens ≡ false)
      × (p : DelegationPlan) × (plan_delegation glob raw request limit task_id fresh ≡ planned p)
      × (p.status ≡ ready)
completed_in_budget glob bus spawn raw request limit task_id fresh r h c =
    let (p, e, q) = delegate_inv glob bus spawn raw request limit task_id fresh r h in
    let (st, steps, tokens) =
      completed_status bus (spawn p) p.budget p.status (ap (λ x. x.status) q ∙ c) in
    let w = plan-Within glob raw request limit task_id fresh p e st in
    (
      over_mono r.steps_used p.budget.steps (budget_of limit).steps w.steps (rw q at steps),
      over_mono r.tokens_used p.budget.tokens (budget_of limit).tokens w.tokens (rw q at tokens),
      p,
      e,
      st,
    )

-- The scope that a request names changes nothing.
pub scope_ignored :
    (glob : Text → Text → Bool) (raw asked : RawBlock) (request : DelegationRequest)
    (limit : Option Budget) (task_id fresh : Text) (scope : Option Text)
    → plan_delegation glob raw
        (record request { capabilities = some (record asked { scope = scope }) })
        limit
        task_id
        fresh
      ≡ plan_delegation glob raw (record request { capabilities = some asked }) limit task_id fresh
unfolding plan_delegation
scope_ignored glob raw asked request limit task_id fresh scope = refl
