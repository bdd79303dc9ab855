-- ===== src/Delegation/Child.antt =====
-- `delegate` of src/trimum_core/delegation.py (lines 103 to 132, 340 to 347 and 384 to 580): the
-- plan, the events and what the child reports. The audit record repeats the data of the result and
-- is left out. What the bus and the child do is an argument.
use trimum.Base.{
  ℕ, Bool, true, false, not, ◌||◌, Option, none, some, List, [], ◌∷◌, ◌++◌, ltb, if◌then◌else◌,
  Text,
}
use trimum.Capability.Block.{RawBlock}
use trimum.Delegation.Plan.{
  Budget, DelegationRequest, DelegationPlan, PlanStatus, ready, Rejection, Planned, empty_task,
  planned, plan_delegation,
}

pub data Status : Type 0 where
  completed failed crashed rejected budget_exhausted : Status

pub data Event : Type 0 where
  assigned : Event
  completed : Event
  failed : Status → Event

-- `ChildReport`; `is_completed` is `status == "completed"`.
pub record ChildReport : Type 0 where
  pub is_completed : Bool
  pub output : Text
  pub error : Text
  pub steps_used : Option ℕ
  pub tokens_used : Option ℕ
  pub usage_reported : Option Bool

-- The call of `spawn`, and the reading of what it gives (`_coerce_report`): a report, or an error.
pub data Spawned : Type 0 where
  reports : ChildReport → Spawned
  raises : Text → Spawned

-- The error of each call of `emit_task`, if it raises one: of `task.assigned`, of the event at the
-- end and of the one behind a crash.
pub record Bus : Type 0 where
  pub on_assigned : Option Text
  pub on_ended : Option Text
  pub on_crashed : Option Text

pub data ErrorText : Type 0 where
  no_error : ErrorText
  text : Text → ErrorText
  exceeded : (over_steps over_tokens : Bool) → ErrorText

pub record DelegationResult : Type 0 where
  pub status : Status
  pub output : Text
  pub error : ErrorText
  pub reason : Option Rejection
  pub steps_used : Option ℕ
  pub tokens_used : Option ℕ
  pub usage_reported : Bool
  pub events : List Event

-- `used is not None and used > limit`
abbrev pub is_over : Option ℕ → ℕ → Bool
is_over none limit = false
is_over (some n) limit = ltb limit n

abbrev pub is_some_used : Option ℕ → Bool
is_some_used none = false
is_some_used (some _) = true

unfoldable pub classify : ChildReport → Budget → Status × ErrorText
classify r b =
    if not r.is_completed
    then (Status.failed, text r.error)
    else if is_over r.steps_used b.steps || is_over r.tokens_used b.tokens
    then (
      Status.budget_exhausted,
      exceeded (is_over r.steps_used b.steps) (is_over r.tokens_used b.tokens),
    )
    else (Status.completed, no_error)

abbrev pub usage_of : ChildReport → Option Bool → Bool
usage_of r (some b) = b
usage_of r none = is_some_used r.steps_used || is_some_used r.tokens_used

abbrev pub event_of : Status → Event
event_of Status.completed = Event.completed
event_of s = Event.failed s

-- The handler of all exceptions.
abbrev pub crash : Option Bus → List Event → Text → DelegationResult
crash bus events err =
    let sent : List Event = elim bus [
      | none ↦ events
      | some b ↦ elim b.on_crashed [
        | none ↦ events ++ Event.failed Status.crashed ∷ []
        | some _ ↦ events
      ]
    ] in
    record {
      status = Status.crashed;
      output = [];
      error = text err;
      reason = none;
      steps_used = none;
      tokens_used = none;
      usage_reported = false;
      events = sent;
    }

abbrev pub result_with : ChildReport → Status × ErrorText → List Event → DelegationResult
result_with r (st, err) events = record {
  status = st;
  output = r.output;
  error = err;
  reason = none;
  steps_used = r.steps_used;
  tokens_used = r.tokens_used;
  usage_reported = usage_of r r.usage_reported;
  events = events;
}

-- The event at the end.
abbrev pub settle : Option Bus → ChildReport → Status × ErrorText → List Event → DelegationResult
settle none r c events = result_with r c events
settle (some b) r c events = elim b.on_ended [
  | none ↦ result_with r c (events ++ event_of c.0 ∷ [])
  | some err ↦ crash (some b) events err
]

abbrev pub run_child : Option Bus → Spawned → Budget → List Event → DelegationResult
run_child bus (raises err) budget events = crash bus events err
run_child bus (reports r) budget events = settle bus r (classify r budget) events

-- The whole of the `try`.
abbrev pub start : Option Bus → Spawned → Budget → DelegationResult
start none child budget = run_child none child budget []
start (some b) child budget = elim b.on_assigned [
  | none ↦ run_child (some b) child budget (assigned ∷ [])
  | some err ↦ crash (some b) [] err
]

abbrev pub refuse : Rejection → DelegationResult
refuse why = record {
  status = Status.rejected;
  output = [];
  error = no_error;
  reason = some why;
  steps_used = none;
  tokens_used = none;
  usage_reported = false;
  events = [];
}

abbrev pub on_status : Option Bus → Spawned → Budget → PlanStatus → DelegationResult
on_status bus child budget ready = start bus child budget
on_status bus child budget (PlanStatus.rejected why) = refuse why

-- On the plan: `spawn` is a function of it.
unfoldable pub on_plan : Option Bus → (DelegationPlan → Spawned) → DelegationPlan → DelegationResult
unfolding classify
on_plan bus spawn p = on_status bus (spawn p) p.budget p.status

abbrev pub on_planned : Option Bus → (DelegationPlan → Spawned) → Planned → Option DelegationResult
on_planned bus spawn empty_task = none
on_planned bus spawn (planned p) = some (on_plan bus spawn p)

-- `delegate`: `none` is the `ValueError` of an empty task.
unfoldable pub delegate :
    (Text → Text → Bool)
    → Option Bus
    → (DelegationPlan → Spawned)
    → RawBlock
    → DelegationRequest
    → Option Budget
    → Text
    → Text
    → Option DelegationResult
unfolding plan_delegation on_plan
delegate glob bus spawn raw request parent_budget task_id fresh =
    on_planned bus spawn (plan_delegation glob raw request parent_budget task_id fresh)
