-- ===== src/Workflow/Graph.antt =====
-- The data of a workflow, from src/trimum_core/workflow_engine.py (lines 31 to 130 and 330 to 349),
-- and the dictionaries that `run` builds of it (lines 369 to 378). A handler and an expression are
-- run by `Env`, since both are code that the workflow names.
use trimum.Base.{
  ℕ, Bool, true, false, ◌&&◌, Option, none, some, List, [], ◌∷◌, map, if◌then◌else◌, Text, same,
}
use trimum.Base.Dict.{Dict, lookup}

pub data NodeStatus : Type 0 where
  created queued dispatching running completed failed skipped timeout cancelled blocked : NodeStatus

pub data WorkflowStatus : Type 0 where
  running completed failed cancelled blocked : WorkflowStatus

pub data NodeMode : Type 0 where
  sequential parallel fan_out fan_in : NodeMode

-- `other` is a type text that the code does not name.
pub data EdgeCondition : Type 0 where
  always on_complete on_fail other : EdgeCondition
  expression : Text → EdgeCondition

pub record EdgeDefinition : Type 0 where
  pub source : Text
  pub target : Text
  pub condition : EdgeCondition

-- `auto_run` is `node.config.get("auto_run", True)`.
pub record NodeDefinition : Type 0 where
  pub id : Text
  pub mode : NodeMode
  pub auto_run : Bool

pub record WorkflowDefinition : Type 0 where
  pub nodes : List NodeDefinition
  pub edges : List EdgeDefinition

-- How the awaited handler of a node ends: it returns, or raises one of the three kinds that
-- `_execute_single_node` tells apart.
pub data HandlerOutcome : Type 0 where
  returned timed_out was_cancelled raised : HandlerOutcome

-- What the engine meets from outside in each turn of its loop: the ends of the handlers, the values
-- of the expressions on a source's result, and whether the cancel event is set at the head of the
-- turn and when a node is about to run. `from_event` is `context["triggered_by"] == "event"`.
pub record Env : Type 0 where
  pub outcome : ℕ → Text → HandlerOutcome
  pub holds : ℕ → Text → Text → Bool
  pub cancel_turn : ℕ → Bool
  pub cancel_node : ℕ → Text → Bool
  pub from_event : Bool

-- The keys of the dictionaries.
abbrev pub ids : WorkflowDefinition → List Text
ids w = map (λ n. n.id) w.nodes

-- `edge_to_target[nid]`
unfoldable pub edges_to : Text → List EdgeDefinition → List EdgeDefinition
edges_to n [] = []
edges_to n (e ∷ es) = if same e.target n then e ∷ edges_to n es else edges_to n es

-- `predecessors[nid]`
abbrev pub predecessors : WorkflowDefinition → Text → List Text
predecessors w n = map (λ e. e.source) (edges_to n w.edges)

-- `node_map[nid]`
unfoldable pub find_node : Text → List NodeDefinition → Option NodeDefinition
find_node n [] = none
find_node n (d ∷ ds) = if same d.id n then some d else find_node n ds

abbrev pub mode_of : Option NodeDefinition → NodeMode
mode_of none = NodeMode.sequential
mode_of (some d) = d.mode

abbrev pub auto_run_of : Option NodeDefinition → Bool
auto_run_of none = true
auto_run_of (some d) = d.auto_run

abbrev pub is_parallel_mode : NodeMode → Bool
is_parallel_mode NodeMode.parallel = true
is_parallel_mode _ = false

unfoldable pub is_parallel : WorkflowDefinition → Text → Bool
unfolding find_node
is_parallel w n = is_parallel_mode (mode_of (find_node n w.nodes))

abbrev pub Runtimes : Type 0
Runtimes = Dict NodeStatus

abbrev pub is_ok : NodeStatus → Bool
is_ok NodeStatus.completed = true
is_ok NodeStatus.skipped = true
is_ok _ = false

abbrev pub is_fail : NodeStatus → Bool
is_fail NodeStatus.failed = true
is_fail NodeStatus.timeout = true
is_fail NodeStatus.cancelled = true
is_fail NodeStatus.blocked = true
is_fail _ = false

abbrev pub or_created : Option NodeStatus → NodeStatus
or_created none = NodeStatus.created
or_created (some st) = st

-- The status of a node; `validate_dag` has made sure that it is there.
abbrev pub status_of : Text → Runtimes → NodeStatus
status_of n d = or_created (lookup n d)

abbrev pub is_done : Text → Runtimes → Bool
is_done n d = is_ok (status_of n d)

unfoldable pub all_done : List Text → Runtimes → Bool
all_done [] d = true
all_done (p ∷ ps) d = is_done p d && all_done ps d

-- `_is_node_ready`
unfoldable pub is_node_ready : WorkflowDefinition → Text → Runtimes → Bool
unfolding all_done edges_to
is_node_ready w n d = all_done (predecessors w n) d

-- `_evaluate_condition`
unfoldable pub evaluate_condition : Env → ℕ → EdgeDefinition → NodeStatus → Bool
evaluate_condition e turn edge st = elim edge.condition [
  | always ↦ true
  | on_complete ↦ elim st [ NodeStatus.completed ↦ true | _ ↦ false ]
  | on_fail ↦ elim st [ NodeStatus.failed ↦ true | NodeStatus.timeout ↦ true | _ ↦ false ]
  | expression t ↦ e.holds turn t edge.source
  | other ↦ true
]
