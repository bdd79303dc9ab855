-- ===== src/Workflow/Examples.antt =====
-- Tests of the executor of workflow graphs (src/trimum_core/workflow_engine.py), and its theorems at
-- concrete workflows.
use trimum.Base.{
  ◌≡◌, ◌↔◌, refl, ◌⊎◌, true, false, List, [], ◌∷◌, Text, codes, same, member, Nodup, arith, none,
  some, All,
}
use trimum.Base.Dict.{lookup, insert}
use trimum.Workflow.Graph.{
  NodeStatus, skipped, NodeMode, sequential, parallel, on_complete, on_fail, WorkflowStatus,
  WorkflowDefinition, NodeDefinition, Env, returned, ids, edges_to, is_fail, status_of, is_done,
  is_parallel, find_node,
}
use trimum.Workflow.Dag.{DagError, validate_dag, topological_sort}
use trimum.Workflow.Engine.{State, RunResult, refused, result, run, final_status}
use trimum.Workflow.Turns.{Sequential}
use trimum.Workflow.Toposort.{IsTopological}
use trimum.Workflow.Accepts.{Joined, topological_sort-IsTopological, validate_dag_iff}
use trimum.Workflow.Run.{run_ends, run-Nodup, on_fail_never_runs}
use trimum.Workflow.Final.{final_status_cases}

abbrev calm : Env
calm = record {
  outcome = λ turn n. returned;
  holds = λ turn t n. true;
  cancel_turn = λ turn. false;
  cancel_node = λ turn n. false;
  from_event = false;
}

abbrev fetch : Text
fetch = codes "fetch"

abbrev report : Text
report = codes "report"

abbrev repair : Text
repair = codes "repair"

abbrev node : Text → NodeMode → NodeDefinition
node n m = record { id = n; mode = m; auto_run = true }

-- `report` behind a success of `fetch`, `repair` behind its failure.
abbrev watched : WorkflowDefinition
watched = record {
  nodes = node report sequential ∷ node fetch sequential ∷ node repair sequential ∷ [];
  edges =
      record { source = fetch; target = report; condition = on_complete }
      ∷ record { source = fetch; target = repair; condition = on_fail }
      ∷ [];
}

watched-Sequential : Sequential watched
unfolding is_parallel find_node
watched-Sequential n = ground arith

watched_accepted : validate_dag watched ≡ none
unfolding validate_dag same insert lookup
watched_accepted = refl

watched_order : topological_sort watched ≡ fetch ∷ repair ∷ report ∷ []
unfolding topological_sort same insert lookup
watched_order = refl

abbrev watched_end : State
watched_end = record {
  runtimes =
      (report, NodeStatus.completed) ∷ (fetch, NodeStatus.completed) ∷ (repair, skipped) ∷ [];
  ready = [];
  done_nodes = repair ∷ report ∷ fetch ∷ [];
  started = report ∷ fetch ∷ [];
  turn = 3;
}

watched_result : run calm watched ≡ result watched_end
unfolding run same insert lookup
watched_result = refl

-- Two nodes that run in parallel: the second is executed again, in a turn of its own.
abbrev twins : WorkflowDefinition
twins = record { nodes = node fetch parallel ∷ node report parallel ∷ []; edges = [] }

abbrev started_of : RunResult → List Text
started_of (result s) = s.started
started_of _ = []

twins_started : started_of (run calm twins) ≡ report ∷ report ∷ fetch ∷ []
unfolding run same insert lookup
twins_started = refl

-- An identifier that stands twice is told to be a cycle.
doubled :
    validate_dag record { nodes = node fetch sequential ∷ node fetch sequential ∷ []; edges = [] }
    ≡ some DagError.circular_dependency
unfolding validate_dag same insert lookup
doubled = refl

topological_sort-IsTopological_example : IsTopological watched (topological_sort watched)
topological_sort-IsTopological_example = topological_sort-IsTopological watched watched_accepted

validate_dag_iff_example :
    (validate_dag watched ≡ none)
    ↔ (Joined watched × Nodup (ids watched) × (order : List Text) × IsTopological watched order)
validate_dag_iff_example = validate_dag_iff watched

run_ends_example :
    ((d : DagError) × (validate_dag watched ≡ some d) × (run calm watched ≡ refused d))
    ⊎ ((validate_dag watched ≡ none) × (s : State) × (run calm watched ≡ result s))
run_ends_example = run_ends calm watched watched-Sequential

run-Nodup_example : Nodup watched_end.started
run-Nodup_example = run-Nodup calm watched watched_end watched-Sequential watched_result

on_fail_never_runs_example : member repair watched_end.started ≡ false
unfolding same edges_to
on_fail_never_runs_example =
    on_fail_never_runs calm watched watched_end repair watched-Sequential watched_result refl

final_status_cases_example :
    ((final_status calm watched_end ≡ WorkflowStatus.completed)
      × All (λ m. is_done m watched_end.runtimes ≡ true) (ids watched))
    ⊎ (((final_status calm watched_end ≡ WorkflowStatus.failed)
          ⊎ (final_status calm watched_end ≡ WorkflowStatus.blocked))
        × (m : Text) × (member m (ids watched) ≡ true)
        × (is_fail (status_of m watched_end.runtimes) ≡ true))
final_status_cases_example =
    final_status_cases calm watched watched_end watched-Sequential watched_result refl
