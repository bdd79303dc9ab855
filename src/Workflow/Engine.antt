-- ===== src/Workflow/Engine.antt =====
-- `run`, `_execute_dag` and `_execute_single_node` of src/trimum_core/workflow_engine.py (lines 353
-- to 530, 579 to 704 and 894 to 920), on statuses: results, times, attempts and the events on the
-- bus are left out, but for the log of the `node.started` ones, which stand before each call of a
-- handler. The tasks of a parallel group run one after another; each writes the status of its own
-- node only. After a failure `retry_count` only delays the return.
use trimum.Base.{
  ℕ, zero, suc, ◌+◌, Bool, true, false, not, ◌&&◌, ◌||◌, Option, none, some, List, [], ◌∷◌, ◌++◌,
  map, if◌then◌else◌, Text, member, any, length,
}
use trimum.Base.Dict.{lookup, insert}
use trimum.Workflow.Dag.{DagError, validate_dag, topological_sort}
use trimum.Workflow.Graph.{
  NodeStatus, created, queued, dispatching, failed, skipped, timeout, blocked, WorkflowStatus,
  EdgeDefinition, WorkflowDefinition, HandlerOutcome, returned, timed_out, was_cancelled, raised,
  Env, ids, edges_to, predecessors, find_node, auto_run_of, is_parallel, Runtimes, is_ok, is_fail,
  status_of, is_node_ready, evaluate_condition,
}

-- The local variables of `_execute_dag`, and the log of started handlers, newest first.
pub record State : Type 0 where
  pub runtimes : Runtimes
  pub ready : List Text
  pub done_nodes : List Text
  pub started : List Text
  pub turn : ℕ

abbrev pub set_status : Text → NodeStatus → State → State
set_status n st s = record s { runtimes = insert n st s.runtimes }

-- What an edge whose condition fails makes of the node.
abbrev pub refused_by : NodeStatus → NodeStatus
refused_by NodeStatus.cancelled = blocked
refused_by NodeStatus.blocked = blocked
refused_by _ = skipped

-- The loop over the edges into the node: the status with which it is given up, if it is.
unfoldable pub check_edges : Env → ℕ → List EdgeDefinition → Runtimes → Option NodeStatus
unfolding evaluate_condition
check_edges e turn [] d = none
check_edges e turn (x ∷ xs) d =
    let rest = check_edges e turn xs d in
    elim (lookup x.source d) [
      | none ↦ rest
      | some st ↦ if evaluate_condition e turn x st then rest else some (refused_by st)
    ]

abbrev pub status_after : HandlerOutcome → NodeStatus
status_after returned = NodeStatus.completed
status_after timed_out = timeout
status_after was_cancelled = NodeStatus.cancelled
status_after raised = failed

abbrev pub run_handler : Env → Text → State → Option NodeStatus → State
run_handler e n s (some st) = set_status n st s
run_handler e n s none = record (set_status n (status_after (e.outcome s.turn n)) s) {
  started = n ∷ s.started;
}

-- `_execute_single_node`
unfoldable pub execute_single_node : Env → WorkflowDefinition → Text → State → State
unfolding check_edges
execute_single_node e w n s =
    if e.cancel_node s.turn n
    then set_status n NodeStatus.cancelled s
    else if e.from_event && not (auto_run_of (find_node n w.nodes))
    then set_status n skipped s
    else run_handler e n s (check_edges e s.turn (edges_to n w.edges) s.runtimes)

abbrev pub is_created : NodeStatus → Bool
is_created NodeStatus.created = true
is_created _ = false

-- One turn of the loop of `_add_ready_successors`.
unfoldable pub add_ready : WorkflowDefinition → Text → State → State
unfolding is_node_ready
add_ready w m s =
    if member m s.done_nodes || member m s.ready
    then s
    else if is_node_ready w m s.runtimes
    then record s {
      runtimes =
          if is_created (status_of m s.runtimes) then insert m queued s.runtimes else s.runtimes;
      ready = s.ready ++ m ∷ [];
    }
    else s

unfoldable pub add_ready_successors : WorkflowDefinition → List Text → State → State
unfolding add_ready
add_ready_successors w [] s = s
add_ready_successors w (m ∷ ms) s = add_ready_successors w ms (add_ready w m s)

-- `completed_nodes.add(nid)` and the call behind it.
unfoldable pub finish : WorkflowDefinition → Text → State → State
unfolding add_ready_successors
finish w n s = add_ready_successors w (ids w) (record s { done_nodes = n ∷ s.done_nodes })

-- The sequential part of a turn, for the node that was popped.
unfoldable pub run_one : Env → WorkflowDefinition → Text → State → State
unfolding finish execute_single_node
run_one e w n s =
    if is_node_ready w n s.runtimes
    then finish w n (execute_single_node e w n (set_status n dispatching s))
    else finish w n (set_status n blocked s)

-- The loop that pops the parallel nodes from the front: those that are ready, and what is left.
unfoldable pub parallel_group : WorkflowDefinition → Runtimes → List Text → List Text × List Text
unfolding is_parallel
parallel_group w d [] = ([], [])
parallel_group w d (n ∷ ns) =
    let (group, rest) = parallel_group w d ns in
    if is_parallel w n
    then (if is_node_ready w n d then n ∷ group else group, rest)
    else ([], n ∷ ns)

abbrev pub dispatch_all : List Text → State → State
dispatch_all [] s = s
dispatch_all (n ∷ ns) s = dispatch_all ns (set_status n dispatching s)

abbrev pub execute_all : Env → WorkflowDefinition → List Text → State → State
execute_all e w [] s = s
execute_all e w (n ∷ ns) s = execute_all e w ns (execute_single_node e w n s)

abbrev pub finish_all : WorkflowDefinition → List Text → State → State
finish_all w [] s = s
finish_all w (n ∷ ns) s = finish_all w ns (finish w n s)

-- How the loop ends: regularly, by a pop from an empty list, or for want of fuel.
pub data Ended : Type 0 where
  ended : State → Ended
  index_error out_of_fuel : Ended

-- The body of the loop, on the group and the queue behind it.
unfoldable pub turn_on : Env → WorkflowDefinition → List Text → List Text → State → Option State
unfolding run_one
turn_on e w (n ∷ ns) rest s =
    let group = n ∷ ns in
    some
      (finish_all w group (execute_all e w group (dispatch_all group (record s { ready = rest }))))
turn_on e w [] [] s = none
turn_on e w [] (n ∷ rest) s = some (run_one e w n (record s { ready = rest }))

unfoldable pub turn : Env → WorkflowDefinition → State → Option State
unfolding turn_on parallel_group
turn e w s = let (group, rest) = parallel_group w s.runtimes s.ready in turn_on e w group rest s

abbrev pub is_empty : List Text → Bool
is_empty [] = true
is_empty (_ ∷ _) = false

abbrev pub next_turn : State → State
next_turn s = record s { turn = s.turn + 1 }

abbrev pub continue_with : Option State → (State → Ended) → Ended
continue_with none k = index_error
continue_with (some s) k = k (next_turn s)

-- The `while` loop.
unfoldable pub loop : ℕ → Env → WorkflowDefinition → State → Ended
unfolding turn
loop zero e w s = if is_empty s.ready || e.cancel_turn s.turn then ended s else out_of_fuel
loop (suc f) e w s =
    if is_empty s.ready || e.cancel_turn s.turn
    then ended s
    else continue_with (turn e w s) (loop f e w)

-- The nodes without predecessors are queued first, in the order of `topological_sort`.
unfoldable pub queue_roots : WorkflowDefinition → List Text → State → State
queue_roots w [] s = s
queue_roots w (n ∷ ns) s = queue_roots w ns (
    if is_empty (predecessors w n)
    then record s { runtimes = insert n queued s.runtimes; ready = s.ready ++ n ∷ [] }
    else s)

abbrev pub fresh_state : WorkflowDefinition → State
fresh_state w = record {
  runtimes = map (λ n. (n, created)) (ids w);
  ready = [];
  done_nodes = [];
  started = [];
  turn = 0;
}

-- How `run` ends: `validate_dag` raises, the loop comes to its end, or it does not.
pub data RunResult : Type 0 where
  refused : DagError → RunResult
  result : State → RunResult
  crashed : RunResult

abbrev pub result_of : Ended → RunResult
result_of (ended s) = RunResult.result s
result_of Ended.index_error = RunResult.crashed
result_of Ended.out_of_fuel = RunResult.crashed

-- `_execute_dag`, up to the decision on the final status.
unfoldable pub execute_dag : ℕ → Env → WorkflowDefinition → List Text → RunResult
unfolding loop queue_roots
execute_dag fuel e w order = result_of (loop fuel e w (queue_roots w order (fresh_state w)))

abbrev pub unless_raised : Option DagError → RunResult → RunResult
unless_raised (some d) r = RunResult.refused d
unless_raised none r = r

-- `run`, with a unit of fuel for each node.
unfoldable pub run : Env → WorkflowDefinition → RunResult
unfolding validate_dag topological_sort execute_dag
run e w =
    let executed = execute_dag (length (ids w)) e w (topological_sort w) in
    unless_raised (validate_dag w) executed

abbrev pub statuses : Runtimes → List NodeStatus
statuses d = map (λ p. p.1) d

abbrev pub is_blocked : NodeStatus → Bool
is_blocked NodeStatus.blocked = true
is_blocked _ = false

-- The final status of the workflow.
unfoldable pub final_status : Env → State → WorkflowStatus
final_status e s =
    let sts = statuses s.runtimes in
    if e.cancel_turn s.turn
    then WorkflowStatus.cancelled
    else if any is_blocked sts
    then WorkflowStatus.blocked
    else if any is_fail sts
    then WorkflowStatus.failed
    else if not (any (λ st. not (is_ok st || is_fail st)) sts)
    then WorkflowStatus.completed
    else WorkflowStatus.running
