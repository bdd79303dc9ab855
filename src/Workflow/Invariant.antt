-- ===== src/Workflow/Invariant.antt =====
-- What holds between the turns of `_execute_dag` of src/trimum_core/workflow_engine.py in a workflow
-- without parallel nodes.
use trimum.Base.{
  ℕ, ◌≡◌, refl, ap, inl, inr, Bool, true, false, not, ◌&&◌, ◌||◌, Option, none, some, List, [], ◌∷◌,
  map, if◌then◌else◌, Text, same, same_iff, same→eq, member, any, Nodup, arith, Bool-cases,
}
use trimum.Base.Dict.{insert, lookup-insert}
use trimum.Workflow.Graph.{
  NodeStatus, skipped, EdgeCondition, EdgeDefinition, WorkflowDefinition, Env, ids, edges_to,
  predecessors, find_node, auto_run_of, Runtimes, is_ok, is_fail, status_of, is_done, all_done,
  is_node_ready, evaluate_condition,
}
use trimum.Workflow.Engine.{
  State, set_status, check_edges, run_handler, status_after, execute_single_node,
}

abbrev pub is_terminal : NodeStatus → Bool
is_terminal st = is_ok st || is_fail st

abbrev pub is_on_fail : EdgeCondition → Bool
is_on_fail EdgeCondition.on_fail = true
is_on_fail _ = false

-- Some edge into the node waits for a failure.
abbrev pub waits_for_failure : WorkflowDefinition → Text → Bool
waits_for_failure w n = any (λ x. is_on_fail x.condition) (edges_to n w.edges)

-- The keys of the dictionary of statuses.
abbrev pub keys : Runtimes → List Text
keys d = map (λ p. p.0) d

-- Of the nodes in the queue and of those that ran: no node is in both or twice, their predecessors
-- are done, a node that ran has a terminal status, and a node whose handler was started has no edge
-- that waits for a failure.
pub record Inv (w : WorkflowDefinition) (s : State) : Type 0 where
  pub keyed : keys s.runtimes ≡ ids w
  pub apart : (n : Text) → member n s.ready ≡ true → member n s.done_nodes ≡ false
  pub once : Nodup s.ready
  pub ready_ids : (n : Text) → member n s.ready ≡ true → member n (ids w) ≡ true
  pub ready_ready : (n : Text) → member n s.ready ≡ true → is_node_ready w n s.runtimes ≡ true
  pub ran_ready : (n : Text) → member n s.done_nodes ≡ true → is_node_ready w n s.runtimes ≡ true
  pub ran_terminal :
      (n : Text) → member n s.done_nodes ≡ true → is_terminal (status_of n s.runtimes) ≡ true
  pub done_ran : (n : Text) → is_done n s.runtimes ≡ true → member n s.done_nodes ≡ true
  pub started_ran : (n : Text) → member n s.started ≡ true → member n s.done_nodes ≡ true
  pub started_once : Nodup s.started
  pub started_calm : (n : Text) → member n s.started ≡ true → waits_for_failure w n ≡ false

pub status_of-insert :
    (m n : Text) (st : NodeStatus) (d : Runtimes)
    → status_of m (insert n st d) ≡ (if same m n then st else status_of m d)
status_of-insert m n st d = ground (arith, lookup-insert m n st d)

-- A node that is not done may change its status: what was done stays done.
all_done-insert :
    (n : Text) (st : NodeStatus) (d : Runtimes) (ps : List Text)
    → is_done n d ≡ false
    → all_done ps d ≡ true
    → all_done ps (insert n st d) ≡ true
unfolding all_done
all_done-insert n st d [] f h = refl
all_done-insert n st d (p ∷ ps) f h = ground (
  arith,
  status_of-insert p n st d,
  same_iff p n,
  all_done-insert n st d ps f,
  ap (λ t. is_done t d),
)

pub ready-insert :
    (w : WorkflowDefinition) (m n : Text) (st : NodeStatus) (d : Runtimes)
    → is_done n d ≡ false
    → is_node_ready w m d ≡ true
    → is_node_ready w m (insert n st d) ≡ true
unfolding is_node_ready
ready-insert w m n st d f h = all_done-insert n st d (predecessors w m) f h

-- A node that is there keeps its place.
pub keys-insert :
    (n : Text) (st : NodeStatus) (d : Runtimes)
    → member n (keys d) ≡ true
    → keys (insert n st d) ≡ keys d
unfolding insert
keys-insert n st [] h = cc
keys-insert n st (p ∷ d) h = elim (Bool-cases (same n p.0)) [
  | inl q ↦ rw q (ap (λ t. t ∷ keys d) (same→eq n p.0 q))
  | inr q ↦ rw q (ap (λ ks. p.0 ∷ ks) (keys-insert n st d (rw q at h)))
]

pub not_done :
    (w : WorkflowDefinition) (s : State) (n : Text)
    → Inv w s
    → member n s.done_nodes ≡ false
    → is_done n s.runtimes ≡ false
not_done w s n inv h = ground (arith, inv.done_ran n)

-- The condition of an edge that waits for a failure does not hold of a node that is done.
check_edges-calm :
    (e : Env) (turn : ℕ) (xs : List EdgeDefinition) (d : Runtimes)
    → all_done (map (λ x. x.source) xs) d ≡ true
    → check_edges e turn xs d ≡ none
    → any (λ x. is_on_fail x.condition) xs ≡ false
unfolding check_edges all_done evaluate_condition
check_edges-calm e turn [] d h g = refl
check_edges-calm e turn (x ∷ xs) d h g = ground (arith, check_edges-calm e turn xs d)

pub ready_calm :
    (e : Env) (turn : ℕ) (w : WorkflowDefinition) (n : Text) (d : Runtimes)
    → is_node_ready w n d ≡ true
    → check_edges e turn (edges_to n w.edges) d ≡ none
    → waits_for_failure w n ≡ false
unfolding is_node_ready
ready_calm e turn w n d h g = check_edges-calm e turn (edges_to n w.edges) d h g

-- What `_execute_single_node` does: the node gets a terminal status, and if its handler was
-- started, all conditions of the edges into it held.
pub data Executed (e : Env) (w : WorkflowDefinition) (n : Text) (s : State) : State → Type 0 where
  given_up : (st : NodeStatus) → is_terminal st ≡ true → Executed e w n s (set_status n st s)
  ran :
      (st : NodeStatus)
      → is_terminal st ≡ true
      → check_edges e s.turn (edges_to n w.edges) s.runtimes ≡ none
      → Executed e w n s (record (set_status n st s) { started = n ∷ s.started })

check_edges-terminal :
    (e : Env) (turn : ℕ) (xs : List EdgeDefinition) (d : Runtimes) (st : NodeStatus)
    → check_edges e turn xs d ≡ some st
    → is_terminal st ≡ true
unfolding check_edges
check_edges-terminal e turn [] d st h = cc
check_edges-terminal e turn (x ∷ xs) d st h = ground (arith, check_edges-terminal e turn xs d st)

pub execute-Executed :
    (e : Env) (w : WorkflowDefinition) (n : Text) (s : State)
    → Executed e w n s (execute_single_node e w n s)
unfolding execute_single_node
execute-Executed e w n s = elim (Bool-cases (e.cancel_node s.turn n)) [
  | inl h ↦ rw h (given_up NodeStatus.cancelled refl)
  | inr h ↦ elim (Bool-cases (e.from_event && not (auto_run_of (find_node n w.nodes)))) [
    | inl g ↦ rw (h, g) (given_up skipped refl)
    | inr g ↦ rw (h, g) (go (check_edges e s.turn (edges_to n w.edges) s.runtimes) refl)
  ]
]
  where
    go :
        (o : Option NodeStatus)
        → check_edges e s.turn (edges_to n w.edges) s.runtimes ≡ o
        → Executed e w n s (run_handler e n s o)
    go (some st) q =
        given_up st (check_edges-terminal e s.turn (edges_to n w.edges) s.runtimes st q)
    go none q = ran (status_after (e.outcome s.turn n)) (ground arith) q
