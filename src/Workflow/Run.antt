-- ===== src/Workflow/Run.antt =====
-- `run` of src/trimum_core/workflow_engine.py (lines 353 to 530) on a workflow without parallel nodes.
use trimum.Base.{
  ◌≡◌, refl, ap, ◌⊎◌, inl, inr, true, false, ◌||◌, List, [], ◌∷◌, Text, same_iff, member, Nodup,
  arith, none, some, Option-cases, length,
}
use trimum.Workflow.Graph.{
  WorkflowDefinition, Env, ids, predecessors, is_done, all_done, is_node_ready,
}
use trimum.Workflow.Dag.{DagError, validate_dag, topological_sort}
use trimum.Workflow.Engine.{
  State, queue_roots, fresh_state, loop, Ended, execute_dag, refused, result, result_of, run,
  is_empty,
}
use trimum.Workflow.Invariant.{Inv, waits_for_failure}
use trimum.Workflow.Measure.{left_nil}
use trimum.Workflow.Turns.{Closed, Sequential, Ends, ends, loop-Ends}
use trimum.Workflow.Accepts.{topological_sort-IsTopological}
use trimum.Workflow.Roots.{roots-Inv}

-- What holds of the state that the loop leaves.
pub record Finished (e : Env) (w : WorkflowDefinition) (s : State) : Type 0 where
  pub inv : Inv w s
  pub closed : Closed w s
  pub stopped : is_empty s.ready || e.cancel_turn s.turn ≡ true

execute_finishes :
    (e : Env) (w : WorkflowDefinition)
    → Sequential w
    → validate_dag w ≡ none
    → (s : State) × (execute_dag (length (ids w)) e w (topological_sort w) ≡ result s)
      × Finished e w s
unfolding execute_dag
execute_finishes e w seq valid =
    let order = topological_sort w in
    let s = queue_roots w order (fresh_state w) in
    let (inv, closed, none_ran) = roots-Inv w order (topological_sort-IsTopological w valid) in
    let f = length (ids w) in
    out (loop f e w s)
      (loop-Ends f e w s seq inv closed (rw (none_ran, left_nil (ids w)) (omega arith)))
  where
    out : (o : Ended) → Ends e w o → (s : State) × (result_of o ≡ result s) × Finished e w s
    out o (ends s inv closed stopped) =
        (s, refl, record { inv = inv; closed = closed; stopped = stopped })

-- On a workflow without parallel nodes `run` either raises the error of `validate_dag`, or comes to
-- its end: the loop neither pops from an empty queue nor takes more turns than there are nodes.
pub run_ends :
    (e : Env) (w : WorkflowDefinition)
    → Sequential w
    → ((d : DagError) × (validate_dag w ≡ some d) × (run e w ≡ refused d))
      ⊎ ((validate_dag w ≡ none) × (s : State) × (run e w ≡ result s))
unfolding run
run_ends e w seq = elim (Option-cases (validate_dag w)) [
  | inl h ↦ let (s, q, f) = execute_finishes e w seq h in inr (h, s, rw (h, q) refl)
  | inr (d, h) ↦ inl (d, h, rw h refl)
]

pub accepted :
    (e : Env) (w : WorkflowDefinition) (s : State) → run e w ≡ result s → validate_dag w ≡ none
unfolding run
accepted e w s h = elim (Option-cases (validate_dag w)) [
  | inl v ↦ v
  | inr (d, v) ↦ let h' = rw v at h in absurd cc
]

pub result-Finished :
    (e : Env) (w : WorkflowDefinition) (s : State)
    → Sequential w
    → run e w ≡ result s
    → Finished e w s
unfolding run
result-Finished e w s seq h =
    let v = accepted e w s h in
    let (t, q, f) = execute_finishes e w seq v in
    let same_state : t ≡ s = let h' = rw (v, q) at h in cc in rw same_state at f

done_at :
    (w : WorkflowDefinition) (s : State) (n p : Text)
    → is_node_ready w n s.runtimes ≡ true
    → member p (predecessors w n) ≡ true
    → is_done p s.runtimes ≡ true
unfolding is_node_ready all_done
done_at w s n p h g = each (predecessors w n) h g
  where
    each :
        (ps : List Text)
        → all_done ps s.runtimes ≡ true
        → member p ps ≡ true
        → is_done p s.runtimes ≡ true
    each [] h g = cc
    each (q ∷ ps) h g = ground (arith, each ps, same_iff p q, ap (λ t. is_done t s.runtimes))

-- When a workflow without parallel nodes comes to its end, no handler was started twice.
pub run-Nodup :
    (e : Env) (w : WorkflowDefinition) (s : State)
    → Sequential w
    → run e w ≡ result s
    → Nodup s.started
run-Nodup e w s seq h = (result-Finished e w s seq h).inv.started_once

-- When a workflow without parallel nodes comes to its end, the predecessors of a node whose handler
-- was started are completed or skipped.
pub started_behind :
    (e : Env) (w : WorkflowDefinition) (s : State) (n p : Text)
    → Sequential w
    → run e w ≡ result s
    → member n s.started ≡ true
    → member p (predecessors w n) ≡ true
    → is_done p s.runtimes ≡ true
started_behind e w s n p seq h k g =
    let inv = (result-Finished e w s seq h).inv in
    done_at w s n p (inv.ran_ready n (inv.started_ran n k)) g

-- When a workflow without parallel nodes comes to its end, the handler of a node with an incoming
-- edge of condition `on_fail` was not started.
pub on_fail_never_runs :
    (e : Env) (w : WorkflowDefinition) (s : State) (n : Text)
    → Sequential w
    → run e w ≡ result s
    → waits_for_failure w n ≡ true
    → member n s.started ≡ false
on_fail_never_runs e w s n seq h g =
    let calm = (result-Finished e w s seq h).inv.started_calm n in ground (arith, calm)
