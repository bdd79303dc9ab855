-- ===== src/Workflow/Turns.antt =====
-- The loop of `_execute_dag` of src/trimum_core/workflow_engine.py (lines 434 to 508) in a workflow
-- without parallel nodes.
use trimum.Base.{
  ℕ, zero, suc, ◌≤◌, ◌<◌, ◌≡◌, refl, ◌⊎◌, inl, inr, true, false, ◌||◌, some, List, [], ◌∷◌, Text,
  same_iff, member, arith, Bool-cases,
}
use trimum.Workflow.Measure.{left, left_lt}
use trimum.Workflow.Graph.{
  NodeStatus, dispatching, WorkflowDefinition, Env, ids, is_parallel, is_node_ready,
}
use trimum.Workflow.Engine.{
  State, set_status, execute_single_node, finish, run_one, add_ready_successors, parallel_group,
  turn_on, turn, is_empty, next_turn, Ended, ended, loop,
}
use trimum.Workflow.Invariant.{
  Inv, is_terminal, waits_for_failure, ready-insert, not_done, ready_calm, Executed, given_up, ran,
  execute-Executed,
}
use trimum.Workflow.Steps.{settled, settled-Inv}
use trimum.Workflow.Queue.{covered, successors-Inv, successors-covered, successors-done}

-- Every node that is ready is done or in the queue.
abbrev pub Closed : WorkflowDefinition → State → Type 0
Closed w s = (m : Text) → member m (ids w) ≡ true → covered w m s ≡ true

abbrev pub Sequential : WorkflowDefinition → Type 0
Sequential w = (n : Text) → is_parallel w n ≡ false

-- The turn that runs the node at the head of the queue.
record Ran (w : WorkflowDefinition) (n : Text) (s t : State) : Type 0 where
  inv : Inv w t
  closed : Closed w t
  done : t.done_nodes ≡ n ∷ s.done_nodes

finish_settled :
    (w : WorkflowDefinition) (n : Text) (st : NodeStatus) (rest log : List Text) (s : State)
    → Inv w s
    → s.ready ≡ n ∷ rest
    → is_terminal st ≡ true
    → (log ≡ s.started) ⊎ ((log ≡ n ∷ s.started) × (waits_for_failure w n ≡ false))
    → Ran w n s (add_ready_successors w (ids w) (settled n st rest log s))
finish_settled w n st rest log s inv q term logged =
    let t = settled n st rest log s in
    record {
      inv = successors-Inv w (ids w) t (settled-Inv w n st rest log s inv q term logged) (λ m h. h);
      closed = λ m h. successors-covered w m (ids w) t (ground arith);
      done = successors-done w (ids w) t;
    }

run_one-Ran :
    (e : Env) (w : WorkflowDefinition) (n : Text) (rest : List Text) (s : State)
    → Inv w s
    → s.ready ≡ n ∷ rest
    → Ran w n s (run_one e w n (record s { ready = rest }))
unfolding run_one finish
run_one-Ran e w n rest s inv q =
    rw (inv.ready_ready n here)
      (done_with (execute_single_node e w n sent) (execute-Executed e w n sent))
  where
    here : member n s.ready ≡ true
    here = rw q (ground (arith, same_iff n n))

    sent : State
    sent = set_status n dispatching (record s { ready = rest })

    sent_ready : is_node_ready w n sent.runtimes ≡ true
    sent_ready =
        ready-insert w n n dispatching s.runtimes (not_done w s n inv (inv.apart n here))
          (inv.ready_ready n here)

    done_with :
        (t : State)
        → Executed e w n sent t
        → Ran w n s (add_ready_successors w (ids w) (record t { done_nodes = n ∷ t.done_nodes }))
    done_with t (given_up st term) = finish_settled w n st rest s.started s inv q term (inl refl)
    done_with t (ran st term c) =
        finish_settled w n st rest (n ∷ s.started) s inv q term
          (inr (refl, ready_calm e s.turn w n sent.runtimes sent_ready c))

later : (w : WorkflowDefinition) (s : State) → Inv w s → Inv w (next_turn s)
later w s inv = record {
  keyed = inv.keyed;
  apart = inv.apart;
  once = inv.once;
  ready_ids = inv.ready_ids;
  ready_ready = inv.ready_ready;
  ran_ready = inv.ran_ready;
  ran_terminal = inv.ran_terminal;
  done_ran = inv.done_ran;
  started_ran = inv.started_ran;
  started_once = inv.started_once;
  started_calm = inv.started_calm;
}

-- The loop ends regularly, with an empty queue or on a cancellation.
pub data Ends (e : Env) (w : WorkflowDefinition) : Ended → Type 0 where
  ends :
      (s : State)
      → Inv w s
      → Closed w s
      → is_empty s.ready || e.cancel_turn s.turn ≡ true
      → Ends e w (ended s)

turn_sequential :
    (e : Env) (w : WorkflowDefinition) (n : Text) (rest : List Text) (s : State)
    → is_parallel w n ≡ false
    → s.ready ≡ n ∷ rest
    → turn e w s ≡ some (run_one e w n (record s { ready = rest }))
unfolding turn turn_on parallel_group
turn_sequential e w n rest s h q = rw (q, h) refl

-- A turn on a queue that is not empty.
record Stepped (e : Env) (w : WorkflowDefinition) (s : State) : Type 0 where
  to : State
  is_turn : turn e w s ≡ some to
  inv : Inv w (next_turn to)
  closed : Closed w to
  less : left (ids w) to.done_nodes < left (ids w) s.done_nodes

turn-Stepped :
    (e : Env) (w : WorkflowDefinition) (s : State)
    → Sequential w
    → Inv w s
    → is_empty s.ready ≡ false
    → Stepped e w s
turn-Stepped e w s seq inv h = on s.ready refl
  where
    on : (q : List Text) → s.ready ≡ q → Stepped e w s
    on [] q = let g : true ≡ false = rw q at h in cc
    on (n ∷ rest) q =
        let here : member n s.ready ≡ true = rw q (ground (arith, same_iff n n)) in
        let t = run_one e w n (record s { ready = rest }) in
        let step = run_one-Ran e w n rest s inv q in
        record {
          to = t;
          is_turn = turn_sequential e w n rest s (seq n) q;
          inv = later w t step.inv;
          closed = step.closed;
          less =
              rw step.done
                (left_lt n (ids w) s.done_nodes (inv.ready_ids n here) (inv.apart n here));
        }

-- With fuel for each node that did not run yet, the loop ends, and what held before holds behind it.
pub loop-Ends :
    (f : ℕ) (e : Env) (w : WorkflowDefinition) (s : State)
    → Sequential w
    → Inv w s
    → Closed w s
    → left (ids w) s.done_nodes ≤ f
    → Ends e w (loop f e w s)
unfolding loop
loop-Ends zero e w s seq inv closed enough =
    elim (Bool-cases (is_empty s.ready || e.cancel_turn s.turn)) [
      | inl h ↦ rw h (ends s inv closed h)
      | inr h ↦
          let step = turn-Stepped e w s seq inv (ground arith) in absurd (omega (arith, step.less))
    ]
loop-Ends (suc f) e w s seq inv closed enough =
    elim (Bool-cases (is_empty s.ready || e.cancel_turn s.turn)) [
      | inl h ↦ rw h (ends s inv closed h)
      | inr h ↦
          let step = turn-Stepped e w s seq inv (ground arith) in
          rw (h, step.is_turn)
            (loop-Ends f e w (next_turn step.to) seq step.inv step.closed
              (omega (arith, step.less)))
    ]
