-- ===== src/Workflow/Steps.antt =====
-- The turns of `_execute_dag` of src/trimum_core/workflow_engine.py keep the invariant.
use trimum.Base.{
  ◌≡◌, ap, ◌∙◌, ◌⊎◌, inl, inr, true, false, List, ◌∷◌, if◌then◌else◌, Text, same, same_iff, member,
  Nodup, arith,
}
use trimum.Base.Dict.{insert}
use trimum.Workflow.Graph.{
  NodeStatus, dispatching, WorkflowDefinition, Runtimes, status_of, is_done, is_node_ready,
}
use trimum.Workflow.Engine.{State}
use trimum.Workflow.Invariant.{
  is_terminal, waits_for_failure, Inv, status_of-insert, ready-insert, keys-insert, not_done,
}

-- The state behind the run of the node that was popped.
abbrev pub settled : Text → NodeStatus → List Text → List Text → State → State
settled n st rest log s = record s {
  runtimes = insert n st (insert n dispatching s.runtimes);
  ready = rest;
  done_nodes = n ∷ s.done_nodes;
  started = log;
}

status_of-settled :
    (m n : Text) (st : NodeStatus) (d : Runtimes)
    → status_of m (insert n st (insert n dispatching d)) ≡ (if same m n then st else status_of m d)
status_of-settled m n st d =
    ground
      (arith, status_of-insert m n st (insert n dispatching d), status_of-insert m n dispatching d)

ready_settled :
    (w : WorkflowDefinition) (m n : Text) (st : NodeStatus) (d : Runtimes)
    → is_done n d ≡ false
    → is_node_ready w m d ≡ true
    → is_node_ready w m (insert n st (insert n dispatching d)) ≡ true
ready_settled w m n st d f h =
    let dispatched : is_done n (insert n dispatching d) ≡ false =
      ground (arith, status_of-insert n n dispatching d, same_iff n n) in
    ready-insert w m n st (insert n dispatching d) dispatched (ready-insert w m n dispatching d f h)

pub settled-Inv :
    (w : WorkflowDefinition) (n : Text) (st : NodeStatus) (rest log : List Text) (s : State)
    → Inv w s
    → s.ready ≡ n ∷ rest
    → is_terminal st ≡ true
    → (log ≡ s.started) ⊎ ((log ≡ n ∷ s.started) × (waits_for_failure w n ≡ false))
    → Inv w (settled n st rest log s)
settled-Inv w n st rest log s inv e term logged =
    let here : member n s.ready ≡ true = rw e (ground (arith, same_iff n n)) in
    let apart_n = inv.apart n here in
    let fresh : is_done n s.runtimes ≡ false = not_done w s n inv apart_n in
    let once : (member n rest ≡ false) × Nodup rest = rw e at inv.once in
    record {
      keyed =
          let k1 = keys-insert n dispatching s.runtimes (rw inv.keyed (inv.ready_ids n here)) in
          let k2 =
            keys-insert n st (insert n dispatching s.runtimes)
              (rw (k1, inv.keyed) (inv.ready_ids n here)) in
          k2 ∙ k1 ∙ inv.keyed;
      apart = λ m h. ground (arith, inv.apart m, same_iff m n, once);
      once = once.1;
      ready_ids = λ m h. ground (arith, inv.ready_ids m, same_iff m n);
      ready_ready =
          λ m h. ready_settled w m n st s.runtimes fresh (inv.ready_ready m (rw e (ground arith)));
      ran_ready = λ m h. ready_settled w m n st s.runtimes fresh (
          ground (
            arith,
            inv.ran_ready m,
            same_iff m n,
            inv.ready_ready n here,
            ap (λ t. is_node_ready w t s.runtimes),
          ));
      ran_terminal = λ m h. ground (arith, inv.ran_terminal m, status_of-settled m n st s.runtimes);
      done_ran = λ m h. ground (arith, inv.done_ran m, status_of-settled m n st s.runtimes);
      started_ran = λ m h. logged_ran m logged h;
      started_once = logged_once logged;
      started_calm = λ m h. logged_calm m logged h;
    }
  where
    before : member n s.started ≡ false
    before =
        let apart_n = inv.apart n (rw e (ground (arith, same_iff n n))) in
        ground (arith, inv.started_ran n)

    Logged : Type 0
    Logged = (log ≡ s.started) ⊎ ((log ≡ n ∷ s.started) × (waits_for_failure w n ≡ false))

    logged_ran : (m : Text) → Logged → member m log ≡ true → member m (n ∷ s.done_nodes) ≡ true
    logged_ran m (inl q) h =
        let h' : member m s.started ≡ true = rw q at h in ground (arith, inv.started_ran m)
    logged_ran m (inr (q, calm)) h =
        let h' : member m (n ∷ s.started) ≡ true = rw q at h in ground (arith, inv.started_ran m)

    logged_once : Logged → Nodup log
    logged_once (inl q) = rw q inv.started_once
    logged_once (inr (q, calm)) = rw q (before, inv.started_once)

    logged_calm : (m : Text) → Logged → member m log ≡ true → waits_for_failure w m ≡ false
    logged_calm m (inl q) h =
        let h' : member m s.started ≡ true = rw q at h in inv.started_calm m h'
    logged_calm m (inr (q, calm)) h =
        let h' : member m (n ∷ s.started) ≡ true = rw q at h in
        ground (arith, inv.started_calm m, same_iff m n, ap (waits_for_failure w))
