-- ===== src/Workflow/Roots.antt =====
-- The queue that `_execute_dag` of src/trimum_core/workflow_engine.py (lines 424 to 432) starts with.
use trimum.Base.{
  member_snoc, Nodup-snoc, ◌≡◌, ◌∙◌, refl, ap, sym, true, false, List, [], ◌∷◌, ◌++◌, map, Text,
  same_iff, member, Nodup, arith, Bool-cases, inl, inr,
}
use trimum.Base.Dict.{lookup, insert}
use trimum.Workflow.Graph.{
  NodeDefinition, created, queued, WorkflowDefinition, ids, predecessors, Runtimes, is_done,
  all_done, is_node_ready,
}
use trimum.Workflow.Engine.{State, is_empty, queue_roots, fresh_state}
use trimum.Workflow.Invariant.{Inv, keys, keys-insert, status_of-insert}
use trimum.Workflow.Turns.{Closed}
use trimum.Workflow.Toposort.{IsTopological}

record Queueing (w : WorkflowDefinition) (s : State) : Type 0 where
  keyed : keys s.runtimes ≡ ids w
  undone : (m : Text) → is_done m s.runtimes ≡ false
  none_ran : s.done_nodes ≡ []
  none_started : s.started ≡ []
  once : Nodup s.ready
  known : (m : Text) → member m s.ready ≡ true → member m (ids w) ≡ true
  roots : (m : Text) → member m s.ready ≡ true → predecessors w m ≡ []

-- The state with the root `n` at the end of the queue.
abbrev queue_root : Text → State → State
queue_root n s = record s { runtimes = insert n queued s.runtimes; ready = s.ready ++ n ∷ [] }

queue_root-Queueing :
    (w : WorkflowDefinition) (n : Text) (s : State)
    → Queueing w s
    → predecessors w n ≡ []
    → member n (ids w) ≡ true
    → member n s.ready ≡ false
    → Queueing w (queue_root n s)
queue_root-Queueing w n s q root known fresh = record {
  keyed = keys-insert n queued s.runtimes (ap (member n) q.keyed ∙ known) ∙ q.keyed;
  undone = λ m. ground (arith, q.undone m, status_of-insert m n queued s.runtimes);
  none_ran = q.none_ran;
  none_started = q.none_started;
  once = Nodup-snoc n s.ready q.once fresh;
  known = λ m h. ground (arith, q.known m, member_snoc m n s.ready, same_iff m n);
  roots =
      λ m h. ground (arith, q.roots m, member_snoc m n s.ready, same_iff m n, ap (predecessors w));
}

record Queued (w : WorkflowDefinition) (ns : List Text) (s t : State) : Type 0 where
  queueing : Queueing w t
  kept : (m : Text) → member m s.ready ≡ true → member m t.ready ≡ true
  put : (m : Text) → member m ns ≡ true → predecessors w m ≡ [] → member m t.ready ≡ true

queue_roots-Queued :
    (w : WorkflowDefinition) (ns : List Text) (s : State)
    → Queueing w s
    → Nodup ns
    → ((m : Text) → member m ns ≡ true → member m (ids w) ≡ true)
    → ((m : Text) → member m ns ≡ true → member m s.ready ≡ false)
    → Queued w ns s (queue_roots w ns s)
unfolding queue_roots
queue_roots-Queued w [] s q once known fresh = record {
  queueing = q;
  kept = λ m h. h;
  put = λ m h r. absurd cc;
}
queue_roots-Queued w (n ∷ ns) s q once known fresh =
    elim (Bool-cases (is_empty (predecessors w n))) [
      | inl r ↦
          let t = queue_root n s in
          let root : predecessors w n ≡ [] = is_empty-nil (predecessors w n) r in
          let k = queue_root-Queueing w n s q root (known n here) (fresh n here) in
          let rest =
            queue_roots-Queued w ns t k once.1 (λ m h. known m (ground arith))
              (λ m h. ground (
                arith,
                fresh m,
                member_snoc m n s.ready,
                same_iff m n,
                once.0,
                ap (λ t. member t ns),
              )) in
          rw r record {
            queueing = rest.queueing;
            kept = λ m h. rest.kept m (ground (arith, member_snoc m n s.ready));
            put = λ m h g.
                ground (arith, rest.put m, g, rest.kept m, member_snoc m n s.ready, same_iff m n);
          }
      | inr r ↦
          let rest =
            queue_roots-Queued w ns s q once.1 (λ m h. known m (ground arith))
              (λ m h. fresh m (ground arith)) in
          rw r record {
            queueing = rest.queueing;
            kept = rest.kept;
            put = λ m h g. ground (
              arith,
              rest.put m,
              g,
              ap is_empty g,
              r,
              same_iff m n,
              ap (λ t. is_empty (predecessors w t)),
            );
          }
    ]
  where
    here : member n (n ∷ ns) ≡ true
    here = ground (arith, same_iff n n)

    is_empty-nil : (l : List Text) → is_empty l ≡ true → l ≡ []
    is_empty-nil [] h = refl
    is_empty-nil (x ∷ l) h = cc

fresh_keys :
    (ds : List NodeDefinition)
    → keys (map (λ n. (n, created)) (map (λ d. d.id) ds)) ≡ map (λ d. d.id) ds
fresh_keys [] = refl
fresh_keys (d ∷ ds) = ap (λ l. d.id ∷ l) (fresh_keys ds)

fresh_undone : (m : Text) (ns : List Text) → is_done m (map (λ n. (n, created)) ns) ≡ false
unfolding lookup
fresh_undone m [] = refl
fresh_undone m (n ∷ ns) = ground (arith, fresh_undone m ns)

fresh-Queueing : (w : WorkflowDefinition) → Queueing w (fresh_state w)
fresh-Queueing w = record {
  keyed = fresh_keys w.nodes;
  undone = λ m. fresh_undone m (ids w);
  none_ran = refl;
  none_started = refl;
  once = tt;
  known = λ m h. absurd cc;
  roots = λ m h. absurd cc;
}

-- Without predecessors a node is ready, and while no node is done no other node is.
root_ready :
    (w : WorkflowDefinition) (m : Text) (d : Runtimes)
    → predecessors w m ≡ []
    → is_node_ready w m d ≡ true
unfolding is_node_ready all_done
root_ready w m d h = rw h refl

ready_root :
    (w : WorkflowDefinition) (m : Text) (d : Runtimes)
    → ((k : Text) → is_done k d ≡ false)
    → is_node_ready w m d ≡ true
    → predecessors w m ≡ []
unfolding is_node_ready all_done
ready_root w m d u h = none_done (predecessors w m) h
  where
    none_done : (ps : List Text) → all_done ps d ≡ true → ps ≡ []
    none_done [] g = refl
    none_done (p ∷ ps) g = ground (arith, u p)

-- What holds of the queue of the roots.
pub roots-Inv :
    (w : WorkflowDefinition) (order : List Text)
    → IsTopological w order
    → (let s = queue_roots w order (fresh_state w) in Inv w s × Closed w s × (s.done_nodes ≡ []))
roots-Inv w order t =
    let s = queue_roots w order (fresh_state w) in
    let queue =
      queue_roots-Queued w order (fresh_state w) (fresh-Queueing w) t.once
        (λ m h. sym (t.all m) ∙ h) (λ m h. refl) in
    let q = queue.queueing in
    let nothing_ran : (m : Text) → member m s.done_nodes ≡ false = λ m. ap (member m) q.none_ran in
    let nothing_started : (m : Text) → member m s.started ≡ false =
      λ m. ap (member m) q.none_started in
    (
      record {
        keyed = q.keyed;
        apart = λ m h. nothing_ran m;
        once = q.once;
        ready_ids = q.known;
        ready_ready = λ m h. root_ready w m s.runtimes (q.roots m h);
        ran_ready = λ m h. ground (arith, nothing_ran m);
        ran_terminal = λ m h. ground (arith, nothing_ran m);
        done_ran = λ m h. ground (arith, q.undone m);
        started_ran = λ m h. ground (arith, nothing_started m);
        started_once = rw q.none_started tt;
        started_calm = λ m h. ground (arith, nothing_started m);
      },
      λ m k. elim (Bool-cases (is_node_ready w m s.runtimes)) [
        | inl r ↦ ground (arith, queue.put m (t.all m ∙ k) (ready_root w m s.runtimes q.undone r))
        | inr r ↦ ground arith
      ],
      q.none_ran,
    )
