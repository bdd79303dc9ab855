-- ===== src/Workflow/Queue.antt =====
-- What `_add_ready_successors` of src/trimum_core/workflow_engine.py (lines 894 to 920) does to the
-- queue: it keeps the invariant, and every node that is ready is done or in the queue behind it.
use trimum.Base.{
  member_snoc, Nodup-snoc, ◌≡◌, ◌∙◌, refl, ap, inl, inr, Bool, true, false, not, ◌||◌, List, [],
  ◌∷◌, ◌++◌, if◌then◌else◌, Text, same, same_iff, member, arith, Bool-cases,
}
use trimum.Base.Dict.{insert}
use trimum.Workflow.Graph.{
  queued, WorkflowDefinition, ids, predecessors, Runtimes, status_of, is_done, all_done,
  is_node_ready,
}
use trimum.Workflow.Engine.{State, add_ready, add_ready_successors, is_created}
use trimum.Workflow.Invariant.{is_terminal, keys, keys-insert, Inv, status_of-insert}

-- A ready node is done or in the queue.
abbrev pub covered : WorkflowDefinition → Text → State → Bool
covered w m s = not (is_node_ready w m s.runtimes) || member m s.done_nodes || member m s.ready

-- The state with `m` at the end of the queue.
abbrev queued_state : Text → State → State
queued_state m s = record s {
  runtimes = if is_created (status_of m s.runtimes) then insert m queued s.runtimes else s.runtimes;
  ready = s.ready ++ m ∷ [];
}

is_done-queued :
    (k m : Text) (s : State) → is_done k (queued_state m s).runtimes ≡ is_done k s.runtimes
is_done-queued k m s =
    ground (
      arith,
      status_of-insert k m queued s.runtimes,
      same_iff k m,
      ap (λ t. status_of t s.runtimes),
    )

all_done_ext :
    (ps : List Text) (d d' : Runtimes)
    → ((k : Text) → is_done k d' ≡ is_done k d)
    → all_done ps d' ≡ all_done ps d
unfolding all_done
all_done_ext [] d d' h = refl
all_done_ext (p ∷ ps) d d' h = ground (arith, h p, all_done_ext ps d d' h)

ready-queued :
    (w : WorkflowDefinition) (k m : Text) (s : State)
    → is_node_ready w k (queued_state m s).runtimes ≡ is_node_ready w k s.runtimes
unfolding is_node_ready
ready-queued w k m s =
    all_done_ext (predecessors w k) s.runtimes (queued_state m s).runtimes
      (λ j. is_done-queued j m s)

-- Only a fresh node changes its status.
terminal-queued :
    (k m : Text) (s : State)
    → is_terminal (status_of k s.runtimes) ≡ true
    → is_terminal (status_of k (queued_state m s).runtimes) ≡ true
terminal-queued k m s h =
    ground (
      arith,
      status_of-insert k m queued s.runtimes,
      same_iff k m,
      ap (λ t. status_of t s.runtimes),
    )

keys-queued :
    (m : Text) (s : State)
    → member m (keys s.runtimes) ≡ true
    → keys (queued_state m s).runtimes ≡ keys s.runtimes
keys-queued m s h = ground (arith, keys-insert m queued s.runtimes h)

queued-Inv :
    (w : WorkflowDefinition) (m : Text) (s : State)
    → Inv w s
    → member m (ids w) ≡ true
    → member m s.done_nodes ≡ false
    → member m s.ready ≡ false
    → is_node_ready w m s.runtimes ≡ true
    → Inv w (queued_state m s)
queued-Inv w m s inv known undone unqueued opened = record {
  keyed = keys-queued m s (rw inv.keyed known) ∙ inv.keyed;
  apart = λ n h. ground (arith, inv.apart n, member_snoc n m s.ready, same_iff n m);
  once = Nodup-snoc m s.ready inv.once unqueued;
  ready_ids = λ n h. ground (arith, inv.ready_ids n, member_snoc n m s.ready, same_iff n m);
  ready_ready = λ n h.
      ready-queued w n m s
      ∙ ground (
        arith,
        inv.ready_ready n,
        member_snoc n m s.ready,
        same_iff n m,
        ap (λ t. is_node_ready w t s.runtimes),
      );
  ran_ready = λ n h. ready-queued w n m s ∙ inv.ran_ready n h;
  ran_terminal = λ n h. terminal-queued n m s (inv.ran_terminal n h);
  done_ran = λ n h. inv.done_ran n (rw (is_done-queued n m s) at h);
  started_ran = inv.started_ran;
  started_once = inv.started_once;
  started_calm = inv.started_calm;
}

-- What `add_ready` makes of a state: nothing, if the node is done, queued or not ready.
data Added (w : WorkflowDefinition) (m : Text) (s : State) : State → Type 0 where
  as_before : covered w m s ≡ true → Added w m s s
  put :
      member m s.done_nodes ≡ false
      → member m s.ready ≡ false
      → is_node_ready w m s.runtimes ≡ true
      → Added w m s (queued_state m s)

add_ready-Added : (w : WorkflowDefinition) (m : Text) (s : State) → Added w m s (add_ready w m s)
unfolding add_ready
add_ready-Added w m s = elim (Bool-cases (member m s.done_nodes || member m s.ready)) [
  | inl h ↦ rw h (as_before (ground arith))
  | inr h ↦ elim (Bool-cases (is_node_ready w m s.runtimes)) [
    | inl g ↦ rw (h, g) (put (ground arith) (ground arith) g)
    | inr g ↦ rw (h, g) (as_before (ground arith))
  ]
]

add_ready-Inv :
    (w : WorkflowDefinition) (m : Text) (s : State)
    → Inv w s
    → member m (ids w) ≡ true
    → Inv w (add_ready w m s)
add_ready-Inv w m s inv known = kept (add_ready w m s) (add_ready-Added w m s)
  where
    kept : (t : State) → Added w m s t → Inv w t
    kept t (as_before c) = inv
    kept t (put u v r) = queued-Inv w m s inv known u v r

covered_queued :
    (w : WorkflowDefinition) (k m : Text) (s : State)
    → covered w k s ≡ true
    → covered w k (queued_state m s) ≡ true
covered_queued w k m s c = ground (arith, ready-queued w k m s, member_snoc k m s.ready)

add_ready-covered :
    (w : WorkflowDefinition) (k m : Text) (s : State)
    → covered w k s || same k m ≡ true
    → covered w k (add_ready w m s) ≡ true
add_ready-covered w k m s c = kept (add_ready w m s) (add_ready-Added w m s)
  where
    kept : (t : State) → Added w m s t → covered w k t ≡ true
    kept t (as_before g) = ground (arith, same_iff k m, ap (λ t. covered w t s))
    kept t (put u v r) = ground (arith, ready-queued w k m s, member_snoc k m s.ready, same_iff k m)

same_done :
    (w : WorkflowDefinition) (m : Text) (s : State) → (add_ready w m s).done_nodes ≡ s.done_nodes
same_done w m s = kept (add_ready w m s) (add_ready-Added w m s)
  where
    kept : (t : State) → Added w m s t → t.done_nodes ≡ s.done_nodes
    kept t (as_before g) = refl
    kept t (put u v r) = refl

pub successors-Inv :
    (w : WorkflowDefinition) (ms : List Text) (s : State)
    → Inv w s
    → ((m : Text) → member m ms ≡ true → member m (ids w) ≡ true)
    → Inv w (add_ready_successors w ms s)
unfolding add_ready_successors
successors-Inv w [] s inv known = inv
successors-Inv w (m ∷ ms) s inv known =
    successors-Inv w ms (add_ready w m s)
      (add_ready-Inv w m s inv (known m (ground (arith, same_iff m m))))
      (λ k h. known k (ground arith))

pub successors-covered :
    (w : WorkflowDefinition) (k : Text) (ms : List Text) (s : State)
    → covered w k s || member k ms ≡ true
    → covered w k (add_ready_successors w ms s) ≡ true
unfolding add_ready_successors
successors-covered w k [] s c = ground arith
successors-covered w k (m ∷ ms) s c = elim (Bool-cases (member k ms)) [
  | inl h ↦ successors-covered w k ms (add_ready w m s) (ground arith)
  | inr h ↦ successors-covered w k ms (add_ready w m s) (ground (arith, add_ready-covered w k m s))
]

pub successors-done :
    (w : WorkflowDefinition) (ms : List Text) (s : State)
    → (add_ready_successors w ms s).done_nodes ≡ s.done_nodes
unfolding add_ready_successors
successors-done w [] s = refl
successors-done w (m ∷ ms) s = successors-done w ms (add_ready w m s) ∙ same_done w m s
