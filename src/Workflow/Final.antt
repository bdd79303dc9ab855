-- ===== src/Workflow/Final.antt =====
-- The final status of `_execute_dag` of src/trimum_core/workflow_engine.py (lines 510 to 530), in a
-- workflow without parallel nodes.
use trimum.Base.{
  All, ◌≡◌, ◌∙◌, refl, ap, sym, ◌⊎◌, inl, inr, Bool, true, false, not, ◌||◌, List, [], ◌∷◌, ◌++◌,
  Text, same_iff, member, any, Nodup, arith, Bool-cases, append_assoc,
}
use trimum.Base.Dict.{lookup}
use trimum.Workflow.Graph.{
  NodeStatus, WorkflowStatus, WorkflowDefinition, Env, ids, predecessors, Runtimes, is_ok, is_fail,
  status_of, is_done, all_done, is_node_ready,
}
use trimum.Workflow.Dag.{topological_sort}
use trimum.Workflow.Engine.{State, result, run, statuses, is_blocked, final_status, is_empty}
use trimum.Workflow.Invariant.{keys}
use trimum.Workflow.Turns.{Sequential}
use trimum.Workflow.Texts.{member-append}
use trimum.Workflow.Toposort.{IsTopological}
use trimum.Workflow.Accepts.{topological_sort-IsTopological, validate_dag-Nodup}
use trimum.Workflow.Run.{Finished, accepted, result-Finished}

-- Some value of the dictionary is the status of a node, and the status of a node is a value.
any_status :
    (f : NodeStatus → Bool) (d : Runtimes)
    → Nodup (keys d)
    → any f (statuses d) ≡ true
    → (m : Text) × (member m (keys d) ≡ true) × (f (status_of m d) ≡ true)
unfolding lookup
any_status f [] h g = cc
any_status f (p ∷ d) h g = elim (Bool-cases (f p.1)) [
  | inl q ↦ (p.0, ground (arith, same_iff p.0 p.0), ground (arith, q, same_iff p.0 p.0))
  | inr q ↦
      let (m, k, r) = any_status f d h.1 (ground arith) in
      (m, ground arith, ground (arith, r, k, h.0, same_iff m p.0, ap (λ t. member t (keys d))))
]

no_status :
    (f : NodeStatus → Bool) (m : Text) (d : Runtimes)
    → any f (statuses d) ≡ false
    → member m (keys d) ≡ true
    → f (status_of m d) ≡ false
unfolding lookup
no_status f m [] h g = cc
no_status f m (p ∷ d) h g = ground (arith, no_status f m d)

all_done_intro :
    (ps : List Text) (d : Runtimes)
    → ((p : Text) → member p ps ≡ true → is_done p d ≡ true)
    → all_done ps d ≡ true
unfolding all_done
all_done_intro [] d h = refl
all_done_intro (p ∷ ps) d h =
    let rest = all_done_intro ps d (λ q g. h q (ground arith)) in
    ground (arith, h p (ground (arith, same_iff p p)))

-- When the queue is empty and no node failed, a node with done predecessors is done.
step_done :
    (e : Env) (w : WorkflowDefinition) (s : State) (n : Text)
    → Finished e w s
    → e.cancel_turn s.turn ≡ false
    → any is_fail (statuses s.runtimes) ≡ false
    → member n (ids w) ≡ true
    → ((p : Text) → member p (predecessors w n) ≡ true → is_done p s.runtimes ≡ true)
    → is_done n s.runtimes ≡ true
unfolding is_node_ready
step_done e w s n f c g k h =
    let is_ready : is_node_ready w n s.runtimes ≡ true =
      all_done_intro (predecessors w n) s.runtimes h in
    let in_keys : member n (keys s.runtimes) ≡ true = ap (member n) f.inv.keyed ∙ k in
    let calm = no_status is_fail n s.runtimes g in_keys in
    let empty = no_member s.ready n (ground (arith, f.stopped)) in
    ground (arith, f.closed n k, is_ready, empty, f.inv.ran_terminal n, calm)
  where
    no_member : (q : List Text) (n : Text) → is_empty q ≡ true → member n q ≡ false
    no_member [] n h = refl
    no_member (x ∷ q) n h = cc

all_in_order :
    (e : Env) (w : WorkflowDefinition) (s : State) (order before rest : List Text)
    → Finished e w s
    → e.cancel_turn s.turn ≡ false
    → any is_fail (statuses s.runtimes) ≡ false
    → IsTopological w order
    → order ≡ before ++ rest
    → ((p : Text) → member p before ≡ true → is_done p s.runtimes ≡ true)
    → (m : Text) → member m rest ≡ true
    → is_done m s.runtimes ≡ true
all_in_order e w s order before [] f c g t q h m k = cc
all_in_order e w s order before (n ∷ rest) f c g t q h m k =
    let known : member n (ids w) ≡ true =
      sym (t.all n)
      ∙ ap (member n) q
      ∙ ground (arith, member-append n before (n ∷ rest), same_iff n n) in
    let first = step_done e w s n f c g known (λ p r. h p (t.behind before rest n q p r)) in
    let more =
      all_in_order e w s order (before ++ n ∷ []) rest f c g t
        (q ∙ sym (append_assoc before (n ∷ []) rest))
        (λ p r. ground (
          arith,
          h p,
          first,
          member-append p before (n ∷ []),
          same_iff p n,
          ap (λ t. is_done t s.runtimes),
        )) in
    ground (arith, more m, first, same_iff m n, ap (λ t. is_done t s.runtimes))

member-All :
    {P : Text → Type 0} (ms : List Text) → ((m : Text) → member m ms ≡ true → P m) → All P ms
member-All [] h = tt
member-All (m ∷ ms) h =
    (h m (ground (arith, same_iff m m)), member-All ms (λ k g. h k (ground arith)))

no_blocked : (l : List NodeStatus) → any is_fail l ≡ false → any is_blocked l ≡ false
no_blocked [] h = refl
no_blocked (x ∷ l) h = ground (arith, no_blocked l)

no_open :
    (d : Runtimes)
    → Nodup (keys d)
    → ((m : Text) → member m (keys d) ≡ true → is_done m d ≡ true)
    → any (λ st. not (is_ok st || is_fail st)) (statuses d) ≡ false
no_open d once h = elim (Bool-cases (any (λ st. not (is_ok st || is_fail st)) (statuses d))) [
  | inl q ↦
      let (m, k, r) = any_status (λ st. not (is_ok st || is_fail st)) d once q in
      let ok = h m k in absurd (ground arith)
  | inr q ↦ q
]

-- A workflow without parallel nodes that comes to its end without a cancellation is completed, and
-- then every node is completed or skipped, or it is failed or blocked, and then some node failed, timed
-- out, was cancelled or is blocked; it is not left as running.
pub final_status_cases :
    (e : Env) (w : WorkflowDefinition) (s : State)
    → Sequential w
    → run e w ≡ result s
    → e.cancel_turn s.turn ≡ false
    → ((final_status e s ≡ WorkflowStatus.completed)
        × All (λ m. is_done m s.runtimes ≡ true) (ids w))
      ⊎ (((final_status e s ≡ WorkflowStatus.failed) ⊎ (final_status e s ≡ WorkflowStatus.blocked))
          × (m : Text) × (member m (ids w) ≡ true)
          × (is_fail (status_of m s.runtimes) ≡ true))
unfolding final_status
final_status_cases e w s seq h c =
    let f = result-Finished e w s seq h in
    let v = accepted e w s h in
    let once : Nodup (keys s.runtimes) = rw f.inv.keyed (validate_dag-Nodup w v) in
    elim (Bool-cases (any is_fail (statuses s.runtimes))) [
      | inl q ↦
          let (m, k, r) = any_status is_fail s.runtimes once q in
          inr (ground (arith, c, q), m, sym (ap (member m) f.inv.keyed) ∙ k, r)
      | inr q ↦
          let t = topological_sort-IsTopological w v in
          let done = λ (m : Text) (k : member m (ids w) ≡ true).
            all_in_order e w s (topological_sort w) [] (topological_sort w) f c q t refl
              (λ p r. absurd cc) m (t.all m ∙ k) in
          let free = no_blocked (statuses s.runtimes) q in
          let closed =
            no_open s.runtimes once (λ m k. done m (sym (ap (member m) f.inv.keyed) ∙ k)) in
          inl (ground (arith, c, q, free, closed), member-All (ids w) done)
    ]
