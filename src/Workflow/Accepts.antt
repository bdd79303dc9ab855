-- ===== src/Workflow/Accepts.antt =====
-- What `validate_dag` and `topological_sort` of src/trimum_core/workflow_engine.py (lines 258 to 325)
-- promise.
use trimum.Base.{
  ◌≡◌, ◌↔◌, ◌∙◌, refl, true, List, [], ◌∷◌, Text, member, Nodup, arith, ==_iff, All, none, some,
  length,
}
use trimum.Workflow.Graph.{EdgeDefinition, WorkflowDefinition, ids}
use trimum.Workflow.Dag.{check_endpoints, visit, validate_dag, topological_sort, sort}
use trimum.Workflow.Counts.{Targeted}
use trimum.Workflow.Visits.{Visited, visit-Visited}
use trimum.Workflow.Texts.{sort-Arranges, same-Arranges, left-length, short_once}
use trimum.Workflow.Toposort.{
  IsTopological, all_popped, same-Visited, in_some_order, reverse-IsTopological,
}

-- The ends of the edges are nodes.
abbrev pub Joined : WorkflowDefinition → Type 0
Joined w = All (λ x. (member x.source (ids w) ≡ true) × (member x.target (ids w) ≡ true)) w.edges

check_endpoints-Joined :
    (ks : List Text) (es : List EdgeDefinition)
    → (check_endpoints ks es ≡ none)
      ↔ All (λ x. (member x.source ks ≡ true) × (member x.target ks ≡ true)) es
unfolding check_endpoints
check_endpoints-Joined ks [] = (λ h. tt, λ h. refl)
check_endpoints-Joined ks (x ∷ es) =
    let rest = check_endpoints-Joined ks es in
    (
      λ h.
          let heads : (member x.source ks ≡ true) × (member x.target ks ≡ true) = ground arith in
          (heads, rest.0 (ground arith)),
      λ h. let tail = rest.1 h.1 in ground (arith, h.0),
    )

Joined-targets : (w : WorkflowDefinition) → Joined w → Targeted w
Joined-targets w h = targets w.edges h
  where
    targets :
        (es : List EdgeDefinition)
        → All (λ x. (member x.source (ids w) ≡ true) × (member x.target (ids w) ≡ true)) es
        → All (λ x. member x.target (ids w) ≡ true) es
    targets [] h = tt
    targets (x ∷ es) h = (h.0.1, targets es h.1)

-- `validate_dag` passes when the ends of the edges are nodes and all nodes are popped.
validate_all :
    (w : WorkflowDefinition) (ns : List Text)
    → visit (λ q. q) w ≡ some ns
    → (validate_dag w ≡ none) ↔ (Joined w × (length ns ≡ length (ids w)))
unfolding validate_dag
validate_all w ns e =
    let joined = check_endpoints-Joined (ids w) w.edges in
    rw e (
      λ h. (joined.0 (ground arith), ground (arith, ==_iff (length ns) (length (ids w)))),
      λ h. let c = joined.1 h.0 in ground (arith, c, h.1, ==_iff (length ns) (length (ids w))),
    )

validate_dag-Joined : (w : WorkflowDefinition) → validate_dag w ≡ none → Joined w
unfolding validate_dag
validate_dag-Joined w h = (check_endpoints-Joined (ids w) w.edges).0 (ground arith)

-- All nodes were popped, and as often as they are nodes.
accepted_ids :
    (w : WorkflowDefinition)
    → validate_dag w ≡ none
    → (ns : List Text) × Visited w ns × (length ns ≡ length (ids w))
accepted_ids w h =
    let joined = validate_dag-Joined w h in
    let (ns, e, v) = visit-Visited (λ q. q) w same-Arranges (Joined-targets w joined) in
    (ns, v, ((validate_all w ns e).0 h).1)

pub validate_dag-Nodup : (w : WorkflowDefinition) → validate_dag w ≡ none → Nodup (ids w)
validate_dag-Nodup w h =
    let (ns, v, l) = accepted_ids w h in short_once (ids w) ns v.once v.known (omega (arith, l))

-- The order that `topological_sort` gives of a workflow that `validate_dag` accepts is topological.
pub topological_sort-IsTopological :
    (w : WorkflowDefinition) → validate_dag w ≡ none → IsTopological w (topological_sort w)
unfolding topological_sort
topological_sort-IsTopological w h =
    let tgt = Joined-targets w (validate_dag-Joined w h) in
    let (ns, v, l) = accepted_ids w h in
    let (ks, e, u) = visit-Visited sort w sort-Arranges tgt in
    rw e (
      reverse-IsTopological w ks u
        (λ m k. same-Visited w ns ks v.ordered v.known u m (all_popped w ns v l m k)))

-- `validate_dag` accepts the workflows whose edges join nodes, in which no identifier stands twice
-- and for which there is a topological order.
pub validate_dag_iff :
    (w : WorkflowDefinition)
    → (validate_dag w ≡ none)
      ↔ (Joined w × Nodup (ids w) × (order : List Text) × IsTopological w order)
validate_dag_iff w = (
  λ h. (
    validate_dag-Joined w h,
    validate_dag-Nodup w h,
    topological_sort w,
    topological_sort-IsTopological w h,
  ),
  back,
)
  where
    back :
        Joined w × Nodup (ids w) × (order : List Text) × IsTopological w order
        → validate_dag w ≡ none
    back (joined, once, order, t) =
        let (ns, e, v) = visit-Visited (λ q. q) w same-Arranges (Joined-targets w joined) in
        let all_in : (m : Text) → member m (ids w) ≡ true → member m ns ≡ true =
          λ m k. in_some_order w order ns [] order t v refl (λ j q. absurd cc) m (t.all m ∙ k) in
        (validate_all w ns e).1 (
          joined,
          omega (arith, left-length (ids w) ns v.once v.known, left-length ns (ids w) once all_in),
        )
