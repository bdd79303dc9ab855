-- ===== src/Workflow/Dag.antt =====
-- `validate_dag` and `topological_sort` of src/trimum_core/workflow_engine.py (lines 258 to 325).
-- Both run the same loop (Kahn's), one on the queue as it is and one on the queue sorted; the
-- count in `in_degree` is a ℕ, since the loop never lowers a zero.
use trimum.Base.{
  text_leb, ℕ, zero, suc, ◌+◌, ◌-◌, ◌==◌, not, Option, none, some, List, [], ◌∷◌, ◌++◌, reverse,
  length, if◌then◌else◌, Text, same, member,
}
use trimum.Base.Dict.{Dict, lookup, insert}
use trimum.Workflow.Graph.{EdgeDefinition, WorkflowDefinition, ids}

pub data DagError : Type 0 where
  missing_source missing_target circular_dependency : DagError

-- The first loop of `validate_dag`.
unfoldable pub check_endpoints : List Text → List EdgeDefinition → Option DagError
check_endpoints known [] = none
check_endpoints known (x ∷ xs) =
    if not (member x.source known)
    then some DagError.missing_source
    else if not (member x.target known)
    then some DagError.missing_target
    else check_endpoints known xs

abbrev or_zero : Option ℕ → ℕ
or_zero none = 0
or_zero (some n) = n

-- `in_degree[n]`
abbrev pub degree : Text → Dict ℕ → ℕ
degree n d = or_zero (lookup n d)

-- `{n.id: 0 for n in workflow.nodes}`
unfoldable pub zeros : List Text → Dict ℕ → Dict ℕ
zeros [] d = d
zeros (n ∷ ns) d = zeros ns (insert n 0 d)

-- `in_degree[edge.target] += 1`, for each edge.
unfoldable pub count_edges : List EdgeDefinition → Dict ℕ → Dict ℕ
count_edges [] d = d
count_edges (x ∷ xs) d = count_edges xs (insert x.target (degree x.target d + 1) d)

-- `adj[n]`
unfoldable pub targets_of : Text → List EdgeDefinition → List Text
targets_of n [] = []
targets_of n (x ∷ xs) = if same x.source n then x.target ∷ targets_of n xs else targets_of n xs

-- `[nid for nid, deg in in_degree.items() if deg == 0]`
unfoldable pub free_nodes : Dict ℕ → List Text
free_nodes [] = []
free_nodes (p ∷ d) = if p.1 == 0 then p.0 ∷ free_nodes d else free_nodes d

-- The inner loop: what it makes of `in_degree` and of the queue.
unfoldable pub lower_all : List Text → Dict ℕ → List Text → Dict ℕ × List Text
lower_all [] d q = (d, q)
lower_all (m ∷ ms) d q =
    let k = degree m d - 1 in lower_all ms (insert m k d) (if k == 0 then q ++ m ∷ [] else q)

abbrev pub on_popped :
    Option (List Text) → (Text → List Text → Option (List Text)) → List Text → Option (List Text)
on_popped stop k [] = stop
on_popped stop k (n ∷ rest) = k n rest

-- The outer loop; the nodes that were popped stand newest first, and `none` is for want of fuel.
unfoldable pub kahn :
    ℕ
    → (List Text → List Text)
    → List EdgeDefinition
    → Dict ℕ
    → List Text
    → List Text
    → Option (List Text)
unfolding lower_all targets_of
kahn zero arrange es d q popped = on_popped (some popped) (λ n rest. none) (arrange q)
kahn (suc f) arrange es d q popped =
    on_popped (some popped)
      (λ n rest.
        let (d', q') = lower_all (targets_of n es) d rest in kahn f arrange es d' q' (n ∷ popped))
      (arrange q)

unfoldable pub in_degrees : WorkflowDefinition → Dict ℕ
unfolding zeros count_edges
in_degrees w = count_edges w.edges (zeros (ids w) [])

-- Both loops, with a unit of fuel for each node.
unfoldable pub visit : (List Text → List Text) → WorkflowDefinition → Option (List Text)
unfolding kahn in_degrees free_nodes
visit arrange w =
    kahn (length (ids w)) arrange w.edges (in_degrees w) (free_nodes (in_degrees w)) []

abbrev visited_all : WorkflowDefinition → Option (List Text) → Option DagError
visited_all w none = some DagError.circular_dependency
visited_all w (some popped) =
    if length popped == length (ids w) then none else some DagError.circular_dependency

abbrev or_else_error : Option DagError → Option DagError → Option DagError
or_else_error (some e) o = some e
or_else_error none o = o

unfoldable pub validate_dag : WorkflowDefinition → Option DagError
unfolding check_endpoints visit
validate_dag w = or_else_error (check_endpoints (ids w) w.edges) (visited_all w (visit (λ q. q) w))

unfoldable pub insert_sorted : Text → List Text → List Text
unfolding text_leb
insert_sorted n [] = n ∷ []
insert_sorted n (m ∷ ms) = if text_leb n m then n ∷ m ∷ ms else m ∷ insert_sorted n ms

-- `queue.sort()`
unfoldable pub sort : List Text → List Text
unfolding insert_sorted
sort [] = []
sort (n ∷ ns) = insert_sorted n (sort ns)

abbrev in_order : Option (List Text) → List Text
in_order none = []
in_order (some popped) = reverse popped

unfoldable pub topological_sort : WorkflowDefinition → List Text
unfolding visit sort
topological_sort w = in_order (visit sort w)
