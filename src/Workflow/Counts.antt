-- ===== src/Workflow/Counts.antt =====
-- The counts in `in_degree` of `validate_dag` and `topological_sort`
-- (src/trimum_core/workflow_engine.py, lines 258 to 325): what the inner loop makes of them and of
-- the queue.
use trimum.Base.{
  ℕ, suc, ◌+◌, ◌≡◌, ◌∙◌, refl, ap, inl, inr, ◌==◌, true, false, not, ◌&&◌, ◌||◌, List, [], ◌∷◌,
  if◌then◌else◌, Text, same, same_iff, member, Nodup, arith, Bool-cases, ==_iff, All, some,
}
use trimum.Base.Dict.{Dict, lookup, insert, contains, lookup-insert, Distinct, insert-Distinct}
use trimum.Workflow.Graph.{EdgeDefinition, WorkflowDefinition, ids}
use trimum.Workflow.Dag.{degree, zeros, count_edges, targets_of, free_nodes, in_degrees}

-- The edges into `m` whose source was not popped.
abbrev pub incoming : Text → List Text → List EdgeDefinition → ℕ
incoming m popped [] = 0
incoming m popped (x ∷ xs) =
    if same x.target m && not (member x.source popped)
    then suc (incoming m popped xs)
    else incoming m popped xs

abbrev pub occurrences : Text → List Text → ℕ
occurrences m [] = 0
occurrences m (n ∷ ns) = if same n m then suc (occurrences m ns) else occurrences m ns

pub degree-insert :
    (m n : Text) (k : ℕ) (d : Dict ℕ)
    → degree m (insert n k d) ≡ (if same m n then k else degree m d)
degree-insert m n k d = ground (arith, lookup-insert m n k d)

pub incoming_pop :
    (m n : Text) (popped : List Text) (es : List EdgeDefinition)
    → member n popped ≡ false
    → incoming m popped es ≡ incoming m (n ∷ popped) es + occurrences m (targets_of n es)
unfolding targets_of
incoming_pop m n popped [] h = refl
incoming_pop m n popped (x ∷ xs) h =
    ground (arith, incoming_pop m n popped xs h, same_iff x.source n, ap (λ t. member t popped))

degree-zeros : (m : Text) (ns : List Text) (d : Dict ℕ) → degree m d ≡ 0 → degree m (zeros ns d) ≡ 0
unfolding zeros
degree-zeros m [] d h = h
degree-zeros m (n ∷ ns) d h =
    degree-zeros m ns (insert n 0 d) (ground (arith, degree-insert m n 0 d))

degree-count_edges :
    (m : Text) (es : List EdgeDefinition) (d : Dict ℕ)
    → degree m (count_edges es d) ≡ degree m d + incoming m [] es
unfolding count_edges
degree-count_edges m [] d = omega arith
degree-count_edges m (x ∷ xs) d = ground (
  arith,
  degree-count_edges m xs (insert x.target (degree x.target d + 1) d),
  degree-insert m x.target (degree x.target d + 1) d,
  same_iff m x.target,
  same_iff x.target m,
  ap (λ t. degree t d),
)

pub degree-in_degrees :
    (m : Text) (w : WorkflowDefinition) → degree m (in_degrees w) ≡ incoming m [] w.edges
unfolding in_degrees lookup
degree-in_degrees m w =
    let z : degree m (zeros (ids w) []) ≡ 0 = degree-zeros m (ids w) [] refl in
    ground (arith, degree-count_edges m w.edges (zeros (ids w) []))

-- The dictionary has a count for each node and for no other text.
contains-zeros :
    (m : Text) (ns : List Text) (d : Dict ℕ)
    → contains m (zeros ns d) ≡ (contains m d || member m ns)
unfolding zeros
contains-zeros m [] d = ground arith
contains-zeros m (n ∷ ns) d =
    ground
      (arith, contains-zeros m ns (insert n 0 d), lookup-insert m n 0 d, same_iff m n, same_iff n m)

contains-count_edges :
    (m : Text) (es : List EdgeDefinition) (d : Dict ℕ)
    → All (λ x. contains x.target d ≡ true) es
    → contains m (count_edges es d) ≡ contains m d
unfolding count_edges
contains-count_edges m [] d h = refl
contains-count_edges m (x ∷ xs) d h =
    let d' = insert x.target (degree x.target d + 1) d in
    let there : contains m d' ≡ contains m d = ground (
      arith,
      lookup-insert m x.target (degree x.target d + 1) d,
      same_iff m x.target,
      h.0,
      ap (λ t. contains t d),
    ) in
    contains-count_edges m xs d' (all_kept xs h.1) ∙ there
  where
    all_kept :
        (ys : List EdgeDefinition)
        → All (λ y. contains y.target d ≡ true) ys
        → All (λ y. contains y.target (insert x.target (degree x.target d + 1) d) ≡ true) ys
    all_kept [] g = tt
    all_kept (y ∷ ys) g = (
      ground (arith, lookup-insert y.target x.target (degree x.target d + 1) d, g.0),
      all_kept ys g.1,
    )

zeros-Distinct : (ns : List Text) (d : Dict ℕ) → Distinct d → Distinct (zeros ns d)
unfolding zeros
zeros-Distinct [] d h = h
zeros-Distinct (n ∷ ns) d h = zeros-Distinct ns (insert n 0 d) (insert-Distinct n 0 d h)

count_edges-Distinct :
    (es : List EdgeDefinition) (d : Dict ℕ) → Distinct d → Distinct (count_edges es d)
unfolding count_edges
count_edges-Distinct [] d h = h
count_edges-Distinct (x ∷ xs) d h =
    count_edges-Distinct xs (insert x.target (degree x.target d + 1) d)
      (insert-Distinct x.target (degree x.target d + 1) d h)

free_nodes-lookup :
    (m : Text) (d : Dict ℕ) → Distinct d → member m (free_nodes d) ≡ true → lookup m d ≡ some 0
unfolding free_nodes lookup
free_nodes-lookup m [] h g = cc
free_nodes-lookup m (p ∷ d) h g =
    ground
      (arith, free_nodes-lookup m d h.1, same_iff m p.0, ==_iff p.1 0, h.0, ap (λ t. lookup t d))

lookup-free_nodes : (m : Text) (d : Dict ℕ) → lookup m d ≡ some 0 → member m (free_nodes d) ≡ true
unfolding free_nodes lookup
lookup-free_nodes m [] g = cc
lookup-free_nodes m (p ∷ d) g = ground (arith, lookup-free_nodes m d)

free_nodes-Nodup : (d : Dict ℕ) → Distinct d → Nodup (free_nodes d)
unfolding free_nodes
free_nodes-Nodup [] h = tt
free_nodes-Nodup (p ∷ d) h = elim (Bool-cases (p.1 == 0)) [
  | inl q ↦ rw q (absent, free_nodes-Nodup d h.1)
  | inr q ↦ rw q (free_nodes-Nodup d h.1)
]
  where
    absent : member p.0 (free_nodes d) ≡ false
    absent = ground (arith, free_nodes-lookup p.0 d h.1, h.0)

-- The targets of the edges are nodes.
abbrev pub Targeted : WorkflowDefinition → Type 0
Targeted w = All (λ x. member x.target (ids w) ≡ true) w.edges

contains-in_degrees :
    (m : Text) (w : WorkflowDefinition) → Targeted w → contains m (in_degrees w) ≡ member m (ids w)
unfolding in_degrees lookup
contains-in_degrees m w h =
    contains-count_edges m w.edges (zeros (ids w) []) (there w.edges h)
    ∙ contains-zeros m (ids w) []
  where
    there :
        (xs : List EdgeDefinition)
        → All (λ x. member x.target (ids w) ≡ true) xs
        → All (λ x. contains x.target (zeros (ids w) []) ≡ true) xs
    there [] g = tt
    there (x ∷ xs) g = (contains-zeros x.target (ids w) [] ∙ g.0, there xs g.1)

in_degrees-Distinct : (w : WorkflowDefinition) → Distinct (in_degrees w)
unfolding in_degrees
in_degrees-Distinct w =
    count_edges-Distinct w.edges (zeros (ids w) []) (zeros-Distinct (ids w) [] tt)

-- The queue that the loop starts with.
pub free_known :
    (m : Text) (w : WorkflowDefinition)
    → Targeted w
    → member m (free_nodes (in_degrees w)) ≡ true
    → member m (ids w) ≡ true
free_known m w h g =
    ground (
      arith,
      contains-in_degrees m w h,
      free_nodes-lookup m (in_degrees w) (in_degrees-Distinct w) g,
    )

pub free_spent :
    (m : Text) (w : WorkflowDefinition)
    → member m (free_nodes (in_degrees w)) ≡ true
    → degree m (in_degrees w) ≡ 0
free_spent m w g = ground (arith, free_nodes-lookup m (in_degrees w) (in_degrees-Distinct w) g)

pub free_there :
    (m : Text) (w : WorkflowDefinition)
    → Targeted w
    → member m (ids w) ≡ true
    → degree m (in_degrees w) ≡ 0
    → member m (free_nodes (in_degrees w)) ≡ true
free_there m w h k z = ground (arith, contains-in_degrees m w h, lookup-free_nodes m (in_degrees w))

pub free_once : (w : WorkflowDefinition) → Nodup (free_nodes (in_degrees w))
free_once w = free_nodes-Nodup (in_degrees w) (in_degrees-Distinct w)
