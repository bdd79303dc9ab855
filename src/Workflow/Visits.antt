-- ===== src/Workflow/Visits.antt =====
-- The nodes that the loop of `validate_dag` and `topological_sort` of
-- src/trimum_core/workflow_engine.py (lines 258 to 325) pops.
use trimum.Base.{
  ℕ, zero, suc, ◌+◌, ◌≤◌, ◌<◌, ◌≡◌, ◌∙◌, refl, ap, true, false, ◌||◌, List, [], ◌∷◌, Text, same_iff,
  member, Nodup, arith, All, Option, none, some, length,
}
use trimum.Base.Dict.{Dict}
use trimum.Workflow.Graph.{EdgeDefinition, WorkflowDefinition, ids}
use trimum.Workflow.Dag.{
  degree, targets_of, free_nodes, lower_all, in_degrees, kahn, visit, on_popped,
}
use trimum.Workflow.Counts.{
  incoming, incoming_pop, occurrences, degree-in_degrees, Targeted, free_known, free_spent,
  free_there, free_once,
}
use trimum.Workflow.Kahn.{Lowering, Lowered, lower_all-Lowered}
use trimum.Workflow.Measure.{left, left_lt, left_nil}

-- Newest first: when a node was popped, no edge came from a node that was not popped before.
abbrev pub Ordered : WorkflowDefinition → List Text → Type 0
Ordered w [] = Unit
Ordered w (n ∷ ns) = (incoming n ns w.edges ≡ 0) × Ordered w ns

-- `arrange` keeps the queue's elements.
pub record Arranges (arrange : List Text → List Text) : Type 0 where
  pub same_members : (m : Text) (q : List Text) → member m (arrange q) ≡ member m q
  pub keeps_once : (q : List Text) → Nodup q → Nodup (arrange q)

record Visiting (w : WorkflowDefinition) (d : Dict ℕ) (q popped : List Text) : Type 0 where
  counted : (m : Text) → degree m d ≡ incoming m popped w.edges
  spent : (m : Text) → member m q ≡ true → degree m d ≡ 0
  once : Nodup q
  known : (m : Text) → member m q ≡ true → member m (ids w) ≡ true
  apart : (m : Text) → member m q ≡ true → member m popped ≡ false
  full :
      (m : Text) → member m (ids w) ≡ true → degree m d ≡ 0 → member m popped || member m q ≡ true
  popped_once : Nodup popped
  popped_known : (m : Text) → member m popped ≡ true → member m (ids w) ≡ true
  popped_spent : (m : Text) → member m popped ≡ true → degree m d ≡ 0
  ordered : Ordered w popped

-- The nodes that were popped when the queue is empty.
pub record Visited (w : WorkflowDefinition) (popped : List Text) : Type 0 where
  pub once : Nodup popped
  pub known : (m : Text) → member m popped ≡ true → member m (ids w) ≡ true
  pub full :
      (m : Text) → member m (ids w) ≡ true → incoming m popped w.edges ≡ 0 → member m popped ≡ true
  pub ordered : Ordered w popped

target_known :
    (m n : Text) (ks : List Text) (es : List EdgeDefinition)
    → All (λ x. member x.target ks ≡ true) es
    → 0 < occurrences m (targets_of n es)
    → member m ks ≡ true
unfolding targets_of
target_known m n ks [] h g = absurd (omega arith)
target_known m n ks (x ∷ xs) h g =
    ground (arith, target_known m n ks xs h.1, h.0, same_iff x.target m, ap (λ t. member t ks))

-- A node is popped and its targets are lowered.
pop-Visiting :
    (w : WorkflowDefinition) (n : Text) (rest : List Text) (d : Dict ℕ) (q popped : List Text)
    → Targeted w
    → Visiting w d q popped
    → ((m : Text) → member m (n ∷ rest) ≡ member m q)
    → Nodup (n ∷ rest)
    → (d' : Dict ℕ) → (q' : List Text)
    → (Lowering (targets_of n w.edges) d rest → Lowered (targets_of n w.edges) d rest d' q')
    → Visiting w d' q' (n ∷ popped)
pop-Visiting w n rest d q popped tgt v sm once d' q' lower =
    let n_new = v.apart n (ground (arith, sm n, same_iff n n)) in
    let l = lower record {
      enough = λ m. ground (arith, v.counted m, incoming_pop m n popped w.edges n_new);
      spent = λ m h. v.spent m (ground (arith, sm m));
      once = once.1;
    } in
    let targets : (m : Text)
        → degree m d ≡ incoming m (n ∷ popped) w.edges + occurrences m (targets_of n w.edges) =
      λ m. v.counted m ∙ incoming_pop m n popped w.edges n_new in
    record {
      counted = λ m. ground (arith, targets m, l.lowered m);
      spent = l.spent;
      once = l.once;
      known =
          λ m h. ground (arith, l.only m h, v.known m, sm m, target_known m n (ids w) w.edges tgt);
      apart = λ m h. ground (
        arith,
        l.only m h,
        v.apart m,
        sm m,
        l.lowered m,
        v.popped_spent m,
        once.0,
        same_iff m n,
        ap (λ t. member t rest),
        v.spent n,
        sm n,
      );
      full = λ m k z. ground (arith, l.freed m, l.kept m, v.full m, sm m, l.lowered m);
      popped_once = (n_new, v.popped_once);
      popped_known = λ m h. ground (
        arith,
        v.popped_known m,
        v.known n,
        sm n,
        same_iff n n,
        same_iff m n,
        ap (λ t. member t (ids w)),
      );
      popped_spent = λ m h. ground (
        arith,
        v.popped_spent m,
        l.lowered m,
        v.spent n,
        sm n,
        same_iff n n,
        same_iff m n,
        ap (λ t. degree t d),
      );
      ordered = (ground (arith, v.counted n, v.spent n, sm n, same_iff n n), v.ordered);
    }

abbrev pub Visits : WorkflowDefinition → Option (List Text) → Type 0
Visits w o = (ns : List Text) × (o ≡ some ns) × Visited w ns

-- With an empty queue the loop stops; else it goes on with an arranged queue.
on_queue :
    (w : WorkflowDefinition) (arrange : List Text → List Text) (d : Dict ℕ) (q popped : List Text)
    (k : Text → List Text → Option (List Text))
    → Arranges arrange
    → Visiting w d q popped
    → ((n : Text)
        → (rest : List Text) → ((m : Text) → member m (n ∷ rest) ≡ member m q)
        → Nodup (n ∷ rest)
        → Visits w (k n rest))
    → Visits w (on_popped (some popped) k (arrange q))
on_queue w arrange d q popped k a v go =
    on (arrange q) (λ m. a.same_members m q) (a.keeps_once q v.once)
  where
    on :
        (p : List Text)
        → ((m : Text) → member m p ≡ member m q)
        → Nodup p
        → Visits w (on_popped (some popped) k p)
    on [] sm once = (
      popped,
      refl,
      record {
        once = v.popped_once;
        known = v.popped_known;
        full = λ m h z. ground (arith, v.full m h, v.counted m, sm m);
        ordered = v.ordered;
      },
    )
    on (n ∷ rest) sm once = go n rest sm once

pop_left :
    (w : WorkflowDefinition) (n : Text) (rest : List Text) (d : Dict ℕ) (q popped : List Text)
    → Visiting w d q popped
    → ((m : Text) → member m (n ∷ rest) ≡ member m q)
    → left (ids w) (n ∷ popped) < left (ids w) popped
pop_left w n rest d q popped v sm =
    let here : member n q ≡ true = ground (arith, sm n, same_iff n n) in
    left_lt n (ids w) popped (v.known n here) (v.apart n here)

-- The loop ends with fuel for each node that was not popped.
kahn-Visits :
    (f : ℕ) (arrange : List Text → List Text) (w : WorkflowDefinition) (d : Dict ℕ)
    (q popped : List Text)
    → Arranges arrange
    → Targeted w
    → Visiting w d q popped
    → left (ids w) popped ≤ f
    → Visits w (kahn f arrange w.edges d q popped)
unfolding kahn
kahn-Visits zero arrange w d q popped a tgt v enough =
    on_queue w arrange d q popped (λ n rest. none) a v
      (λ n rest sm once. absurd (omega (arith, pop_left w n rest d q popped v sm)))
kahn-Visits (suc f) arrange w d q popped a tgt v enough =
    on_queue w arrange d q popped _ a v (λ n rest sm once.
      let ts = targets_of n w.edges in
      let (d', q') = lower_all ts d rest in
      kahn-Visits f arrange w d' q' (n ∷ popped) a tgt
        (pop-Visiting w n rest d q popped tgt v sm once d' q' (lower_all-Lowered ts d rest))
        (omega (arith, pop_left w n rest d q popped v sm)))

pub visit-Visited :
    (arrange : List Text → List Text) (w : WorkflowDefinition)
    → Arranges arrange
    → Targeted w
    → Visits w (visit arrange w)
unfolding visit
visit-Visited arrange w a tgt =
    kahn-Visits (length (ids w)) arrange w (in_degrees w) (free_nodes (in_degrees w)) [] a tgt
      record {
        counted = λ m. degree-in_degrees m w;
        spent = λ m h. free_spent m w h;
        once = free_once w;
        known = λ m h. free_known m w tgt h;
        apart = λ m h. refl;
        full = λ m k z. free_there m w tgt k z;
        popped_once = tt;
        popped_known = λ m h. absurd cc;
        popped_spent = λ m h. absurd cc;
        ordered = tt;
      }
      (rw (left_nil (ids w)) (omega arith))
