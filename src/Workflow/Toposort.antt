-- ===== src/Workflow/Toposort.antt =====
-- Topological orders, and those that `validate_dag` and `topological_sort` of
-- src/trimum_core/workflow_engine.py (lines 258 to 325) come upon.
use trimum.Base.{
  ◌≡◌, ◌∙◌, refl, ap, sym, inl, inr, true, List, [], ◌∷◌, ◌++◌, map, Text, same, same_iff, member,
  Nodup, arith, Bool-cases, length, reverse, append_assoc,
}
use mathlib.Core.List.{reverse-append, reverse-reverse}
use trimum.Workflow.Graph.{EdgeDefinition, WorkflowDefinition, ids, edges_to, predecessors}
use trimum.Workflow.Counts.{incoming}
use trimum.Workflow.Visits.{Ordered, Visited}
use trimum.Workflow.Texts.{left-length, left_none, member-append, member-reverse, reverse-Nodup}

-- Every node was popped, if as many were popped as there are.
pub all_popped :
    (w : WorkflowDefinition) (ns : List Text)
    → Visited w ns
    → length ns ≡ length (ids w)
    → (m : Text) → member m (ids w) ≡ true
    → member m ns ≡ true
all_popped w ns v h m k =
    left_none m (ids w) ns (omega (arith, left-length (ids w) ns v.once v.known)) k

-- Each node stands behind its predecessors.
pub record IsTopological (w : WorkflowDefinition) (order : List Text) : Type 0 where
  pub once : Nodup order
  pub all : (m : Text) → member m order ≡ member m (ids w)
  pub behind :
      (before after : List Text)
      → (n : Text) → order ≡ before ++ n ∷ after
      → (m : Text) → member m (predecessors w n) ≡ true
      → member m before ≡ true

sources_popped :
    (m n : Text) (ns : List Text) (es : List EdgeDefinition)
    → incoming n ns es ≡ 0
    → member m (map (λ e. e.source) (edges_to n es)) ≡ true
    → member m ns ≡ true
unfolding edges_to
sources_popped m n ns [] h g = cc
sources_popped m n ns (x ∷ xs) h g =
    ground (arith, sources_popped m n ns xs, same_iff m x.source, ap (λ t. member t ns))

Ordered-at :
    (w : WorkflowDefinition) (n : Text) (after before : List Text)
    → Ordered w (after ++ n ∷ before)
    → incoming n before w.edges ≡ 0
Ordered-at w n [] before h = h.0
Ordered-at w n (a ∷ after) before h = Ordered-at w n after before h.1

reverse-behind :
    (w : WorkflowDefinition) (ns before after : List Text) (n m : Text)
    → Ordered w ns
    → reverse ns ≡ before ++ n ∷ after
    → member m (predecessors w n) ≡ true
    → member m before ≡ true
reverse-behind w ns before after n m o e h =
    sym (member-reverse m before)
    ∙ sources_popped m n (reverse before) w.edges
        (Ordered-at w n (reverse after) (reverse before) (rw split at o)) h
  where
    split : ns ≡ reverse after ++ n ∷ reverse before
    split =
        sym (reverse-reverse ns)
        ∙ ap reverse e
        ∙ reverse-append before (n ∷ after)
        ∙ ap (λ l. l ++ reverse before) (reverse-append (n ∷ []) after)
        ∙ append_assoc (reverse after) (n ∷ []) (reverse before)

-- A node whose predecessors were all popped has no edge left.
incoming_zero :
    (n : Text) (ns : List Text) (es : List EdgeDefinition)
    → ((m : Text) → member m (map (λ e. e.source) (edges_to n es)) ≡ true → member m ns ≡ true)
    → incoming n ns es ≡ 0
unfolding edges_to
incoming_zero n ns [] h = refl
incoming_zero n ns (x ∷ xs) h = elim (Bool-cases (same x.target n)) [
  | inl q ↦
      let h' = rw q at h in
      ground (
        arith,
        incoming_zero n ns xs (λ m r. h' m (ground arith)),
        h' x.source (ground (arith, same_iff x.source x.source)),
      )
  | inr q ↦ ground (arith, incoming_zero n ns xs (rw q at h))
]

incoming_mono :
    (n : Text) (ns ks : List Text) (es : List EdgeDefinition)
    → ((m : Text) → member m ns ≡ true → member m ks ≡ true)
    → incoming n ns es ≡ 0
    → incoming n ks es ≡ 0
incoming_mono n ns ks es h z = incoming_zero n ks es (λ m q. h m (sources_popped m n ns es z q))

-- Two queues lead to the same nodes.
pub same-Visited :
    (w : WorkflowDefinition) (ns ks : List Text)
    → Ordered w ns
    → ((m : Text) → member m ns ≡ true → member m (ids w) ≡ true)
    → Visited w ks
    → (m : Text) → member m ns ≡ true
    → member m ks ≡ true
same-Visited w [] ks o known v m h = cc
same-Visited w (n ∷ ns) ks o known v m h =
    let rest = same-Visited w ns ks o.1 (λ j q. known j (ground arith)) v in
    let first : member n ks ≡ true =
      v.full n (known n (ground (arith, same_iff n n))) (incoming_mono n ns ks w.edges rest o.0) in
    ground (arith, rest m, first, same_iff m n, ap (λ t. member t ks))

pub in_some_order :
    (w : WorkflowDefinition) (order ns before rest : List Text)
    → IsTopological w order
    → Visited w ns
    → order ≡ before ++ rest
    → ((m : Text) → member m before ≡ true → member m ns ≡ true)
    → (m : Text) → member m rest ≡ true
    → member m ns ≡ true
in_some_order w order ns before [] t v e h m g = cc
in_some_order w order ns before (n ∷ rest) t v e h m g =
    let known : member n (ids w) ≡ true =
      sym (t.all n)
      ∙ ap (member n) e
      ∙ ground (arith, member-append n before (n ∷ rest), same_iff n n) in
    let first : member n ns ≡ true =
      v.full n known (incoming_zero n ns w.edges (λ k q. h k (t.behind before rest n e k q))) in
    let more =
      in_some_order w order ns (before ++ n ∷ []) rest t v
        (e ∙ sym (append_assoc before (n ∷ []) rest))
        (λ k q. ground (
          arith,
          h k,
          first,
          member-append k before (n ∷ []),
          same_iff k n,
          ap (λ t. member t ns),
        )) in
    ground (arith, more m, first, same_iff m n, ap (λ t. member t ns))

-- The order of the nodes that were popped.
pub reverse-IsTopological :
    (w : WorkflowDefinition) (ns : List Text)
    → Visited w ns
    → ((m : Text) → member m (ids w) ≡ true → member m ns ≡ true)
    → IsTopological w (reverse ns)
reverse-IsTopological w ns v all_in = record {
  once = reverse-Nodup ns v.once;
  all = λ m. ground (arith, member-reverse m ns, v.known m, all_in m);
  behind = λ before after n e m h. reverse-behind w ns before after n m v.ordered e h;
}
