-- ===== src/Workflow/Texts.antt =====
-- Lists of texts without repetitions: sorted, reversed and counted, as `topological_sort` and
-- `validate_dag` of src/trimum_core/workflow_engine.py (lines 258 to 325) handle them.
use trimum.Base.{
  text_leb, suc, ◌+◌, ◌≤◌, ◌≡◌, ◌∙◌, refl, ap, inl, inr, true, false, ◌||◌, List, [], ◌∷◌, ◌++◌,
  if◌then◌else◌, Text, same, same_iff, member, Nodup, arith, Bool-cases, length, length-append,
  reverse,
}
use mathlib.Core.List.{reverse-append}
use trimum.Workflow.Dag.{sort, insert_sorted}
use trimum.Workflow.Measure.{left, left_lt, left_nil}
use trimum.Workflow.Visits.{Arranges}

member-insert_sorted :
    (m n : Text) (ns : List Text) → member m (insert_sorted n ns) ≡ (same m n || member m ns)
unfolding insert_sorted
member-insert_sorted m n [] = refl
member-insert_sorted m n (k ∷ ns) = ground (arith, member-insert_sorted m n ns)

member-sort : (m : Text) (ns : List Text) → member m (sort ns) ≡ member m ns
unfolding sort
member-sort m [] = refl
member-sort m (n ∷ ns) = ground (arith, member-insert_sorted m n (sort ns), member-sort m ns)

insert_sorted-Nodup :
    (n : Text) (ns : List Text) → Nodup ns → member n ns ≡ false → Nodup (insert_sorted n ns)
unfolding insert_sorted
insert_sorted-Nodup n [] h g = (refl, tt)
insert_sorted-Nodup n (k ∷ ns) h g = elim (Bool-cases (text_leb n k)) [
  | inl q ↦ rw q (g, h)
  | inr q ↦ rw q (
    ground (arith, member-insert_sorted k n ns, h.0, same_iff k n, same_iff n k),
    insert_sorted-Nodup n ns h.1 (ground arith),
  )
]

sort-Nodup : (ns : List Text) → Nodup ns → Nodup (sort ns)
unfolding sort
sort-Nodup [] h = tt
sort-Nodup (n ∷ ns) h = insert_sorted-Nodup n (sort ns) (sort-Nodup ns h.1) (member-sort n ns ∙ h.0)

pub sort-Arranges : Arranges sort
sort-Arranges = record { same_members = member-sort; keeps_once = sort-Nodup }

pub same-Arranges : Arranges (λ q. q)
same-Arranges = record { same_members = λ m q. refl; keeps_once = λ q h. h }

-- What was counted: without the nodes that were popped, as many are left as there are more nodes.
pub left-length :
    (ks ns : List Text)
    → Nodup ns
    → ((m : Text) → member m ns ≡ true → member m ks ≡ true)
    → length ns + left ks ns ≤ length ks
left-length ks [] h g = rw (left_nil ks) (omega arith)
left-length ks (n ∷ ns) h g =
    let less = left_lt n ks ns (g n (ground (arith, same_iff n n))) h.0 in
    let rest = left-length ks ns h.1 (λ m q. g m (ground arith)) in omega (arith, less, rest)

pub left_none :
    (m : Text) (ks ns : List Text) → left ks ns ≡ 0 → member m ks ≡ true → member m ns ≡ true
left_none m [] ns h g = cc
left_none m (k ∷ ks) ns h g = ground (arith, left_none m ks ns, same_iff m k, ap (λ t. member t ns))

-- The list without its first `k`.
without : Text → List Text → List Text
without k [] = []
without k (n ∷ ns) = if same n k then ns else n ∷ without k ns

member-without : (m k : Text) (ns : List Text) → member m (without k ns) ≡ true → member m ns ≡ true
unfolding without
member-without m k [] h = h
member-without m k (n ∷ ns) h = ground (arith, member-without m k ns)

without-Nodup :
    (k : Text) (ns : List Text)
    → Nodup ns
    → Nodup (without k ns) × (member k (without k ns) ≡ false)
unfolding without
without-Nodup k [] h = (tt, refl)
without-Nodup k (n ∷ ns) h = elim (Bool-cases (same n k)) [
  | inl q ↦ rw q (h.1, ground (arith, h.0, same_iff n k, ap (λ t. member t ns)))
  | inr q ↦
      let rest = without-Nodup k ns h.1 in
      rw q (
        (ground (arith, h.0, member-without n k ns), rest.0),
        ground (arith, rest.1, same_iff n k, same_iff k n),
      )
]

length-without : (k : Text) (ns : List Text) → length ns ≤ suc (length (without k ns))
unfolding without
length-without k [] = omega arith
length-without k (n ∷ ns) = ground (arith, length-without k ns)

-- A list of texts no longer than one that has each of its texts once has none twice.
pub short_once :
    (ks ns : List Text)
    → Nodup ns
    → ((m : Text) → member m ns ≡ true → member m ks ≡ true)
    → length ks ≤ length ns
    → Nodup ks
short_once [] ns h g l = tt
short_once (k ∷ ks) ns h g l = elim (Bool-cases (member k ks)) [
  | inl q ↦
      let within =
        left-length ks ns h (λ m r. ground (arith, g m r, same_iff m k, ap (λ t. member t ks))) in
      absurd (omega (arith, within))
  | inr q ↦
      let less = without-Nodup k ns h in
      (
        q,
        short_once ks (without k ns) less.0
            (λ m r. ground (
              arith,
              g m (member-without m k ns r),
              same_iff m k,
              ap (λ t. member t (without k ns)),
              less.1,
            ))
            (omega (arith, length-without k ns)),
      )
]

pub member-append :
    (m : Text) (xs ys : List Text) → member m (xs ++ ys) ≡ (member m xs || member m ys)
member-append m [] ys = refl
member-append m (x ∷ xs) ys = ground (arith, member-append m xs ys)

pub member-reverse : (m : Text) (ns : List Text) → member m (reverse ns) ≡ member m ns
member-reverse m [] = refl
member-reverse m (n ∷ ns) =
    ap (member m) (reverse-append (n ∷ []) ns)
    ∙ ground (arith, member-append m (reverse ns) (n ∷ []), member-reverse m ns)

length-reverse : (ns : List Text) → length (reverse ns) ≡ length ns
length-reverse [] = refl
length-reverse (n ∷ ns) =
    ap length (reverse-append (n ∷ []) ns)
    ∙ length-append (reverse ns) (n ∷ [])
    ∙ omega (arith, length-reverse ns)

pub reverse-Nodup : (ns : List Text) → Nodup ns → Nodup (reverse ns)
reverse-Nodup ns h =
    short_once (reverse ns) ns h (λ m q. member-reverse m ns ∙ q) (omega (arith, length-reverse ns))
