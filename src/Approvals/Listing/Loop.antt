-- ===== src/Approvals/Listing/Loop.antt =====
-- The loop of `list_pending` of src/trimum_core/approvals.py (lines 253 to 278).
use mathlib.Core.List.{Perm}
use trimum.Base.{
  ℕ, ◌≡◌, refl, ap, ◌∙◌, ◌⊎◌, inl, inr, true, ◌||◌, Option, none, some, List, [], ◌∷◌, ◌++◌, map,
  arith, if◌then◌else◌, any, Text, same, same_iff, Bool-cases,
}
use trimum.Base.Dict.{Dict, lookup}
use trimum.Approvals.Request.{Outcome, returns, raises, ApprovalRequest}
use trimum.Approvals.Store.{
  Content, Store, Listing, read, list_loaded, list_from, list_pending, sorted_names, place, listed,
}
use trimum.Approvals.Lifecycle.{IsKeyed, settle, read-raises}
use trimum.Approvals.Listing.Order.{IsAscending, sorted_names-IsAscending, sorted_names-perm}
use trimum.Approvals.Listing.{
  settle_idem, listed-store, list_loaded-store, kept, live, settled, AgreeAt, live-AgreeAt, Lists,
}

-- A name without a record adds nothing.
Lists-skip :
    (w : ℕ) (n : Text) (ns : List Text) (s : Store) (l : Listing)
    → read n s ≡ returns none
    → Lists w ns s l
    → Lists w (n ∷ ns) s l
unfolding live kept
Lists-skip w n ns s l e h =
    (rw e h.0, h.1, λ j. ground (arith, h.2 j, same_iff j n, ap (λ t. read t s)))

listed-answer :
    (found : Option ApprovalRequest) (l : Listing) (rs : List ApprovalRequest)
    → l.0 ≡ returns rs
    → (listed found l).0 ≡ returns (elim found [ none ↦ rs | some r ↦ r ∷ rs ])
listed-answer none l rs e = e
listed-answer (some r) (returns qs, s) rs e = ground arith
listed-answer (some r) (raises, s) rs e = cc

-- What is appended for a record is what the specification keeps of it.
list_loaded-kept :
    (w : ℕ) (r : ApprovalRequest) (s : Store) (rs : List ApprovalRequest)
    → elim (list_loaded w r s).0 [ none ↦ rs | some q ↦ q ∷ rs ] ≡ kept w (returns (some r)) ++ rs
unfolding list_loaded kept
list_loaded-kept w r s rs = ground arith

module _ (w : ℕ) (j n : Text) where
  at :
      (s s' : Store) (r : ApprovalRequest)
      → read n s ≡ returns (some r)
      → read j s' ≡ (if same j n then returns (some (settle w r)) else read j s)
      → (read j s' ≡ read j s) ⊎ (read j s' ≡ settled w (read j s))
  at s s' r e h = elim (Bool-cases (same j n)) [
    | inl q ↦ inr (ground (arith, same_iff j n, ap (λ t. read t s)))
    | inr q ↦ inl (rw q at h)
  ]

  after :
      (ns : List Text) (s s' : Store) (l : Listing) (r : ApprovalRequest)
      → read n s ≡ returns (some r)
      → read j s' ≡ (if same j n then returns (some (settle w r)) else read j s)
      → read j l.1 ≡ (if any (same j) ns then settled w (read j s') else read j s')
      → read j l.1 ≡ (if same j n || any (same j) ns then settled w (read j s) else read j s)
  after ns s s' l r e h k = elim (Bool-cases (same j n)) [
    | inl q ↦
        let here : read j s ≡ returns (some r) = ground (arith, same_iff j n) in
        rw (q, here) (ground (arith, settle_idem w r))
    | inr q ↦ let same_read : read j s' ≡ read j s = rw q at h in rw q (rw same_read at k)
  ]

pub read-cases :
    (n : Text) (s : Store)
    → (read n s ≡ raises) ⊎ ((o : Option ApprovalRequest) × (read n s ≡ returns o))
read-cases n s = go (read n s) refl
  where
    go :
        (o : Outcome (Option ApprovalRequest))
        → read n s ≡ o
        → (read n s ≡ raises) ⊎ ((p : Option ApprovalRequest) × (read n s ≡ returns p))
    go raises e = inl e
    go (returns p) e = inr (p, e)

-- A name with a record: the loop settles that record, and goes on in the directory so changed.
Lists-record :
    (w : ℕ) (n : Text) (ns : List Text) (s : Store) (r : ApprovalRequest) (l : Listing)
    → IsKeyed s
    → read n s ≡ returns (some r)
    → Lists w ns (list_loaded w r s).1 l
    → Lists w (n ∷ ns) s (listed (list_loaded w r s).0 l)
unfolding live
Lists-record w n ns s r l keyed e h =
    let (found, s') = list_loaded w r s in
    let turn = list_loaded-store w n s r keyed e in
    let agree : AgreeAt w s' s = λ j. at w j n s s' r e (turn.1 j) in
    (
      rw e (
          listed-answer found l (live w ns s') h.0
          ∙ ap returns (
              list_loaded-kept w r s (live w ns s')
              ∙ ap (λ rs. kept w (returns (some r)) ++ rs) (live-AgreeAt w ns s' s agree))),
      rw (listed-store found l) h.1,
      λ j. rw (listed-store found l) (after w j n ns s s' l r e (turn.1 j) (h.2 j)),
    )

list_from-none :
    (w : ℕ) (n : Text) (ns : List Text) (s : Store)
    → read n s ≡ returns none
    → list_from w (n ∷ ns) s ≡ list_from w ns s
unfolding list_from
list_from-none w n ns s e = rw (e, list_from)

list_from-record :
    (w : ℕ) (n : Text) (ns : List Text) (s : Store) (r : ApprovalRequest)
    → read n s ≡ returns (some r)
    → list_from w (n ∷ ns) s ≡ listed (list_loaded w r s).0 (list_from w ns (list_loaded w r s).1)
unfolding list_from
list_from-record w n ns s r e = rw (e, list_from)

-- One turn of the loop, over what the rest of it does from any directory.
list_from_turn :
    (w : ℕ) (n : Text) (ns : List Text) (s : Store)
    → IsKeyed s
    → ((t : Store) → IsKeyed t → Lists w ns t (list_from w ns t))
    → Lists w (n ∷ ns) s (list_from w (n ∷ ns) s)
list_from_turn w n ns s keyed rest = elim (read-cases n s) [
  | inl e ↦ absurd (read-raises n s keyed e)
  | inr (none, e) ↦
      rw (list_from-none w n ns s e) (Lists-skip w n ns s (list_from w ns s) e (rest s keyed))
  | inr (some r, e) ↦ rw (list_from-record w n ns s r e) (
      Lists-record w n ns s r (list_from w ns (list_loaded w r s).1) keyed e
        (rest (list_loaded w r s).1 (list_loaded-store w n s r keyed e).0))
]

list_from-Lists : (w : ℕ) (ns : List Text) (s : Store) → IsKeyed s → Lists w ns s (list_from w ns s)
unfolding list_from live
list_from-Lists w [] s keyed = (refl, keyed, λ j. refl)
list_from-Lists w (n ∷ ns) s keyed = list_from_turn w n ns s keyed (list_from-Lists w ns)

any-place :
    (j n : Text) (ns : List Text) → any (same j) (place n ns) ≡ (same j n || any (same j) ns)
unfolding place
any-place j n [] = refl
any-place j n (m ∷ ms) = ground (arith, any-place j n ms)

any-sorted_names : (j : Text) (ns : List Text) → any (same j) (sorted_names ns) ≡ any (same j) ns
unfolding sorted_names
any-sorted_names j [] = refl
any-sorted_names j (n ∷ ns) = ground (arith, any-place j n (sorted_names ns), any-sorted_names j ns)

-- A file that is there is visited.
any-names :
    (j : Text) (d : Dict Content) → (any (same j) (map (λ e. e.0) d) ≡ true) ⊎ (lookup j d ≡ none)
unfolding lookup
any-names j [] = inr refl
any-names j (e ∷ d) = ground (arith, any-names j d)

read-lookup-none : (j : Text) (s : Store) → lookup j s.files ≡ none → read j s ≡ returns none
unfolding read
read-lookup-none j s e = rw (e, read)

-- In a keyed directory `list_pending` answers with exactly the pending records that had not
-- expired, each by its file; the files are visited once each, in ascending order of their names. It
-- leaves a keyed directory, in which each record that had expired is marked so and every other is as
-- it was.
pub list_pending-live :
    (w : ℕ) (s : Store)
    → IsKeyed s
    → (ns : List Text) × Perm ns (map (λ e. e.0) s.files)
      × IsAscending ns
      × ((list_pending w s).0 ≡ returns (live w ns s))
      × IsKeyed (list_pending w s).1
      × ((j : Text) → read j (list_pending w s).1 ≡ settled w (read j s))
unfolding list_pending
list_pending-live w s keyed =
    let names = map (λ e. e.0) s.files in
    let (answer, keyed', reads) = list_from-Lists w (sorted_names names) s keyed in
    (
      sorted_names names,
      sorted_names-perm names,
      sorted_names-IsAscending names,
      answer,
      keyed',
      λ j. elim (any-names j s.files) [
        | inl here ↦ ground (arith, reads j, any-sorted_names j names)
        | inr gone ↦ ground (arith, reads j, read-lookup-none j s gone)
      ],
    )
