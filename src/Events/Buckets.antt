-- ===== src/Events/Buckets.antt =====
-- The subscriptions of one bucket of src/trimum_core/event_index.py (lines 75 to 125), and the order
-- of the patterns.
use trimum.Base.{
  ℕ, suc, ◌+◌, ◌≤◌, ◌≡◌, refl, ap, ◌∙◌, inl, inr, Bool, true, none, some, [], ◌∷◌, arith,
  if◌then◌else◌, Text, same, same_iff, Bool-cases,
}
use trimum.Base.Dict.{
  Dict, lookup, insert, erase, Distinct, lookup-insert, lookup-insert_self, lookup-erase_ne,
}
use trimum.Events.{Listeners}

-- The entries whose key passes the test.
unfoldable pub pick : (Text → Bool) → Dict Listeners → Dict Listeners
pick f [] = []
pick f (x ∷ d) = if f x.0 then x ∷ pick f d else pick f d

module _ (f : Text → Bool) where
  pub lookup-pick : (k : Text) (d : Dict Listeners) → f k ≡ true → lookup k (pick f d) ≡ lookup k d
  unfolding pick lookup
  lookup-pick k [] h = refl
  lookup-pick k (x ∷ d) h = ground (arith, same_iff k x.0, ap f, lookup-pick k d h)

  pub pick-insert :
      (k : Text) (v : Listeners) (d : Dict Listeners)
      → pick f (insert k v d) ≡ (if f k then insert k v (pick f d) else pick f d)
  unfolding pick insert
  pick-insert k v [] = ground arith
  pick-insert k v (x ∷ d) = ground (arith, same_iff k x.0, ap f, pick-insert k v d)

  pub pick-erase :
      (k : Text) (d : Dict Listeners)
      → pick f (erase k d) ≡ (if f k then erase k (pick f d) else pick f d)
  unfolding pick erase
  pick-erase k [] = ground arith
  pick-erase k (x ∷ d) = ground (arith, same_iff k x.0, ap f, pick-erase k d)

-- The patterns stand in the order of their numbers, from `lo` on and below `next`.
abbrev pub Ascending : Dict ℕ → ℕ → ℕ → Dict Listeners → Type 0
Ascending order lo next [] = lo ≤ next
Ascending order lo next (x ∷ d) =
    (n : ℕ) × (lookup x.0 order ≡ some n) × (lo ≤ n) × Ascending order (suc n) next d

lower :
    (order : Dict ℕ) (lo lo' next : ℕ) (d : Dict Listeners)
    → lo' ≤ lo
    → Ascending order lo next d
    → Ascending order lo' next d
lower order lo lo' next [] h a = ground (arith, h, a)
lower order lo lo' next (x ∷ d) h (n, e, g, a) = (n, e, ground (arith, h, g), a)

pub insert-Ascending :
    (order : Dict ℕ) (lo next : ℕ) (k : Text) (v l : Listeners) (d : Dict Listeners)
    → lookup k d ≡ some l
    → Ascending order lo next d
    → Ascending order lo next (insert k v d)
unfolding lookup insert
insert-Ascending order lo next k v l [] h a = cc
insert-Ascending order lo next k v l (x ∷ d) h (n, e, g, a) = elim (Bool-cases (same k x.0)) [
  | inl i ↦ rw i (n, ap (λ t. lookup t order) ((same_iff k x.0).0 i) ∙ e, g, a)
  | inr i ↦ let h' = rw i at h in rw i (n, e, g, insert-Ascending order (suc n) next k v l d h' a)
]

pub append-Ascending :
    (order : Dict ℕ) (lo next : ℕ) (k : Text) (v : Listeners) (d : Dict Listeners)
    → lookup k d ≡ none
    → Ascending order lo next d
    → Ascending (insert k next order) lo (next + 1) (insert k v d)
unfolding lookup insert
append-Ascending order lo next k v [] h a = (next, lookup-insert_self k next order, a, ground arith)
append-Ascending order lo next k v (x ∷ d) h (n, e, g, a) = elim (Bool-cases (same k x.0)) [
  | inl i ↦ let h' = rw i at h in cc
  | inr i ↦
      let h' = rw i at h in
      rw i (
        n,
        ground (arith, lookup-insert x.0 k next order, same_iff x.0 k, same_iff k x.0, e, i),
        g,
        append-Ascending order (suc n) next k v d h' a,
      )
]

unnumbered-Ascending :
    (order : Dict ℕ) (lo next : ℕ) (k : Text) (d : Dict Listeners)
    → lookup k d ≡ none
    → Ascending order lo next d
    → Ascending (erase k order) lo next d
unfolding lookup
unnumbered-Ascending order lo next k [] h a = a
unnumbered-Ascending order lo next k (x ∷ d) h (n, e, g, a) = elim (Bool-cases (same k x.0)) [
  | inl i ↦ let h' = rw i at h in cc
  | inr i ↦
      let h' = rw i at h in
      (
        n,
        ground (arith, lookup-erase_ne x.0 k order, same_iff k x.0, e, i),
        g,
        unnumbered-Ascending order (suc n) next k d h' a,
      )
]

pub erase-Ascending :
    (order : Dict ℕ) (lo next : ℕ) (k : Text) (d : Dict Listeners)
    → Distinct d
    → Ascending order lo next d
    → Ascending (erase k order) lo next (erase k d)
unfolding lookup erase
erase-Ascending order lo next k [] distinct a = a
erase-Ascending order lo next k (x ∷ d) (new, distinct) (n, e, g, a) =
    elim (Bool-cases (same k x.0)) [
      | inl i ↦
          let k_new : lookup k d ≡ none = ap (λ t. lookup t d) ((same_iff k x.0).0 i) ∙ new in
          rw i (
            unnumbered-Ascending order lo next k d k_new
              (lower order (suc n) lo next d (ground (arith, g)) a))
      | inr i ↦ rw i (
        n,
        ground (arith, lookup-erase_ne x.0 k order, same_iff k x.0, e, i),
        g,
        erase-Ascending order (suc n) next k d distinct a,
      )
    ]
