-- ===== src/Approvals/Listing/Order.antt =====
-- The order of `sorted(glob("*.json"))` in `list_pending` of src/trimum_core/approvals.py (line 260):
-- file names are compared as texts, by their code points.
use mathlib.Core.List.{Perm}
use mathlib.Core.List.Perm
use trimum.Base.{
  ℕ, ◌<◌, ◌≡◌, refl, ◌⊎◌, inl, inr, true, false, List, [], ◌∷◌, ◌++◌, arith, All, Text, codes,
  Bool-cases, ap,
}
use trimum.Approvals.Store.{name_leb, file_leb, place, sorted_names}

-- The first text is the start of the second, or has the smaller code point where they first differ.
abbrev pub Precedes : Text → Text → Type 0
Precedes s t =
    ((rest : Text) × (t ≡ s ++ rest))
    ⊎ ((u : Text) × (x : ℕ) × (y : ℕ) × (s' : Text) × (t' : Text) × (s ≡ u ++ x ∷ s')
        × (t ≡ u ++ y ∷ t')
        × (x < y))

-- The file of each identifier comes before the files of all that follow.
abbrev pub IsAscending : List Text → Type 0
IsAscending [] = Unit
IsAscending (n ∷ ns) =
    All (λ m. Precedes (n ++ codes ".json") (m ++ codes ".json")) ns × IsAscending ns

Precedes-cons : (c : ℕ) (s t : Text) → Precedes s t → Precedes (c ∷ s) (c ∷ t)
Precedes-cons c s t (inl (rest, e)) = inl (rest, ap (λ u. c ∷ u) e)
Precedes-cons c s t (inr (u, x, y, s', t', e, f, h)) = inr (c ∷ u, x, y, s', t', cc, cc, h)

name_leb-Precedes : (s t : Text) → name_leb s t ≡ true → Precedes s t
unfolding name_leb
name_leb-Precedes [] t h = inl (t, refl)
name_leb-Precedes (x ∷ s) [] h = cc
name_leb-Precedes (x ∷ s) (y ∷ t) h =
    go (ground (arith, h)) (λ e k. rw e (Precedes-cons y s t (name_leb-Precedes s t k)))
  where
    go :
        (x < y) ⊎ ((x ≡ y) × (name_leb s t ≡ true))
        → (x ≡ y → name_leb s t ≡ true → Precedes (x ∷ s) (y ∷ t))
        → Precedes (x ∷ s) (y ∷ t)
    go (inl below) next = inr ([], x, y, s, t, refl, refl, below)
    go (inr (e, k)) next = next e k

name_leb_trans : (s t u : Text) → name_leb s t ≡ true → name_leb t u ≡ true → name_leb s u ≡ true
unfolding name_leb
name_leb_trans [] t u h k = refl
name_leb_trans (x ∷ s) [] u h k = cc
name_leb_trans (x ∷ s) (y ∷ t) [] h k = cc
name_leb_trans (x ∷ s) (y ∷ t) (z ∷ u) h k = ground (arith, name_leb_trans s t u)

name_leb_total : (s t : Text) → name_leb s t ≡ false → name_leb t s ≡ true
unfolding name_leb
name_leb_total [] t h = cc
name_leb_total (x ∷ s) [] h = refl
name_leb_total (x ∷ s) (y ∷ t) h = ground (arith, name_leb_total s t)

-- The same order as the code tests it.
abbrev Below : Text → List Text → Type 0
Below n ns = All (λ m. file_leb n m ≡ true) ns

abbrev Sorted : List Text → Type 0
Sorted [] = Unit
Sorted (n ∷ ns) = Below n ns × Sorted ns

Below-trans : (n m : Text) (ms : List Text) → file_leb n m ≡ true → Below m ms → Below n ms
unfolding file_leb
Below-trans n m [] h k = tt
Below-trans n m (q ∷ qs) h k = (
  name_leb_trans (n ++ codes ".json") (m ++ codes ".json") (q ++ codes ".json") h k.0,
  Below-trans n m qs h k.1,
)

Below-place :
    (m n : Text) (ns : List Text) → file_leb m n ≡ true → Below m ns → Below m (place n ns)
unfolding place
Below-place m n [] h k = (h, tt)
Below-place m n (q ∷ qs) h k = elim (Bool-cases (file_leb n q)) [
  | inl first ↦ rw first (h, k)
  | inr later ↦ rw later (k.0, Below-place m n qs h k.1)
]

place-Sorted : (n : Text) (ns : List Text) → Sorted ns → Sorted (place n ns)
unfolding place file_leb
place-Sorted n [] h = (tt, tt)
place-Sorted n (m ∷ ms) h = elim (Bool-cases (file_leb n m)) [
  | inl first ↦ rw first ((first, Below-trans n m ms first h.0), h)
  | inr later ↦
      let swapped = name_leb_total (n ++ codes ".json") (m ++ codes ".json") later in
      rw later (Below-place m n ms swapped h.0, place-Sorted n ms h.1)
]

sorted_names-Sorted : (ns : List Text) → Sorted (sorted_names ns)
unfolding sorted_names
sorted_names-Sorted [] = tt
sorted_names-Sorted (n ∷ ns) = place-Sorted n (sorted_names ns) (sorted_names-Sorted ns)

All-Precedes :
    (n : Text) (ns : List Text)
    → Below n ns
    → All (λ m. Precedes (n ++ codes ".json") (m ++ codes ".json")) ns
unfolding file_leb
All-Precedes n [] h = tt
All-Precedes n (m ∷ ms) h =
    (name_leb-Precedes (n ++ codes ".json") (m ++ codes ".json") h.0, All-Precedes n ms h.1)

Sorted-IsAscending : (ns : List Text) → Sorted ns → IsAscending ns
Sorted-IsAscending [] h = tt
Sorted-IsAscending (n ∷ ns) h = (All-Precedes n ns h.0, Sorted-IsAscending ns h.1)

pub sorted_names-IsAscending : (ns : List Text) → IsAscending (sorted_names ns)
sorted_names-IsAscending ns = Sorted-IsAscending (sorted_names ns) (sorted_names-Sorted ns)

place-perm : (n : Text) (ns : List Text) → Perm (place n ns) (n ∷ ns)
unfolding place
place-perm n [] = Perm.rfl
place-perm n (m ∷ ms) = elim (Bool-cases (file_leb n m)) [
  | inl first ↦ rw first Perm.rfl
  | inr later ↦ rw later (Perm.trans (Perm.cons m (place-perm n ms)) (Perm.swap n m ms))
]

pub sorted_names-perm : (ns : List Text) → Perm (sorted_names ns) ns
unfolding sorted_names
sorted_names-perm [] = Perm.rfl
sorted_names-perm (n ∷ ns) =
    Perm.trans (place-perm n (sorted_names ns)) (Perm.cons n (sorted_names-perm ns))
