-- ===== src/Tarl/Sorted.antt =====
-- What a dictionary holds is what the sorted list of its items holds, and what is stored of it
-- again (src/trimum_core/tarl_parser.py, lines 56 to 75 and 105 to 124).
use trimum.Base.{
  ◌≡◌, ◌∙◌, refl, ap, inl, inr, Option, none, some, List, [], ◌∷◌, if◌then◌else◌, Text, same,
  same_iff, nonempty, arith, Bool-cases,
}
use trimum.Base.Dict.{Dict, lookup, insert, lookup-insert, Distinct, insert-Distinct}
use trimum.Tarl.Lines.{Pair, store_all, pair_leb, place, sorted_items}
use trimum.Tarl.Fields.{with_keys}

-- The value of a key in a dictionary that stands first, or else in the other.
abbrev pub or_else : Option Text → Option Text → Option Text
or_else none o = o
or_else (some v) o = some v

place-lookup :
    (k : Text) (p : Pair) (ps : List Pair)
    → lookup p.0 ps ≡ none
    → lookup k (place p ps) ≡ (if same k p.0 then some p.1 else lookup k ps)
unfolding place lookup
place-lookup k p [] h = refl
place-lookup k p (q ∷ ps) h = elim (Bool-cases (pair_leb p q)) [
  | inl e ↦ rw e refl
  | inr e ↦
      rw e (ground (arith, place-lookup k p ps, same_iff k p.0, same_iff p.0 q.0, same_iff k q.0))
]

place-Distinct :
    (p : Pair) (ps : Dict Text) → lookup p.0 ps ≡ none → Distinct ps → Distinct (place p ps)
unfolding place lookup
place-Distinct p [] h d = (refl, tt)
place-Distinct p (q ∷ ps) h d = elim (Bool-cases (pair_leb p q)) [
  | inl e ↦ rw e (h, d)
  | inr e ↦ rw e (
    ground (arith, place-lookup q.0 p ps, d.0, h, same_iff p.0 q.0, same_iff q.0 p.0),
    place-Distinct p ps (ground (arith, h)) d.1,
  )
]

pub lookup-sorted_items :
    (k : Text) (d : Dict Text) → Distinct d → lookup k (sorted_items d) ≡ lookup k d
unfolding sorted_items lookup
lookup-sorted_items k [] h = refl
lookup-sorted_items k (p ∷ d) h =
    place-lookup k p (sorted_items d) (lookup-sorted_items p.0 d h.1 ∙ h.0)
    ∙ ground (arith, lookup-sorted_items k d h.1)

pub sorted_items-Distinct : (d : Dict Text) → Distinct d → Distinct (sorted_items d)
unfolding sorted_items
sorted_items-Distinct [] h = tt
sorted_items-Distinct (p ∷ d) h =
    place-Distinct p (sorted_items d) (lookup-sorted_items p.0 d h.1 ∙ h.0)
      (sorted_items-Distinct d h.1)

pub store_all-Distinct : (ps : List Pair) (d : Dict Text) → Distinct d → Distinct (store_all ps d)
unfolding store_all
store_all-Distinct [] d h = h
store_all-Distinct (p ∷ ps) d h =
    store_all-Distinct ps (insert p.0 p.1 d) (insert-Distinct p.0 p.1 d h)

-- Pairs of distinct keys, stored over a dictionary.
pub lookup-store_all :
    (k : Text) (ps : Dict Text) (d : Dict Text)
    → Distinct ps
    → lookup k (store_all ps d) ≡ or_else (lookup k ps) (lookup k d)
unfolding store_all lookup
lookup-store_all k [] d h = refl
lookup-store_all k (p ∷ ps) d h = ground (
  arith,
  lookup-store_all k ps (insert p.0 p.1 d) h.1,
  lookup-insert k p.0 p.1 d,
  same_iff k p.0,
  h.0,
  ap (λ t. lookup t ps),
)

pub lookup-with_keys :
    (k : Text) (ps : List Pair)
    → lookup k (with_keys ps) ≡ (if nonempty k then lookup k ps else none)
unfolding lookup
lookup-with_keys k [] = ground arith
lookup-with_keys k (p ∷ ps) = ground (arith, lookup-with_keys k ps, same_iff k p.0)

pub with_keys-Distinct : (ps : Dict Text) → Distinct ps → Distinct (with_keys ps)
unfolding lookup
with_keys-Distinct [] h = tt
with_keys-Distinct (p ∷ ps) h = elim (Bool-cases (nonempty p.0)) [
  | inl q ↦ rw q (ground (arith, lookup-with_keys p.0 ps, h.0), with_keys-Distinct ps h.1)
  | inr q ↦ rw q (with_keys-Distinct ps h.1)
]
