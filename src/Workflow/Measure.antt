-- ===== src/Workflow/Measure.antt =====
-- The measure of the loops of src/trimum_core/workflow_engine.py: each turn takes a node that was not
-- taken before.
use trimum.Base.{
  ℕ, suc, ◌≤◌, ◌<◌, ◌≡◌, ap, refl, true, false, List, [], ◌∷◌, if◌then◌else◌, length, Text,
  same_iff, member, arith,
}

-- How many of the nodes did not run yet.
abbrev pub left : List Text → List Text → ℕ
left [] gone = 0
left (m ∷ ms) gone = if member m gone then left ms gone else suc (left ms gone)

left_le : (n : Text) (ms gone : List Text) → left ms (n ∷ gone) ≤ left ms gone
left_le n [] gone = omega arith
left_le n (m ∷ ms) gone = ground (arith, left_le n ms gone)

pub left_lt :
    (n : Text) (ms gone : List Text)
    → member n ms ≡ true
    → member n gone ≡ false
    → left ms (n ∷ gone) < left ms gone
left_lt n [] gone h g = cc
left_lt n (m ∷ ms) gone h g = ground (
  arith,
  left_lt n ms gone,
  left_le n ms gone,
  same_iff n m,
  same_iff m n,
  ap (λ t. member t gone),
)

pub left_nil : (ms : List Text) → left ms [] ≡ length ms
left_nil [] = refl
left_nil (m ∷ ms) = ap suc (left_nil ms)
