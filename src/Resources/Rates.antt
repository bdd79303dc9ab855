-- ===== src/Resources/Rates.antt =====
-- `_SlidingWindowCounter` of src/trimum_core/resource_controller.py (lines 81 to 106), for one agent.
-- Times are whole seconds, and each call is given what `time.time()` answers in it.
use trimum.Base.{
  ℕ, zero, suc, ◌+◌, ◌≤◌, ◌≡◌, inl, inr, refl, Bool, List, [], ◌∷◌, ◌++◌, arith, if◌then◌else◌, ltb,
  length, All, Bool-cases,
}
use trimum.Base.Int.{ℤ, pos, negsuc}

-- `events[0] < now - window`
abbrev pub is_old : ℕ → ℕ → ℕ → Bool
is_old window now t = ltb (t + window) now

-- The loop of `_prune`.
unfoldable pub prune_events : ℕ → ℕ → List ℕ → List ℕ
prune_events window now [] = []
prune_events window now (t ∷ q) = if is_old window now t then prune_events window now q else t ∷ q

-- `range(max(0, count))` appends of one time.
abbrev pub copies : ℕ → ℕ → List ℕ
copies zero t = []
copies (suc n) t = t ∷ copies n t

abbrev pub max_zero : ℤ → ℕ
max_zero (pos n) = n
max_zero (negsuc n) = 0

unfoldable pub record_count : ℕ → ℕ → ℤ → List ℕ → List ℕ
unfolding prune_events
record_count window now count q = prune_events window now (q ++ copies (max_zero count) now)

unfoldable pub count_events : ℕ → ℕ → List ℕ → ℕ × List ℕ
unfolding prune_events
count_events window now q = let p = prune_events window now q in (length p, p)

-- The calls of `record`, each with its time.
unfoldable pub record_counts : ℕ → List (ℕ × ℤ) → List ℕ → List ℕ
unfolding record_count
record_counts window [] q = q
record_counts window (c ∷ cs) q = record_counts window cs (record_count window c.0 c.1 q)

-- The specification: the sum over the calls that have not left the window.
unfoldable pub counted_since : ℕ → ℕ → List (ℕ × ℤ) → ℕ
counted_since window now [] = 0
counted_since window now (c ∷ cs) =
    (if is_old window now c.0 then 0 else max_zero c.1) + counted_since window now cs

-- The times of the calls do not run backwards, from `lo` to `hi`.
abbrev pub InOrder : ℕ → ℕ → List (ℕ × ℤ) → Type 0
InOrder lo hi [] = lo ≤ hi
InOrder lo hi (c ∷ cs) = (lo ≤ c.0) × InOrder c.0 hi cs

-- The times stand in order, up to `lo`.
abbrev IsUpTo : ℕ → List ℕ → Type 0
IsUpTo lo [] = Unit
IsUpTo lo (t ∷ q) = (t ≤ lo) × All (λ s. t ≤ s) q × IsUpTo lo q

-- How many of the times lie inside the window.
unfoldable young : ℕ → ℕ → List ℕ → ℕ
young window now [] = 0
young window now (t ∷ q) = (if is_old window now t then 0 else 1) + young window now q

young-append :
    (window now : ℕ) (p q : List ℕ)
    → young window now (p ++ q) ≡ young window now p + young window now q
unfolding young
young-append window now [] q = omega arith
young-append window now (t ∷ p) q = omega (arith, young-append window now p q)

young-copies :
    (window now n t : ℕ) → young window now (copies n t) ≡ (if is_old window now t then 0 else n)
unfolding young
young-copies window now zero t = ground arith
young-copies window now (suc n) t = ground (arith, young-copies window now n t)

-- What has left the window by an earlier time has left it now.
young-prune_events :
    (window now past : ℕ) (q : List ℕ)
    → past ≤ now
    → young window now (prune_events window past q) ≡ young window now q
unfolding young prune_events
young-prune_events window now past [] h = refl
young-prune_events window now past (t ∷ q) h =
    ground (arith, young-prune_events window now past q h)

All-young :
    (a window now : ℕ) (q : List ℕ)
    → now ≤ a + window
    → All (λ s. a ≤ s) q
    → young window now q ≡ length q
unfolding young
All-young a window now [] h g = refl
All-young a window now (t ∷ q) h g = ground (arith, All-young a window now q h g.1)

length-prune_events :
    (lo window now : ℕ) (q : List ℕ)
    → IsUpTo lo q
    → length (prune_events window now q) ≡ young window now q
unfolding young prune_events
length-prune_events lo window now [] h = refl
length-prune_events lo window now (t ∷ q) h =
    ground (arith, length-prune_events lo window now q h.2, All-young t window now q)

prune_events-IsUpTo :
    (lo window now : ℕ) (q : List ℕ) → IsUpTo lo q → IsUpTo lo (prune_events window now q)
unfolding prune_events
prune_events-IsUpTo lo window now [] h = tt
prune_events-IsUpTo lo window now (t ∷ q) h = elim (Bool-cases (is_old window now t)) [
  | inl e ↦ rw e (prune_events-IsUpTo lo window now q h.2)
  | inr e ↦ rw e h
]

copies-All : (a n t : ℕ) → a ≤ t → All (λ s. a ≤ s) (copies n t)
copies-All a zero t h = tt
copies-All a (suc n) t h = (h, copies-All a n t h)

copies-IsUpTo : (n t : ℕ) → IsUpTo t (copies n t)
copies-IsUpTo zero t = tt
copies-IsUpTo (suc n) t = (omega arith, copies-All t n t (omega arith), copies-IsUpTo n t)

All-append :
    (a : ℕ) (p q : List ℕ) → All (λ s. a ≤ s) p → All (λ s. a ≤ s) q → All (λ s. a ≤ s) (p ++ q)
All-append a [] q h g = g
All-append a (t ∷ p) q h g = (h.0, All-append a p q h.1 g)

append-IsUpTo : (lo n t : ℕ) (q : List ℕ) → IsUpTo lo q → lo ≤ t → IsUpTo t (q ++ copies n t)
append-IsUpTo lo n t [] h g = copies-IsUpTo n t
append-IsUpTo lo n t (s ∷ q) h g = (
  omega arith,
  All-append s q (copies n t) h.1 (copies-All s n t (omega arith)),
  append-IsUpTo lo n t q h.2 g,
)

InOrder-le : (lo now : ℕ) (cs : List (ℕ × ℤ)) → InOrder lo now cs → lo ≤ now
InOrder-le lo now [] h = h
InOrder-le lo now (c ∷ cs) h = omega (arith, InOrder-le c.0 now cs h.1)

record_counts-young :
    (window lo now : ℕ) (cs : List (ℕ × ℤ)) (q : List ℕ)
    → IsUpTo lo q
    → InOrder lo now cs
    → (young window now (record_counts window cs q)
        ≡ young window now q + counted_since window now cs)
      × ((hi : ℕ) × IsUpTo hi (record_counts window cs q))
unfolding record_counts record_count counted_since
record_counts-young window lo now [] q h g = (omega arith, (lo, h))
record_counts-young window lo now (c ∷ cs) q h g =
    let n = max_zero c.1 in
    let p = q ++ copies n c.0 in
    let sorted : IsUpTo c.0 p = append-IsUpTo lo n c.0 q h g.0 in
    let (e, (hi, k)) =
      record_counts-young window c.0 now cs (prune_events window c.0 p)
        (prune_events-IsUpTo c.0 window c.0 p sorted) g.1 in
    (
      omega (
        arith,
        e,
        young-prune_events window now c.0 p (InOrder-le c.0 now cs g.1),
        young-append window now q (copies n c.0),
        young-copies window now n c.0,
      ),
      (hi, k),
    )

-- While the clock does not run backwards, the counter answers with the sum of exactly the counts
-- that were recorded inside the window, negative ones as nothing.
pub count_events-record_counts :
    (window now : ℕ) (cs : List (ℕ × ℤ))
    → InOrder 0 now cs
    → (count_events window now (record_counts window cs [])).0 ≡ counted_since window now cs
unfolding count_events young
count_events-record_counts window now cs h =
    let (e, (hi, k)) = record_counts-young window 0 now cs [] tt h in
    omega (arith, e, length-prune_events hi window now (record_counts window cs []) k)
