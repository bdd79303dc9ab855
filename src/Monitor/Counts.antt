-- ===== src/Monitor/Counts.antt =====
-- The counters of src/trimum_core/behavior_monitor.py against the records that they count.
use trimum.Base.{
  ℕ, ◌+◌, ◌-◌, ◌≤◌, ◌≡◌, inl, inr, Bool, List, [], ◌∷◌, ◌++◌, arith, length, if◌then◌else◌, ◌==◌,
  ltb, Text, same, same_iff, Bool-cases,
}
use trimum.Base.Dict.{
  Dict, Distinct, lookup-insert, lookup-erase_ne, lookup-erase_self, insert-Distinct,
  erase-Distinct,
}
use trimum.Monitor.History.{
  BehaviorRecord, Track, count_of, maxlen, append_bounded, count_up, count_down, is_stale,
  prune_loop, record_track,
}

abbrev pub one_if : Bool → ℕ
one_if b = if b then 1 else 0

-- How many of the records have this type.
unfoldable pub tally : Text → List BehaviorRecord → ℕ
tally t [] = 0
tally t (r ∷ q) = one_if (same t r.action_type) + tally t q

-- The counters are a dictionary, and exceed the tally by `extra`.
pub record Exceeds (extra : Text → ℕ) (q : List BehaviorRecord) (d : Dict ℕ) : Type 0 where
  pub distinct : Distinct d
  pub excess : (t : Text) → count_of t d ≡ tally t q + extra t

count_of-count_up :
    (j t : Text) (d : Dict ℕ) → count_of j (count_up t d) ≡ count_of j d + one_if (same j t)
unfolding count_up
count_of-count_up j t d = ground (arith, lookup-insert j t (count_of t d + 1) d, same_iff j t)

count_of-count_down :
    (j t : Text) (d : Dict ℕ)
    → Distinct d
    → count_of j (count_down t d) ≡ count_of j d - one_if (same j t)
unfolding count_down
count_of-count_down j t d h = ground (
  arith,
  lookup-insert j t (count_of t d - 1) d,
  lookup-erase_ne j t d,
  lookup-erase_self t d h,
  same_iff j t,
)

count_down-Distinct : (t : Text) (d : Dict ℕ) → Distinct d → Distinct (count_down t d)
unfolding count_down
count_down-Distinct t d h = elim (Bool-cases (count_of t d - 1 == 0)) [
  | inl e ↦ rw e (erase-Distinct t d h)
  | inr e ↦ rw e (insert-Distinct t (count_of t d - 1) d h)
]

counted :
    (t : Text) (r : BehaviorRecord) (q : List BehaviorRecord) (d : Dict ℕ) (extra : Text → ℕ)
    → count_of t d ≡ tally t (r ∷ q) + extra t
    → count_of t (count_down r.action_type d) ≡ count_of t d - one_if (same t r.action_type)
    → count_of t (count_down r.action_type d) ≡ tally t q + extra t
unfolding tally
counted t r q d extra h e = omega arith

-- Pruning takes each record off the queue and off the counters alike.
prune_loop-Exceeds :
    (window now : ℕ) (extra : Text → ℕ) (q : List BehaviorRecord) (d : Dict ℕ)
    → Exceeds extra q d
    → Exceeds extra (prune_loop window now q d).0 (prune_loop window now q d).1
unfolding prune_loop
prune_loop-Exceeds window now extra [] d h = h
prune_loop-Exceeds window now extra (r ∷ q) d h = elim (Bool-cases (is_stale window now r)) [
  | inl e ↦ rw e (
      prune_loop-Exceeds window now extra q (count_down r.action_type d) (record {
        distinct = count_down-Distinct r.action_type d h.distinct;
        excess = λ t.
            counted t r q d extra (h.excess t) (count_of-count_down t r.action_type d h.distinct);
      }))
  | inr e ↦ rw e h
]

tally-append : (t : Text) (q p : List BehaviorRecord) → tally t (q ++ p) ≡ tally t q + tally t p
unfolding tally
tally-append t [] p = omega arith
tally-append t (r ∷ q) p = omega (arith, tally-append t q p)

-- What the bound of the deque pushes out.
abbrev pub dropped : List BehaviorRecord → Text → ℕ
dropped [] t = 0
dropped (r ∷ q) t = if ltb (length (r ∷ q)) maxlen then 0 else one_if (same t r.action_type)

tally-append_bounded :
    (t : Text) (q : List BehaviorRecord) (r : BehaviorRecord)
    → tally t (append_bounded q r) + dropped q t ≡ tally t q + one_if (same t r.action_type)
unfolding append_bounded tally
tally-append_bounded t [] r = omega arith
tally-append_bounded t (o ∷ q) r = ground (arith, tally-append t q (r ∷ []))

-- One call of `record` for an agent: the counters exceed the tally of the records that are kept by
-- what they exceeded it before, and by one more for the type of the record that a full deque
-- pushed out. So they are exact as long as fewer than a thousand records are kept.
pub record_track-Exceeds :
    (window now : ℕ) (r : BehaviorRecord) (extra : Text → ℕ) (k : Track)
    → Exceeds extra k.history k.counts
    → let k' = record_track window now r k in
      Exceeds (λ t. extra t + dropped k.history t) k'.history k'.counts
unfolding record_track
record_track-Exceeds window now r extra k h =
    prune_loop-Exceeds window now (λ t. extra t + dropped k.history t) (append_bounded k.history r)
      (count_up r.action_type k.counts)
      (record {
        distinct =
            insert-Distinct r.action_type (count_of r.action_type k.counts + 1) k.counts h.distinct;
        excess = λ t. omega (
          arith,
          h.excess t,
          count_of-count_up t r.action_type k.counts,
          tally-append_bounded t k.history r,
        );
      })

-- The calls for one agent, each with the window and its time.
unfoldable pub record_all : ℕ → List (ℕ × BehaviorRecord) → Track → Track
unfolding record_track
record_all window [] k = k
record_all window (c ∷ cs) k = record_all window cs (record_track window c.0 c.1 k)

-- A miscount is never mended: whatever is recorded later, every counter exceeds its tally by at
-- least what it did before.
pub record_all-Exceeds :
    (window : ℕ) (cs : List (ℕ × BehaviorRecord)) (extra : Text → ℕ) (k : Track)
    → Exceeds extra k.history k.counts
    → let k' = record_all window cs k in
      (more : Text → ℕ) × Exceeds more k'.history k'.counts × ((t : Text) → extra t ≤ more t)
unfolding record_all
record_all-Exceeds window [] extra k h = (extra, h, λ t. omega arith)
record_all-Exceeds window (c ∷ cs) extra k h =
    let k' = record_track window c.0 c.1 k in
    let (more, h', grows) =
      record_all-Exceeds window cs (λ t. extra t + dropped k.history t) k'
        (record_track-Exceeds window c.0 c.1 extra k h) in
    (more, h', λ t. omega (arith, grows t))
