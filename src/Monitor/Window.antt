-- ===== src/Monitor/Window.antt =====
-- The sliding window of src/trimum_core/behavior_monitor.py, and the verdict on a command.
use Prim.Native.Nat.{min}
use trimum.Base.{
  ℕ, suc, ◌+◌, ◌-◌, ◌*◌, ◌≤◌, ◌<◌, ◌≡◌, refl, ap, sym, ◌⊎◌, inl, inr, ◌≢◌, true, false, not, ◌&&◌,
  ◌==◌, List, [], ◌∷◌, ◌++◌, arith, length, if◌then◌else◌, ltb, Text, same, same_iff, any, All,
  Bool-cases,
}
use trimum.Base.Dict.{Dict, lookup}
use trimum.Monitor.History.{
  BehaviorRecord, Track, Verdict, normal, suspicious, anomaly, append_bounded, is_stale, count_down,
  prune_loop, record_track, is_burst, check_track, rate_threshold, count_up, maxlen, get_oldest,
}
use trimum.Monitor.Counts.{Exceeds, tally}

-- The records stand in the order of their times.
abbrev pub IsSorted : List BehaviorRecord → Type 0
IsSorted [] = Unit
IsSorted (r ∷ q) = All (λ p. r.timestamp ≤ p.timestamp) q × IsSorted q

-- The specification: the records that have not left the window.
unfoldable pub fresh : ℕ → ℕ → List BehaviorRecord → List BehaviorRecord
fresh window now [] = []
fresh window now (r ∷ q) =
    if is_stale window now r then fresh window now q else r ∷ fresh window now q

fresh-All :
    (window now : ℕ) (q : List BehaviorRecord)
    → All (λ p. now ≤ p.timestamp + window) q
    → fresh window now q ≡ q
unfolding fresh
fresh-All window now [] h = refl
fresh-All window now (r ∷ q) h = ground (arith, fresh-All window now q h.1)

All-later :
    (a window now : ℕ) (q : List BehaviorRecord)
    → now ≤ a + window
    → All (λ p. a ≤ p.timestamp) q
    → All (λ p. now ≤ p.timestamp + window) q
All-later a window now [] b h = tt
All-later a window now (r ∷ q) b h = (omega arith, All-later a window now q b h.1)

not_stale :
    (window now : ℕ) (r : BehaviorRecord)
    → is_stale window now r ≡ false
    → now ≤ r.timestamp + window
not_stale window now r e = ground arith

-- In order of time, the loop that stops at the first record inside the window removes exactly
-- the records outside it.
pub prune_loop-fresh :
    (window now : ℕ) (q : List BehaviorRecord) (d : Dict ℕ)
    → IsSorted q
    → (prune_loop window now q d).0 ≡ fresh window now q
unfolding prune_loop fresh
prune_loop-fresh window now [] d h = refl
prune_loop-fresh window now (r ∷ q) d h = elim (Bool-cases (is_stale window now r)) [
  | inl e ↦ rw e (prune_loop-fresh window now q (count_down r.action_type d) h.1)
  | inr e ↦ rw e (
      ap (λ p. r ∷ p)
        (sym (
          fresh-All window now q
            (All-later r.timestamp window now q (not_stale window now r e) h.0))))
]

All-fresh :
    (P : BehaviorRecord → Type 0) (window now : ℕ) (q : List BehaviorRecord)
    → All P q
    → All P (fresh window now q)
unfolding fresh
All-fresh P window now [] h = tt
All-fresh P window now (r ∷ q) h = elim (Bool-cases (is_stale window now r)) [
  | inl e ↦ rw e (All-fresh P window now q h.1)
  | inr e ↦ rw e (h.0, All-fresh P window now q h.1)
]

fresh-IsSorted :
    (window now : ℕ) (q : List BehaviorRecord) → IsSorted q → IsSorted (fresh window now q)
unfolding fresh
fresh-IsSorted window now [] h = tt
fresh-IsSorted window now (r ∷ q) h = elim (Bool-cases (is_stale window now r)) [
  | inl e ↦ rw e (fresh-IsSorted window now q h.1)
  | inr e ↦
      rw e (
        All-fresh (λ p. r.timestamp ≤ p.timestamp) window now q h.0,
        fresh-IsSorted window now q h.1,
      )
]

All-snoc :
    (P : BehaviorRecord → Type 0) (q : List BehaviorRecord) (r : BehaviorRecord)
    → All P q
    → P r
    → All P (q ++ r ∷ [])
All-snoc P [] r h k = (k, tt)
All-snoc P (p ∷ q) r h k = (h.0, All-snoc P q r h.1 k)

IsSorted-snoc :
    (q : List BehaviorRecord) (r : BehaviorRecord)
    → IsSorted q
    → All (λ p. p.timestamp ≤ r.timestamp) q
    → IsSorted (q ++ r ∷ [])
IsSorted-snoc [] r h k = (tt, tt)
IsSorted-snoc (p ∷ q) r h k = (All-snoc _ q r h.0 k.0, IsSorted-snoc q r h.1 k.1)

append_bounded-IsSorted :
    (q : List BehaviorRecord) (r : BehaviorRecord)
    → IsSorted q
    → All (λ p. p.timestamp ≤ r.timestamp) q
    → IsSorted (append_bounded q r)
unfolding append_bounded
append_bounded-IsSorted [] r h k = (tt, tt)
append_bounded-IsSorted (p ∷ q) r h k = elim (Bool-cases (ltb (length (p ∷ q)) maxlen)) [
  | inl e ↦ rw e (IsSorted-snoc (p ∷ q) r h k)
  | inr e ↦ rw e (IsSorted-snoc q r h.1 k.1)
]

-- While the clock does not run backwards, `record` keeps an agent's records in order of time, and
-- keeps of them, with the new one, exactly those inside the window.
pub record_track-fresh :
    (window : ℕ) (r : BehaviorRecord) (k : Track)
    → IsSorted k.history
    → All (λ p. p.timestamp ≤ r.timestamp) k.history
    → let k' = record_track window r.timestamp r k in
      (k'.history ≡ fresh window r.timestamp (append_bounded k.history r)) × IsSorted k'.history
unfolding record_track
record_track-fresh window r k h later =
    let q = append_bounded k.history r in
    let kept : (record_track window r.timestamp r k).history ≡ fresh window r.timestamp q =
      prune_loop-fresh window r.timestamp q (count_up r.action_type k.counts)
        (append_bounded-IsSorted k.history r h later) in
    (
      kept,
      rw kept (fresh-IsSorted window r.timestamp q (append_bounded-IsSorted k.history r h later)),
    )

-- What each verdict says of the records: an anomaly is a type that they show more than once, at
-- more than its limit in the minute; a suspicious command comes from a sandbox that none of them
-- shows, and there are some; a normal one from a sandbox that one of them shows, or there are none.
abbrev pub IsJustified : ℕ → ℕ → Text → Text → List BehaviorRecord → Verdict → Type 0
IsJustified window now t sandbox q anomaly =
    (1 < tally t q) × (rate_threshold t * min window (now - get_oldest now q) < tally t q * 60)
IsJustified window now t sandbox q suspicious =
    (q ≢ []) × (any (λ r. same sandbox r.sandbox) q ≡ false)
IsJustified window now t sandbox q normal = (q ≡ []) ⊎ (any (λ r. same sandbox r.sandbox) q ≡ true)

no_counts :
    (r : BehaviorRecord) (q : List BehaviorRecord) (d : Dict ℕ)
    → Exceeds (λ _. 0) (r ∷ q) d
    → length d ≡ 0
    → ⊥
unfolding tally lookup
no_counts r q [] h e = ground (arith, h.excess r.action_type, same_iff r.action_type r.action_type)
no_counts r q (c ∷ d) h e = omega arith

suc_ne : (n : ℕ) → (suc n == 0) ≡ false
suc_ne n = ground arith

unflagged :
    (window now : ℕ) (t sandbox : Text) (q : List BehaviorRecord) (d : Dict ℕ)
    → Exceeds (λ _. 0) q d
    → IsJustified window now t sandbox q (
        if length d == 0
        then normal
        else if not (length q == 0) && not (any (λ r. same sandbox r.sandbox) q)
        then suspicious
        else normal)
unflagged window now t sandbox [] d h = elim (Bool-cases (length d == 0)) [
  | inl e ↦ rw e (inl refl)
  | inr e ↦ rw e (inl refl)
]
unflagged window now t sandbox (r ∷ q) d h = elim (Bool-cases (length d == 0)) [
  | inl e ↦ absurd (no_counts r q d h (ground arith))
  | inr e ↦ rw e (elim (Bool-cases (any (λ p. same sandbox p.sandbox) (r ∷ q))) [
    | inl known ↦ rw (known, suc_ne (length q)) (inr known)
    | inr alien ↦ rw (alien, suc_ne (length q)) (λ n. cc, alien)
  ])
]

-- With exact counters every verdict is justified by the records.
pub check_track-IsJustified :
    (window now : ℕ) (t sandbox : Text) (k : Track)
    → Exceeds (λ _. 0) k.history k.counts
    → IsJustified window now t sandbox k.history (check_track window now t sandbox k)
unfolding check_track is_burst
check_track-IsJustified window now t sandbox k h = elim (Bool-cases (is_burst window now t k)) [
  | inl e ↦ rw e (ground (arith, h.excess t))
  | inr e ↦ rw e (unflagged window now t sandbox k.history k.counts h)
]
