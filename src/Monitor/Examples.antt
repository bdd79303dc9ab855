-- ===== src/Monitor/Examples.antt =====
-- Concrete calls of src/trimum_core/behavior_monitor.py.
use trimum.Base.{ℕ, ◌+◌, ◌≡◌, refl, [], ◌∷◌, Text, codes, arith, same}
use trimum.Base.Dict.{lookup}
use trimum.Monitor.Commands.{classify_command}
use trimum.Monitor.History.{
  BehaviorRecord, Track, anomaly, count_of, record_track, rate_threshold, check_track, get_oldest,
  is_burst,
}
use trimum.Monitor.Counts.{Exceeds, tally, dropped, record_track-Exceeds}

abbrev delete_at : ℕ → BehaviorRecord
delete_at t = record {
  action_type = codes "file_delete";
  target = codes "rm x";
  sandbox = codes "box";
  timestamp = t;
}

abbrev two_deletes : Track
two_deletes = record {
  history = delete_at 100 ∷ delete_at 101 ∷ [];
  counts = (codes "file_delete", 2) ∷ [];
  targets = codes "rm x" ∷ [];
}

two_deletes-Exceeds : Exceeds (λ _. 0) two_deletes.history two_deletes.counts
unfolding lookup tally
two_deletes-Exceeds = record { distinct = (refl, tt); excess = λ t. deletes t }
  where
    deletes : (t : Text) → count_of t two_deletes.counts ≡ tally t two_deletes.history + 0
    deletes t = ground arith

record_track-Exceeds_example :
    Exceeds
      (λ t. 0 + dropped two_deletes.history t)
      (record_track 60 161 (delete_at 161) two_deletes).history
      (record_track 60 161 (delete_at 161) two_deletes).counts
record_track-Exceeds_example =
    record_track-Exceeds 60 161 (delete_at 161) (λ _. 0) two_deletes two_deletes-Exceeds

-- Two deletions within three seconds are above twenty a minute.
two_deletes_verdict : check_track 60 103 (codes "file_delete") (codes "box") two_deletes ≡ anomaly
unfolding check_track is_burst rate_threshold get_oldest lookup same
two_deletes_verdict = refl

git_push : classify_command (codes "  Git push") ≡ codes "vcs_operation"
unfolding classify_command same
git_push = refl
