-- ===== src/Monitor/History.antt =====
-- `BehaviorMonitor` of src/trimum_core/behavior_monitor.py (lines 60 to 261). Times are whole
-- seconds, and `now` is what `time.time()` answers during a call. A rate is compared without
-- dividing: `count / (elapsed / 60) > limit` is `limit * elapsed < count * 60`.
use Prim.Native.Nat.{min}
use trimum.Base.{
  ℕ, ◌+◌, ◌-◌, ◌*◌, Bool, not, ◌&&◌, Option, none, some, List, [], ◌∷◌, ◌++◌, length, drop, any,
  if◌then◌else◌, ◌==◌, ltb, leb, Text, codes, same, nonempty,
}
use trimum.Base.Dict.{Dict, lookup, insert, erase}
use trimum.Monitor.Commands.{classify_command}

pub record BehaviorRecord : Type 0 where
  pub action_type : Text
  pub target : Text
  pub sandbox : Text
  pub timestamp : ℕ

-- What the monitor keeps for one agent.
pub record Track : Type 0 where
  pub history : List BehaviorRecord
  pub counts : Dict ℕ
  pub targets : List Text

pub record Monitor : Type 0 where
  pub window : ℕ
  pub tracks : Dict Track

abbrev pub empty_track : Track
empty_track = record { history = []; counts = []; targets = [] }

abbrev pub or_zero : Option ℕ → ℕ
or_zero none = 0
or_zero (some n) = n

abbrev pub or_empty : Option Track → Track
or_empty none = empty_track
or_empty (some t) = t

abbrev pub count_of : Text → Dict ℕ → ℕ
count_of t d = or_zero (lookup t d)

abbrev pub track_of : Text → Monitor → Track
track_of a m = or_empty (lookup a m.tracks)

abbrev pub maxlen : ℕ
maxlen = 1000

-- `append` of a deque with a bound: a full one drops its oldest entry.
unfoldable pub append_bounded : List BehaviorRecord → BehaviorRecord → List BehaviorRecord
append_bounded q r = if ltb (length q) maxlen then q ++ r ∷ [] else drop 1 q ++ r ∷ []

-- `self._action_counts[agent_id][action_type] += 1`
unfoldable pub count_up : Text → Dict ℕ → Dict ℕ
count_up t d = insert t (count_of t d + 1) d

-- The decrement of `_prune`, and the deletion at zero.
unfoldable pub count_down : Text → Dict ℕ → Dict ℕ
count_down t d = let n = count_of t d - 1 in if n == 0 then erase t d else insert t n d

-- `set.add`
abbrev pub add_target : Text → List Text → List Text
add_target t ts = if any (same t) ts then ts else ts ++ t ∷ []

-- `timestamp < now - window`
abbrev pub is_stale : ℕ → ℕ → BehaviorRecord → Bool
is_stale window now r = ltb (r.timestamp + window) now

-- The `while` loop of `_prune`, on the queue and the counters.
unfoldable pub prune_loop : ℕ → ℕ → List BehaviorRecord → Dict ℕ → List BehaviorRecord × Dict ℕ
unfolding count_down
prune_loop window now [] d = ([], d)
prune_loop window now (r ∷ q) d =
    if is_stale window now r
    then prune_loop window now q (count_down r.action_type d)
    else (r ∷ q, d)

unfoldable pub prune : ℕ → ℕ → Track → Track
unfolding prune_loop
prune window now t =
    let (q, d) = prune_loop window now t.history t.counts in record t { history = q; counts = d }

unfoldable pub record_track : ℕ → ℕ → BehaviorRecord → Track → Track
unfolding append_bounded count_up prune
record_track window now r t = prune window now (record {
  history = append_bounded t.history r;
  counts = count_up r.action_type t.counts;
  targets = if nonempty r.target then add_target r.target t.targets else t.targets;
})

-- `record`, with the time at which it is called.
unfoldable pub record_action : ℕ → Text → Text → Text → Text → Monitor → Monitor
unfolding record_track
record_action now agent action_type target sandbox m =
    let r : BehaviorRecord = record {
      action_type = action_type;
      target = target;
      sandbox = sandbox;
      timestamp = now;
    } in
    record m { tracks = insert agent (record_track m.window now r (track_of agent m)) m.tracks }

unfoldable pub record_command : ℕ → Text → Text → Text → Monitor → Text × Monitor
unfolding record_action
record_command now agent command sandbox m =
    let action_type = classify_command command in
    (action_type, record_action now agent action_type command sandbox m)

unfoldable pub get_oldest : ℕ → List BehaviorRecord → ℕ
get_oldest now [] = now
get_oldest now (r ∷ _) = r.timestamp

-- `_get_rate_threshold`
unfoldable pub rate_threshold : Text → ℕ
rate_threshold t =
    if same t (codes "file_write")
    then 30
    else if same t (codes "file_delete")
    then 20
    else if same t (codes "network_request")
    then 20
    else if same t (codes "network_remote")
    then 5
    else if same t (codes "disk_write")
    then 2
    else if same t (codes "container")
    then 5
    else if same t (codes "process_kill")
    then 10
    else 40

-- `_get_action_rate(...)` is there and above the threshold.
unfoldable pub is_burst : ℕ → ℕ → Text → Track → Bool
unfolding get_oldest rate_threshold
is_burst window now t k =
    let count = count_of t k.counts in
    let elapsed = min window (now - get_oldest now k.history) in
    not (leb count 1) && not (elapsed == 0) && ltb (rate_threshold t * elapsed) (count * 60)

pub data Verdict : Type 0 where
  normal suspicious anomaly : Verdict

unfoldable pub check_track : ℕ → ℕ → Text → Text → Track → Verdict
unfolding is_burst
check_track window now t sandbox k =
    if is_burst window now t k
    then anomaly
    else if length k.counts == 0
    then normal
    else if not (length k.history == 0) && not (any (λ r. same sandbox r.sandbox) k.history)
    then suspicious
    else normal

unfoldable pub check_command : ℕ → Text → Text → Text → Monitor → Verdict
unfolding check_track
check_command now agent command sandbox m =
    check_track m.window now (classify_command command) sandbox (track_of agent m)
