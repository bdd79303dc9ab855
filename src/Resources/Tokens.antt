-- ===== src/Resources/Tokens.antt =====
-- `TokenUsageTracker` of src/trimum_core/resource_controller.py (lines 72 to 78 and 540 to 631), for
-- one agent. Times are whole seconds, and each call is given what `time.time()` answers in it.
use Prim.Native.Nat.{max}
use trimum.Base.{
  ℕ, ◌+◌, ◌*◌, Option, none, some, List, [], ◌∷◌, ◌++◌, map, if◌then◌else◌, ◌==◌, leb,
}

pub record TokenUsage : Type 0 where
  pub prompt_tokens : ℕ
  pub completion_tokens : ℕ
  pub total_tokens : ℕ
  pub calls : ℕ

-- What the two dictionaries hold for the agent; a missing key is `none`.
pub record Slot : Type 0 where
  pub usages : Option (List TokenUsage)
  pub timestamps : Option (List ℕ)

abbrev pub no_slot : Slot
no_slot = record { usages = none; timestamps = none }

abbrev pub or_nil {ℓ} : {A : Type ℓ} → Option (List A) → List A
or_nil none = []
or_nil (some xs) = xs

abbrev pub zip : List ℕ → List TokenUsage → List (ℕ × TokenUsage)
zip [] us = []
zip (t ∷ ts) [] = []
zip (t ∷ ts) (u ∷ us) = (t, u) ∷ zip ts us

-- The entries that are at most `seconds` old.
unfoldable pub recent : ℕ → ℕ → List (ℕ × TokenUsage) → List (ℕ × TokenUsage)
recent seconds now [] = []
recent seconds now (e ∷ es) =
    if leb now (e.0 + seconds) then e ∷ recent seconds now es else recent seconds now es

-- `_entries_in_window`
unfoldable pub entries_in_window : ℕ → ℕ → Slot → List (ℕ × TokenUsage)
unfolding recent
entries_in_window minutes now s =
    recent (minutes * 60) now (zip (or_nil s.timestamps) (or_nil s.usages))

abbrev pub slot_of : List (ℕ × TokenUsage) → Slot
slot_of [] = no_slot
slot_of (e ∷ es) = record {
  usages = some (map (λ p. p.1) (e ∷ es));
  timestamps = some (map (λ p. p.0) (e ∷ es));
}

abbrev pub cleaned : ℕ → ℕ → Slot → List TokenUsage → List ℕ → Slot
cleaned seconds now s [] ts = s
cleaned seconds now s (u ∷ us) [] = s
cleaned seconds now s (u ∷ us) (t ∷ ts) = slot_of (recent seconds now (zip (t ∷ ts) (u ∷ us)))

-- `_cleanup_agent`
unfoldable pub cleanup_agent : ℕ → ℕ → Slot → Slot
unfolding recent
cleanup_agent window now s =
    cleaned (max window 30 * 60) now s (or_nil s.usages) (or_nil s.timestamps)

-- `record`
unfoldable pub record_usage : ℕ → ℕ → TokenUsage → Slot → Slot
unfolding cleanup_agent
record_usage window now u s = cleanup_agent window now (record {
  usages = some (or_nil s.usages ++ u ∷ []);
  timestamps = some (or_nil s.timestamps ++ now ∷ []);
})

-- `a or b`
abbrev pub or_nat : ℕ → ℕ → ℕ
or_nat a b = if a == 0 then b else a

abbrev pub add_usage : TokenUsage → TokenUsage → TokenUsage
add_usage r u = record {
  prompt_tokens = r.prompt_tokens + u.prompt_tokens;
  completion_tokens = r.completion_tokens + u.completion_tokens;
  total_tokens = r.total_tokens + or_nat u.total_tokens (u.prompt_tokens + u.completion_tokens);
  calls = r.calls + or_nat u.calls 1;
}

-- The loop of `get_usage`.
unfoldable pub sum_usage : TokenUsage → List (ℕ × TokenUsage) → TokenUsage
sum_usage r [] = r
sum_usage r (e ∷ es) = sum_usage (add_usage r e.1) es

abbrev pub no_usage : TokenUsage
no_usage = record { prompt_tokens = 0; completion_tokens = 0; total_tokens = 0; calls = 0 }

unfoldable pub get_usage : ℕ → ℕ → Slot → TokenUsage
unfolding entries_in_window sum_usage
get_usage window now s = sum_usage no_usage (entries_in_window window now s)

-- The calls of `record` for the agent, one after another, each with its time.
unfoldable pub record_usages : ℕ → List (ℕ × TokenUsage) → Slot → Slot
unfolding record_usage
record_usages window [] s = s
record_usages window (c ∷ cs) s = record_usages window cs (record_usage window c.0 c.1 s)
