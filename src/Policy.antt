-- ===== src/Policy.antt =====
-- `PolicyEngine.evaluate` of src/trimum_core/policy_engine.py (lines 25 to 84 and 132 to 140), on
-- the rules that the loader has read. The regular expressions of a rule are searched by Python's
-- `re`, which is the parameter `found pattern command`, case ignored, for patterns that compile: with
-- one that does not, `re.search` raises and `evaluate` with it.
use trimum.Base.{
  ◌≡◌, refl, ap, ◌↔◌, inl, inr, Bool, true, false, not, ◌&&◌, Option, none, some, List, [], ◌∷◌,
  ◌++◌, arith, if◌then◌else◌, Text, codes, same, same_iff, nonempty, All, Bool-cases,
}
use trimum.Base.Strings.{lower, split_from, join_spaced}

pub data RiskLevel : Type 0 where
  low medium high critical : RiskLevel

pub data Action : Type 0 where
  auto confirm deny : Action

pub data SourceType : Type 0 where
  human ai workflow system unknown : SourceType

unfoldable pub source_value : SourceType → Text
source_value human = codes "human"
source_value ai = codes "ai"
source_value workflow = codes "workflow"
source_value system = codes "system"
source_value unknown = codes "unknown"

unfoldable pub risk_value : RiskLevel → Text
risk_value low = codes "low"
risk_value medium = codes "medium"
risk_value high = codes "high"
risk_value critical = codes "critical"

-- A rule of the file; a missing key is `none`. A missing pattern and an empty one are the same.
pub record Rule : Type 0 where
  pub pattern : Text
  pub source : Option Text
  pub risk : Option Text
  pub action : Option Text

-- `RiskLevel(...)`, with the default for a missing key and for a text that is no level.
unfoldable pub risk_of : Option Text → RiskLevel
risk_of none = medium
risk_of (some t) =
    if same t (codes "low")
    then low
    else if same t (codes "high")
    then high
    else if same t (codes "critical")
    then critical
    else medium

unfoldable pub action_of : Option Text → Action
action_of none = confirm
action_of (some t) =
    if same t (codes "auto") then auto else if same t (codes "deny") then deny else confirm

-- The rule is for another source than the one that is given.
unfoldable pub other_source : Option Text → Option SourceType → Bool
unfolding source_value
other_source none src = false
other_source (some t) none = false
other_source (some t) (some src) = not (same t (source_value src))

abbrev pub source_name : Option SourceType → Text
source_name none = codes "none"
source_name (some src) = source_value src

pub record Evaluation : Type 0 where
  pub risk : RiskLevel
  pub action : Action
  pub reason : Text

unfoldable pub normalize_command : Text → Text
unfolding lower split_from join_spaced
normalize_command cmd = join_spaced (split_from [] (lower cmd))

unfoldable pub default_evaluation : Option SourceType → Evaluation
default_evaluation (some ai) = record {
  risk = medium;
  action = confirm;
  reason = codes "No rule matched, AI default";
}
default_evaluation _ = record {
  risk = medium;
  action = confirm;
  reason = codes "No rule matched, default";
}

unfoldable pub rule_evaluation : Rule → Option SourceType → Evaluation
unfolding risk_of action_of source_value
rule_evaluation r src = record {
  risk = risk_of r.risk;
  action = action_of r.action;
  reason =
      codes "Matched rule: " ++ (r.pattern ++ (codes " (src=" ++ (source_name src ++ codes ")")));
}

no_auto : {A : Type 0} (src : Option SourceType) → (default_evaluation src).action ≡ auto → A
unfolding default_evaluation
no_auto none h = cc
no_auto (some human) h = cc
no_auto (some ai) h = cc
no_auto (some workflow) h = cc
no_auto (some system) h = cc
no_auto (some unknown) h = cc

auto_is_auto : action_of (some (codes "auto")) ≡ auto
unfolding action_of same
auto_is_auto = refl

-- Only the text "auto" gives the automatic action.
auto_text : (o : Option Text) → action_of o ≡ auto → o ≡ some (codes "auto")
unfolding action_of
auto_text none h = cc
auto_text (some t) h = ground (arith, same_iff t (codes "auto"))

module _ (found : Text → Text → Bool) where
  -- The rule is not passed over in the loop.
  unfoldable pub applies : Text → Option SourceType → Rule → Bool
  unfolding other_source
  applies cmd src r = nonempty r.pattern && (found r.pattern cmd && not (other_source r.source src))

  unfoldable pub evaluate_rules : List Rule → Text → Option SourceType → Evaluation
  unfolding applies rule_evaluation default_evaluation
  evaluate_rules [] cmd src = default_evaluation src
  evaluate_rules (r ∷ rs) cmd src =
      if applies cmd src r then rule_evaluation r src else evaluate_rules rs cmd src

  unfoldable pub evaluate : List Rule → Text → Option SourceType → Evaluation
  unfolding evaluate_rules normalize_command
  evaluate rules command src = evaluate_rules rules (normalize_command command) src

  first_rule :
      (before after : List Rule) (r : Rule) (cmd : Text) (src : Option SourceType)
      → All (λ p. applies cmd src p ≡ false) before
      → applies cmd src r ≡ true
      → evaluate_rules (before ++ r ∷ after) cmd src ≡ rule_evaluation r src
  unfolding evaluate_rules
  first_rule [] after r cmd src h e = rw e
  first_rule (p ∷ before) after r cmd src h e = rw (h.0) (first_rule before after r cmd src h.1 e)

  -- The first rule that applies says "auto".
  abbrev pub FirstIsAuto : Text → Option SourceType → List Rule → Type 0
  FirstIsAuto cmd src rs =
      (before : List Rule) × (r : Rule) × (after : List Rule) × (rs ≡ before ++ r ∷ after)
      × All (λ p. applies cmd src p ≡ false) before
      × (applies cmd src r ≡ true)
      × (r.action ≡ some (codes "auto"))

  auto_rule :
      (rs : List Rule) (cmd : Text) (src : Option SourceType)
      → (evaluate_rules rs cmd src).action ≡ auto
      → FirstIsAuto cmd src rs
  unfolding evaluate_rules default_evaluation rule_evaluation
  auto_rule [] cmd src h = no_auto src h
  auto_rule (r ∷ rs) cmd src h = elim (Bool-cases (applies cmd src r)) [
    | inl e ↦ ([], r, rs, refl, tt, e, auto_text r.action (rw e at h))
    | inr e ↦
        let (before, q, after, split, passed, hit, named) = auto_rule rs cmd src (rw e at h) in
        (r ∷ before, q, after, ap (λ l. r ∷ l) split, (e, passed), hit, named)
  ]

  -- A command is automatic exactly when the first rule that applies to its normal form says so:
  -- with no such rule, or with an action that is no known word, it is never automatic.
  pub evaluate-auto :
      (rules : List Rule) (command : Text) (src : Option SourceType)
      → ((evaluate rules command src).action ≡ auto)
        ↔ FirstIsAuto (normalize_command command) src rules
  unfolding evaluate rule_evaluation
  evaluate-auto rules command src = (
    auto_rule rules (normalize_command command) src,
    λ (before, r, after, split, passed, hit, named).
        rw (split, first_rule before after r (normalize_command command) src passed hit, named)
          auto_is_auto,
  )
