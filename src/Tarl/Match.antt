-- ===== src/Tarl/Match.antt =====
-- `register_tarl_workflow` and `match_workflow_by_tarl` of src/trimum_core/workflow_engine.py (lines
-- 924 to 1008), and `extract_prefix` of src/trimum_core/tarl_parser.py (lines 144 to 164). The lines
-- of a text keep their ends here, which `_split_kv` strips.
use trimum.Base.{
  ℕ, Bool, true, false, ◌&&◌, Option, none, some, List, [], ◌∷◌, ◌++◌, length, ltb, if◌then◌else◌,
  Text, codes, same,
}
use trimum.Base.Dict.{Dict, lookup, insert}
use trimum.Patch.Lines.{split_lines}
use trimum.Tarl.Lines.{split_kv, parse_line, values_under}

-- What a rule asks of a key: a value, or, where the code has `None`, any key under it.
pub data Rule : Type 0 where
  exact : Text → Rule
  prefix : Rule

abbrev pub Rules : Type 0
Rules = Dict Rule

abbrev pub onto_stem : ℕ → Option Text → Option Text
onto_stem c none = none
onto_stem c (some t) = some (c ∷ t)

-- `key[:-2]`, if `key.endswith(".*")`
unfoldable pub cut_star : Text → Option Text
cut_star [] = none
cut_star (c ∷ s) =
    let rest = cut_star s in if same (c ∷ s) (codes ".*") then some [] else onto_stem c rest

abbrev pub add_rule : Text → Text → Option Text → Rules → Rules
add_rule k v none rs = insert k (exact v) rs
add_rule k v (some stem) rs = insert stem prefix rs

unfoldable pub rules_of : Dict Text → Rules → Rules
unfolding cut_star
rules_of [] rs = rs
rules_of (p ∷ d) rs = rules_of d (add_rule p.0 p.1 (cut_star p.0) rs)

unfoldable pub values_in : Text → List Text → List Text
unfolding values_under split_kv
values_in k [] = []
values_in k (l ∷ ls) = values_under k (split_kv l) ++ values_in k ls

unfoldable pub extract_prefix : Text → Text → List Text
unfolding values_in split_lines
extract_prefix text k = values_in k (split_lines text)

abbrev pub is_value : Text → Option Text → Bool
is_value v none = false
is_value v (some u) = same u v

abbrev pub is_found : List Text → Bool
is_found [] = false
is_found (_ ∷ _) = true

unfoldable pub rule_holds : Text → Text → Rule → Bool
unfolding extract_prefix parse_line
rule_holds line k (exact v) = is_value v (lookup k (parse_line line))
rule_holds line k prefix = is_found (extract_prefix line k)

unfoldable pub all_hold : Text → Rules → Bool
unfolding rule_holds
all_hold line [] = true
all_hold line (r ∷ rs) = rule_holds line r.0 r.1 && all_hold line rs

module _ {A : Type 0} where
  -- The number of rules, if all of them hold; a match of no rule never wins.
  unfoldable pub score : Text → Rules × A → ℕ
  unfolding all_hold
  score line e = if all_hold line e.0 then length e.0 else 0

  -- The loop over the workflows that are registered.
  unfoldable pub best_of : Text → List (Rules × A) → ℕ → Option A → Option A
  unfolding score
  best_of line [] n best = best
  best_of line (e ∷ es) n best =
      if ltb n (score line e)
      then best_of line es (score line e) (some e.1)
      else best_of line es n best

  unfoldable pub match_workflow_by_tarl : List (Rules × A) → Text → Option A
  unfolding best_of
  match_workflow_by_tarl es line = best_of line es 0 none

  unfoldable pub register_tarl_workflow : Text → A → List (Rules × A) → List (Rules × A)
  unfolding rules_of parse_line
  register_tarl_workflow pattern w es = es ++ (rules_of (parse_line pattern) [], w) ∷ []
