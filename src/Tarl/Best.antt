-- ===== src/Tarl/Best.antt =====
-- Which workflow `match_workflow_by_tarl` of src/trimum_core/workflow_engine.py (lines 965 to 1008)
-- picks.
use trimum.Base.{
  length, ℕ, ◌≡◌, ◌≤◌, ◌<◌, ◌≢◌, ◌↔◌, refl, ◌⊎◌, inl, inr, Option, none, some, List, [], ◌∷◌, ◌++◌,
  ltb, All, Has, Text, arith, Bool-cases, same_iff, true,
}
use trimum.Base.Dict.{lookup}
use trimum.Tarl.Lines.{parse_line}
use trimum.Tarl.Match.{
  Rule, exact, prefix, Rules, rules_of, is_value, is_found, extract_prefix, rule_holds, all_hold,
  score, best_of, match_workflow_by_tarl, register_tarl_workflow,
}

-- What a line is asked: to have this value under a key, or some field with the key.
abbrev pub Holds : Text → Text × Rule → Type 0
Holds line (k, exact v) = lookup k (parse_line line) ≡ some v
Holds line (k, prefix) = (v : Text) × (vs : List Text) × (extract_prefix line k ≡ v ∷ vs)

-- Each rule holds of the line.
abbrev pub AllHold : Text → Rules → Type 0
AllHold line rs = All (Holds line) rs

rule_holds_iff : (line k : Text) (r : Rule) → (rule_holds line k r ≡ true) ↔ Holds line (k, r)
unfolding rule_holds
rule_holds_iff line k (exact v) = value (lookup k (parse_line line))
  where
    value : (o : Option Text) → (is_value v o ≡ true) ↔ (o ≡ some v)
    value none = (λ h. cc, λ h. cc)
    value (some u) = ground (arith, same_iff u v)
rule_holds_iff line k prefix = found (extract_prefix line k)
  where
    found :
        (vs : List Text) → (is_found vs ≡ true) ↔ ((w : Text) × (ws : List Text) × (vs ≡ w ∷ ws))
    found [] = (λ h. cc, λ (w, ws, e). cc)
    found (v ∷ vs) = (λ h. (v, vs, refl), λ h. refl)

all_hold_iff : (line : Text) (rs : Rules) → (all_hold line rs ≡ true) ↔ AllHold line rs
unfolding all_hold
all_hold_iff line [] = (λ h. tt, λ h. refl)
all_hold_iff line (r ∷ rs) =
    let (there, back) = rule_holds_iff line r.0 r.1 in
    let (later, before) = all_hold_iff line rs in
    (
      λ h. (there (ground arith), later (ground arith)),
      λ (here, rest). ground (arith, back here, before rest),
    )

module _ {A : Type 0} where
  -- No workflow has rules that all hold, or those that do have none; or one has some that all hold,
  -- and any other whose rules all hold has no more of them.
  abbrev pub IsBest : Text → List (Rules × A) → Option A → Type 0
  IsBest line es none = All (λ e. (e.0 ≡ []) ⊎ ¬ AllHold line e.0) es
  IsBest line es (some w) =
      (e : Rules × A) × Has e es
      × (e.1 ≡ w)
      × AllHold line e.0
      × (e.0 ≢ [])
      × All (λ f. (length f.0 ≤ length e.0) ⊎ ¬ AllHold line f.0) es

  score-length :
      (line : Text) (e : Rules × A)
      → (0 < score line e)
      → AllHold line e.0 × (e.0 ≢ []) × (score line e ≡ length e.0)
  unfolding score
  score-length line e h = elim (Bool-cases (all_hold line e.0)) [
    | inl q ↦ ((all_hold_iff line e.0).0 q, λ none_left. ground arith, ground arith)
    | inr q ↦ ground arith
  ]

  score_le :
      (line : Text) (f : Rules × A) (n : ℕ)
      → score line f ≤ n
      → (length f.0 ≤ n) ⊎ ¬ AllHold line f.0
  unfolding score
  score_le line f n h = elim (Bool-cases (all_hold line f.0)) [
    | inl q ↦ inl (ground arith)
    | inr q ↦ inr (λ g. let yes = (all_hold_iff line f.0).1 g in cc)
  ]

  -- What the loop picks of the workflows that are left, behind one with `n` rules.
  Picks : Text → List (Rules × A) → ℕ → Option A → Option A → Type 0
  Picks line es n best o =
      ((o ≡ best) × All (λ f. score line f ≤ n) es)
      ⊎ ((e : Rules × A) × Has e es
          × (o ≡ some e.1)
          × (n < score line e)
          × All (λ f. score line f ≤ score line e) es)

  All-le :
      (line : Text) (es : List (Rules × A)) (n k : ℕ)
      → n ≤ k
      → All (λ f. score line f ≤ n) es
      → All (λ f. score line f ≤ k) es
  All-le line [] n k h g = tt
  All-le line (e ∷ es) n k h g = (omega (arith, g.0, h), All-le line es n k h g.1)

  best_of-Picks :
      (line : Text) (es : List (Rules × A)) (n : ℕ) (best : Option A)
      → Picks line es n best (best_of line es n best)
  unfolding best_of Picks
  best_of-Picks line [] n best = inl (refl, tt)
  best_of-Picks line (e ∷ es) n best = elim (Bool-cases (ltb n (score line e))) [
    | inl h ↦ rw h (taken (ground arith) (best_of-Picks line es (score line e) (some e.1)))
    | inr h ↦ rw h (passed (ground arith) (best_of-Picks line es n best))
  ]
    where
      taken :
          n < score line e
          → Picks line es (score line e) (some e.1) (best_of line es (score line e) (some e.1))
          → Picks line (e ∷ es) n best (best_of line es (score line e) (some e.1))
      taken h (inl (q, g)) = inr (e, inl refl, q, h, (omega arith, g))
      taken h (inr (f, k, q, l, g)) = inr (f, inr k, q, omega (arith, h, l), (omega (arith, l), g))

      passed :
          score line e ≤ n
          → Picks line es n best (best_of line es n best)
          → Picks line (e ∷ es) n best (best_of line es n best)
      passed h (inl (q, g)) = inl (q, (h, g))
      passed h (inr (f, k, q, l, g)) = inr (f, inr k, q, l, (omega (arith, h, l), g))

  All-bounded :
      (line : Text) (n : ℕ) (fs : List (Rules × A))
      → All (λ f. score line f ≤ n) fs
      → All (λ f. (length f.0 ≤ n) ⊎ ¬ AllHold line f.0) fs
  All-bounded line n [] g = tt
  All-bounded line n (f ∷ fs) g = (score_le line f n g.0, All-bounded line n fs g.1)

  All-empty :
      (line : Text) (fs : List (Rules × A))
      → All (λ f. (length f.0 ≤ 0) ⊎ ¬ AllHold line f.0) fs
      → All (λ f. (f.0 ≡ []) ⊎ ¬ AllHold line f.0) fs
  All-empty line [] g = tt
  All-empty line (f ∷ fs) (inl short, g) = (inl (empty f.0 short), All-empty line fs g)
    where
      empty : (rs : Rules) → length rs ≤ 0 → rs ≡ []
      empty [] h = refl
      empty (r ∷ rs) h = absurd (omega arith)
  All-empty line (f ∷ fs) (inr fails, g) = (inr fails, All-empty line fs g)

  -- The workflow that is picked has at least one rule, its rules all hold of the line (the value or
  -- the prefix that each asks for is there), and no registered workflow whose rules all hold has
  -- more rules; none is picked when every registered workflow has no rule or a rule that does not
  -- hold, and only then.
  pub match-IsBest :
      (es : List (Rules × A)) (line : Text) → IsBest line es (match_workflow_by_tarl es line)
  unfolding match_workflow_by_tarl Picks
  match-IsBest es line = picked (best_of line es 0 none) (best_of-Picks line es 0 none)
    where
      picked : (o : Option A) → Picks line es 0 none o → IsBest line es o
      picked none (inl (q, g)) = All-empty line es (All-bounded line 0 es g)
      picked (some w) (inl (q, g)) = cc
      picked none (inr (f, k, q, l, g)) = cc
      picked (some w) (inr (f, k, q, l, g)) =
          let (holds, some_rule, same_length) = score-length line f l in
          (f, k, cc, holds, some_rule, All-bounded line (length f.0) es (rw same_length at g))

  best_of-append :
      (line : Text) (es : List (Rules × A)) (e : Rules × A) (n : ℕ) (best : Option A)
      → score line e ≡ 0
      → best_of line (es ++ e ∷ []) n best ≡ best_of line es n best
  unfolding best_of
  best_of-append line [] e n best h = ground (arith, h)
  best_of-append line (f ∷ es) e n best h = ground (
    arith,
    best_of-append line es e (score line f) (some f.1) h,
    best_of-append line es e n best h,
  )

  -- To register a workflow with a pattern from which no pair is read changes no match.
  pub register_never_fires :
      (pattern line : Text) (w : A) (es : List (Rules × A))
      → parse_line pattern ≡ []
      → match_workflow_by_tarl (register_tarl_workflow pattern w es) line
        ≡ match_workflow_by_tarl es line
  unfolding match_workflow_by_tarl register_tarl_workflow score all_hold rules_of
  register_never_fires pattern line w es h =
      best_of-append line es (rules_of (parse_line pattern) [], w) 0 none (no_rules h)
    where
      no_rules : parse_line pattern ≡ [] → score line (rules_of (parse_line pattern) [], w) ≡ 0
      no_rules h = rw h refl
