-- ===== src/Gateway/Passed.antt =====
-- What the layers of src/trimum_core/tool_gateway.py (lines 581 to 815) have established when they
-- let a call go on.
use trimum.Base.{
  ℕ, ◌+◌, ◌≡◌, refl, inl, inr, Bool, true, false, not, ◌&&◌, Option, none, some, List, [], ◌∷◌,
  ◌++◌, arith, Text, Bool-cases,
}
use trimum.Capability.Block.{Strictness}
use trimum.Security.Rule.{Decision, DecisionResult}
use trimum.Policy.{RiskLevel, Action, Evaluation}
use trimum.Gateway.{Request, Gateway, Effect, Config, Env, Answers, Threat}
use trimum.Gateway.Checks.{is_deny, is_confirm, prompt_confirm, layer4_gateway_action}
use trimum.Gateway.Flow.{going, pure}
use trimum.Gateway.Layers
use trimum.Gateway.Layers.{
  after_prompt, demand, confirmed, by_policy, policy_verdict, layer1, by_agent, layer2, by_decision,
  layer2_5, by_tightening, layer2_6, by_verdict, by_threat, layer4,
}

abbrev pub one_if : Bool → ℕ
one_if true = 1
one_if false = 0

unfoldable pub count : (Effect → Bool) → List Effect → ℕ
count f [] = 0
count f (x ∷ xs) = one_if (f x) + count f xs

pub count-snoc :
    (f : Effect → Bool) (xs : List Effect) (x : Effect)
    → count f (xs ++ x ∷ []) ≡ count f xs + one_if (f x)
unfolding count
count-snoc f [] x = ground arith
count-snoc f (y ∷ xs) x = ground (arith, count-snoc f xs x)

-- A question with this answer.
abbrev pub is_answer : Bool → Effect → Bool
is_answer b (Effect.asked why true) = b
is_answer b (Effect.asked why false) = not b
is_answer b _ = false

abbrev pub is_start : Effect → Bool
is_start (Effect.asked why b) = false
is_start _ = true

-- How often the user has said yes or no, and how often a tool was started.
abbrev pub answers : Bool → Gateway → ℕ
answers b s = count (is_answer b) s.trace

abbrev pub starts : Gateway → ℕ
starts s = count is_start s.trace

-- The action after a layer that asks for a confirmation, or does not.
abbrev pub acted : Bool → Bool → Action → Action
acted interactive false a = a
acted true true a = Action.auto
acted false true a = Action.confirm

-- The layer has asked for a confirmation (`d`) or not, and went on with `p'` in the state `t`.
abbrev pub Passed : Bool → Bool → Evaluation → Evaluation → Gateway → Gateway → Type 0
Passed i d p p' s t =
    (p'.risk ≡ p.risk)
    × (p'.action ≡ acted i d p.action)
    × (answers true t ≡ answers true s + one_if (i && d))
    × (answers false t ≡ answers false s)
    × (t.approvals ≡ s.approvals)
    × (t.tokens ≡ s.tokens)

pure-Passed :
    (i : Bool) (p p' : Evaluation) (s t : Gateway)
    → pure p s ≡ (going p', t)
    → Passed i false p p' s t
pure-Passed true p p' s t h = ground arith
pure-Passed false p p' s t h = ground arith

-- What a layer's answer demands of the user.
abbrev pub decision_asks : Decision → Bool
decision_asks Decision.confirm = true
decision_asks _ = false

abbrev pub rule_asks : Option DecisionResult → Bool
rule_asks none = false
rule_asks (some d) = decision_asks d.action

abbrev pub capability_asks : Option (Strictness × Text) → Bool
capability_asks (some (Strictness.confirm, why)) = true
capability_asks _ = false

abbrev pub verdict_asks : Option Action → Bool
verdict_asks (some Action.confirm) = true
verdict_asks _ = false

abbrev pub threat_asks : Option Threat → Bool
threat_asks none = false
threat_asks (some t) = verdict_asks (layer4_gateway_action t.defense)

-- A layer's answer refuses the call.
abbrev pub decision_denies : Decision → Bool
decision_denies Decision.deny = true
decision_denies _ = false

abbrev pub rule_denies : Option DecisionResult → Bool
rule_denies none = false
rule_denies (some d) = decision_denies d.action

abbrev pub capability_denies : Option (Strictness × Text) → Bool
capability_denies (some (Strictness.deny, why)) = true
capability_denies _ = false

abbrev pub verdict_denies : Option Action → Bool
verdict_denies (some Action.deny) = true
verdict_denies _ = false

abbrev pub threat_denies : Option Threat → Bool
threat_denies none = false
threat_denies (some t) = verdict_denies (layer4_gateway_action t.defense)

module _ (e : Env) (c : Config) (w : Answers) (r : Request) where
  prompt-Passed :
      (x : Bool) (risk : RiskLevel) (reason : Text) (p p' : Evaluation) (s t u : Gateway)
      → u.trace ≡ s.trace ++ Effect.asked reason x ∷ []
      → u.approvals ≡ s.approvals
      → u.tokens ≡ s.tokens
      → after_prompt e c w r risk (confirmed p reason) (x, u) ≡ (going p', t)
      → Passed true true p p' s t
  unfolding Layers.stop
  prompt-Passed false risk reason p p' s t u traced same_approvals same_tokens h = cc
  prompt-Passed true risk reason p p' s t u traced same_approvals same_tokens h = ground (
    arith,
    traced,
    count-snoc (is_answer true) s.trace (Effect.asked reason true),
    count-snoc (is_answer false) s.trace (Effect.asked reason true),
  )

  demand-Passed :
      (risk : RiskLevel) (reason : Text) (p p' : Evaluation) (s t : Gateway)
      → demand e c w r risk reason p s ≡ (going p', t)
      → Passed c.interactive true p p' s t
  unfolding demand prompt_confirm
  demand-Passed risk reason p p' s t h = elim (Bool-cases c.interactive) [
    | inl i ↦
        let h' = rw i at h in
        rw i (
          prompt-Passed (prompt_confirm w.isatty reason s).0 risk reason p p' s t
            (prompt_confirm w.isatty reason s).1 refl refl refl h')
    | inr i ↦ let h' = rw i at h in rw i (ground (arith, h'))
  ]

  pub policy-Passed :
      (p p' : Evaluation) (s t : Gateway)
      → by_policy e c w r p s ≡ (going p', t)
      → (is_deny p.action ≡ false) × Passed c.interactive (is_confirm p.action) p p' s t
  unfolding Layers.stop
  policy-Passed p p' s t h = by_action p.action refl
    where
      by_action :
          (a : Action)
          → p.action ≡ a
          → (is_deny p.action ≡ false) × Passed c.interactive (is_confirm p.action) p p' s t
      by_action Action.auto i =
          let h' = rw i at h in
          rw i (refl, pure-Passed c.interactive (record p { action = Action.auto }) p' s t h')
      by_action Action.confirm i =
          let h' = rw i at h in
          rw i
            (refl, demand-Passed p.risk p.reason (record p { action = Action.confirm }) p' s t h')
      by_action Action.deny i = let h' = rw i at h in cc

  pub agent-Passed :
      (o : Option Text) (p p' : Evaluation) (s t : Gateway)
      → by_agent e c w r o p s ≡ (going p', t)
      → (o ≡ none) × Passed c.interactive false p p' s t
  unfolding Layers.stop
  agent-Passed none p p' s t h = (refl, pure-Passed c.interactive p p' s t h)
  agent-Passed (some why) p p' s t h = cc

  pub decision-Passed :
      (o : Option DecisionResult) (p p' : Evaluation) (s t : Gateway)
      → by_decision e c w r o p s ≡ (going p', t)
      → (rule_denies o ≡ false) × Passed c.interactive (rule_asks o) p p' s t
  unfolding Layers.stop
  decision-Passed none p p' s t h = (refl, pure-Passed c.interactive p p' s t h)
  decision-Passed (some d) p p' s t h = by_action d.action refl
    where
      by_action :
          (a : Decision)
          → d.action ≡ a
          → (rule_denies (some d) ≡ false) × Passed c.interactive (rule_asks (some d)) p p' s t
      by_action Decision.allow i =
          let h' = rw i at h in rw i (refl, pure-Passed c.interactive p p' s t h')
      by_action Decision.pending i =
          let h' = rw i at h in rw i (refl, pure-Passed c.interactive p p' s t h')
      by_action Decision.confirm i =
          let h' = rw i at h in rw i (refl, demand-Passed _ _ p p' s t h')
      by_action Decision.deny i = let h' = rw i at h in cc

  pub tightening-Passed :
      (o : Option (Strictness × Text)) (p p' : Evaluation) (s t : Gateway)
      → by_tightening e c w r o p s ≡ (going p', t)
      → (capability_denies o ≡ false) × Passed c.interactive (capability_asks o) p p' s t
  unfolding Layers.stop
  tightening-Passed none p p' s t h = (refl, pure-Passed c.interactive p p' s t h)
  tightening-Passed (some (Strictness.deny, why)) p p' s t h = cc
  tightening-Passed (some (Strictness.confirm, why)) p p' s t h =
      (refl, demand-Passed p.risk _ p p' s t h)

  verdict-Passed :
      (why : Text) (o : Option Action) (p p' : Evaluation) (s t : Gateway)
      → by_verdict e c w r why o p s ≡ (going p', t)
      → (verdict_denies o ≡ false) × Passed c.interactive (verdict_asks o) p p' s t
  unfolding Layers.stop
  verdict-Passed why none p p' s t h = (refl, pure-Passed c.interactive p p' s t h)
  verdict-Passed why (some Action.auto) p p' s t h = (refl, pure-Passed c.interactive p p' s t h)
  verdict-Passed why (some Action.deny) p p' s t h = cc
  verdict-Passed why (some Action.confirm) p p' s t h =
      (refl, demand-Passed RiskLevel.high _ p p' s t h)

  pub threat-Passed :
      (o : Option Threat) (p p' : Evaluation) (s t : Gateway)
      → by_threat e c w r o p s ≡ (going p', t)
      → (threat_denies o ≡ false) × Passed c.interactive (threat_asks o) p p' s t
  threat-Passed none p p' s t h = (refl, pure-Passed c.interactive p p' s t h)
  threat-Passed (some x) p p' s t h =
      verdict-Passed x.reason (layer4_gateway_action x.defense) p p' s t h
