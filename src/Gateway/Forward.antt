-- ===== src/Gateway/Forward.antt =====
-- When `ToolGateway.execute` of src/trimum_core/tool_gateway.py (lines 547 to 984) starts a tool
-- without a user to ask.
use trimum.Base.{
  ◌≡◌, refl, ap, ◌∙◌, ◌⊎◌, inl, inr, Bool, true, false, not, ◌&&◌, Option, none, some, [], ◌∷◌,
  if◌then◌else◌, Text,
}
use trimum.Capability.Block.{Strictness}
use trimum.Security.Rule.{Decision, DecisionResult}
use trimum.Policy.{RiskLevel, Action, Evaluation}
use trimum.Gateway.{Request, Gateway, Config, Env, Answers, Threat}
use trimum.Gateway.Checks.{
  is_deny, is_confirm, check_cwd_jail, check_security_rule, check_capabilities, top_threat,
  layer4_gateway_action,
}
use trimum.Gateway.Tokens.{}
use trimum.Gateway.Flow.{going, Flow, ◌>>=◌, chain, pure, bind_step}
use trimum.Gateway.Layers.{
  no_command, demand, jailed, by_policy, by_agent, by_decision, by_word, by_tightening, by_verdict,
  by_threat, layer0, policy_verdict, layer1, layer2, layer2_5, layer2_6, layer4, layer3, approval,
  later_layers, checks,
}
use trimum.Gateway.Run.{}
use trimum.Gateway.Passed.{
  acted, decision_denies, decision_asks, rule_asks, rule_denies, capability_asks, capability_denies,
  threat_asks, threat_denies, verdict_asks, verdict_denies,
}
use trimum.Gateway.Cleared.{Cleared, all_acted, asked_for, capabilities}
use trimum.Gateway.Started.{}

pub if-false : {A : Type 0} (b : Bool) (x y : A) → b ≡ false → (if b then x else y) ≡ y
if-false true x y h = cc
if-false false x y h = refl

module _ (e : Env) (c : Config) (w : Answers) (r : Request) (i : c.interactive ≡ false) where
  -- The part goes on, with the action raised to a confirmation (`d`) or not.
  record Goes (d : Bool) (f : Flow Evaluation) (p : Evaluation) (s : Gateway) : Type 0 where
    value : Evaluation
    goes : f s ≡ (going value, s)
    risk : value.risk ≡ p.risk
    action : value.action ≡ acted false d p.action

  pure-Goes : (p : Evaluation) (s : Gateway) → Goes false (pure p) p s
  pure-Goes p s = record { value = p; goes = refl; risk = refl; action = refl }

  demand-Goes :
      (risk : RiskLevel) (reason : Text) (p : Evaluation) (s : Gateway)
      → Goes true (demand e c w r risk reason p) p s
  unfolding demand
  demand-Goes risk reason p s = record {
    value = record p { action = Action.confirm; reason = reason };
    goes = if-false c.interactive _ _ i;
    risk = refl;
    action = refl;
  }

  else-Goes :
      (d b : Bool) (m n : Flow Evaluation) (p : Evaluation) (s : Gateway)
      → b ≡ false
      → Goes d n p s
      → Goes d (if b then m else n) p s
  else-Goes d true m n p s h g = cc
  else-Goes d false m n p s h g = g

  either-Goes :
      (b : Bool) (m n : Flow Evaluation) (p : Evaluation) (s : Gateway)
      → Goes true m p s
      → Goes false n p s
      → Goes b (if b then m else n) p s
  either-Goes true m n p s h g = h
  either-Goes false m n p s h g = g

  policy-Goes :
      (p : Evaluation) (s : Gateway)
      → is_deny p.action ≡ false
      → Goes (is_confirm p.action) (by_policy e c w r p) p s
  policy-Goes p s h =
      else-Goes (is_confirm p.action) (is_deny p.action) _ _ p s h (
        either-Goes (is_confirm p.action) _ _ p s (demand-Goes p.risk p.reason p s) (pure-Goes p s))

  agent-Goes :
      (o : Option Text) (p : Evaluation) (s : Gateway)
      → o ≡ none
      → Goes false (by_agent e c w r o p) p s
  agent-Goes none p s h = pure-Goes p s
  agent-Goes (some why) p s h = cc

  word-Goes :
      (d : DecisionResult) (a : Decision) (p : Evaluation) (s : Gateway)
      → decision_denies a ≡ false
      → Goes (decision_asks a) (by_word e c w r d a p) p s
  word-Goes d Decision.allow p s h = pure-Goes p s
  word-Goes d Decision.pending p s h = pure-Goes p s
  word-Goes d Decision.confirm p s h = demand-Goes _ _ p s
  word-Goes d Decision.deny p s h = cc

  decision-Goes :
      (o : Option DecisionResult) (p : Evaluation) (s : Gateway)
      → rule_denies o ≡ false
      → Goes (rule_asks o) (by_decision e c w r o p) p s
  decision-Goes none p s h = pure-Goes p s
  decision-Goes (some d) p s h = word-Goes d d.action p s h

  tightening-Goes :
      (o : Option (Strictness × Text)) (p : Evaluation) (s : Gateway)
      → capability_denies o ≡ false
      → Goes (capability_asks o) (by_tightening e c w r o p) p s
  tightening-Goes none p s h = pure-Goes p s
  tightening-Goes (some (Strictness.deny, why)) p s h = cc
  tightening-Goes (some (Strictness.confirm, why)) p s h = demand-Goes _ _ p s

  verdict-Goes :
      (why : Text) (o : Option Action) (p : Evaluation) (s : Gateway)
      → verdict_denies o ≡ false
      → Goes (verdict_asks o) (by_verdict e c w r why o p) p s
  verdict-Goes why none p s h = pure-Goes p s
  verdict-Goes why (some Action.auto) p s h = pure-Goes p s
  verdict-Goes why (some Action.deny) p s h = cc
  verdict-Goes why (some Action.confirm) p s h = demand-Goes _ _ p s

  threat-Goes :
      (o : Option Threat) (p : Evaluation) (s : Gateway)
      → threat_denies o ≡ false
      → Goes (threat_asks o) (by_threat e c w r o p) p s
  threat-Goes none p s h = pure-Goes p s
  threat-Goes (some x) p s h = verdict-Goes x.reason (layer4_gateway_action x.defense) p s h

  capability-Goes :
      (o o' : Option (Strictness × Text)) (p : Evaluation) (s : Gateway)
      → o ≡ o'
      → capability_denies o' ≡ false
      → Goes (capability_asks o') (by_tightening e c w r o p) p s
  capability-Goes o o' p s h g = rw h (tightening-Goes o' p s g)

  bind-Goes :
      (d : Bool) (f : Flow Evaluation) (k : Evaluation → Flow Evaluation) (p : Evaluation)
      (s : Gateway) (g : Goes d f p s)
      → (f >>= k) s ≡ k g.value s
  bind-Goes d f k p s g = ap (λ x. bind_step x k) g.goes

  -- The way to layer 3.
  pub record Arrives (s : Gateway) : Type 0 where
    pub value : Evaluation
    pub risk : value.risk ≡ (policy_verdict e c w r).risk
    pub action : value.action ≡ acted false (asked_for e c w r) Action.auto
    pub arrives : checks e c w r s ≡ chain (layer3 e c w r ∷ approval e c w r ∷ []) value s

  jail-passes :
      (m : Flow Evaluation) (s : Gateway) (b : Bool) (o : Option Text)
      → (b ≡ false) ⊎ (o ≡ none)
      → (if b then jailed e c w r o m else m) s ≡ m s
  jail-passes m s false o h = refl
  jail-passes m s true none h = refl
  jail-passes m s true (some why) (inl h) = cc
  jail-passes m s true (some why) (inr h) = cc

  enter :
      (s : Gateway)
      → Cleared e c w r
      → checks e c w r s ≡ (layer1 e c w r >>= chain (later_layers e c w r)) s
  unfolding checks layer0
  enter s x =
      ap (λ (f : Flow Evaluation). f s) (if-false (no_command e c w r) _ _ x.command)
      ∙ jail-passes _ s (c.enable_cwd_jail && not r.skip_cwd_check) (check_cwd_jail e c r) x.jail

  pub arrive : (s : Gateway) → Cleared e c w r → Arrives s
  unfolding chain layer1 layer2 layer2_5 layer2_6 layer4
  arrive s x =
      let g1 = policy-Goes (policy_verdict e c w r) s x.policy in
      let g2 = agent-Goes _ g1.value s x.agent in
      let g3 = decision-Goes (check_security_rule w.rule) g2.value s x.rule in
      let risk3 : g3.value.risk ≡ (policy_verdict e c w r).risk = g3.risk ∙ (g2.risk ∙ g1.risk) in
      let g4 =
        capability-Goes (check_capabilities e r w.identity g3.value.risk) (capabilities e c w r)
          g3.value s (ap (check_capabilities e r w.identity) risk3) x.capability in
      let g5 = threat-Goes (top_threat w.threats) g4.value s x.threat in
      record {
        value = g5.value;
        risk = g5.risk ∙ (g4.risk ∙ risk3);
        action =
            all_acted false (rule_asks (check_security_rule w.rule))
              (capability_asks (capabilities e c w r)) (threat_asks (top_threat w.threats))
              (policy_verdict e c w r).action g1.value.action g2.value.action g3.value.action
              g4.value.action g5.value.action refl x.policy g1.action g2.action g3.action g4.action
              g5.action;
        arrives =
            enter s x
            ∙ (bind-Goes _ _ _ _ s g1
                ∙ (bind-Goes _ _ _ _ s g2
                    ∙ (bind-Goes _ _ _ _ s g3
                        ∙ (bind-Goes _ _ _ _ s g4 ∙ bind-Goes _ _ _ _ s g5))));
      }
