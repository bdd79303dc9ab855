-- ===== src/Gateway/Cleared.antt =====
-- What `ToolGateway.execute` of src/trimum_core/tool_gateway.py (lines 547 to 984) has established
-- when it starts a tool.
use trimum.Base.{
  ℕ, ◌+◌, ◌≡◌, refl, ◌⊎◌, inl, inr, Bool, true, false, not, ◌&&◌, ◌||◌, Option, none, some, [], ◌∷◌,
  arith, Text, Bool-cases,
}
use trimum.Capability.Block.{Strictness}
use trimum.Policy.{Action, Evaluation}
use trimum.Gateway.{Request, Gateway, Config, Env, Answers}
use trimum.Gateway.Agent.{check_agent_permissions}
use trimum.Gateway.Audit.{build_cmd_str}
use trimum.Gateway.Checks.{
  is_deny, is_confirm, check_cwd_jail, check_security_rule, check_capabilities, top_threat,
}
use trimum.Gateway.Flow.{going, Flow, ◌>>=◌, chain, >>=-eq-going}
use trimum.Gateway.Layers
use trimum.Gateway.Layers.{
  no_command, jailed, layer0, policy_verdict, layer1, layer2, layer2_5, layer2_6, layer4, layer3,
  approval, later_layers, checks,
}
use trimum.Gateway.Passed.{
  one_if, answers, acted, Passed, rule_asks, rule_denies, capability_asks, capability_denies,
  threat_asks, threat_denies, policy-Passed, agent-Passed, decision-Passed, tightening-Passed,
  threat-Passed,
}

acted_all :
    (d2 d3 d4 : Bool) (a : Action)
    → is_deny a ≡ false
    → acted false d4 (acted false d3 (acted false d2 (acted false (is_confirm a) a)))
      ≡ acted false (is_confirm a || d2 || d3 || d4) Action.auto
acted_all d2 d3 d4 Action.deny h = cc
acted_all d2 d3 d4 Action.auto h = ground arith
acted_all d2 d3 d4 Action.confirm h = ground arith

pub all_acted :
    (i d2 d3 d4 : Bool) (a0 a1 a2 a3 a4 a5 : Action)
    → i ≡ false
    → is_deny a0 ≡ false
    → a1 ≡ acted i (is_confirm a0) a0
    → a2 ≡ acted i false a1
    → a3 ≡ acted i d2 a2
    → a4 ≡ acted i d3 a3
    → a5 ≡ acted i d4 a4
    → a5 ≡ acted false (is_confirm a0 || d2 || d3 || d4) Action.auto
all_acted false d2 d3 d4 a0 a1 a2 a3 a4 a5 z h e1 e2 e3 e4 e5 =
    rw (e5, e4, e3, e2, e1) (acted_all d2 d3 d4 a0 h)
all_acted true d2 d3 d4 a0 a1 a2 a3 a4 a5 z h e1 e2 e3 e4 e5 = cc

all_asked :
    (i d1 d2 d3 d4 : Bool) (n0 n1 n2 n3 n4 n5 : ℕ)
    → i ≡ true
    → n1 ≡ n0 + one_if (i && d1)
    → n2 ≡ n1 + one_if (i && false)
    → n3 ≡ n2 + one_if (i && d2)
    → n4 ≡ n3 + one_if (i && d3)
    → n5 ≡ n4 + one_if (i && d4)
    → n5 ≡ n0 + (one_if d1 + one_if d2 + one_if d3 + one_if d4)
all_asked true d1 d2 d3 d4 n0 n1 n2 n3 n4 n5 z e1 e2 e3 e4 e5 = omega (arith, e1, e2, e3, e4, e5)
all_asked false d1 d2 d3 d4 n0 n1 n2 n3 n4 n5 z e1 e2 e3 e4 e5 = cc

module _ (e : Env) (c : Config) (w : Answers) (r : Request) where
  abbrev pub rule_asks_now : Bool
  rule_asks_now = rule_asks (check_security_rule w.rule)

  abbrev pub capabilities : Option (Strictness × Text)
  capabilities = check_capabilities e r w.identity (policy_verdict e c w r).risk

  -- How many layers ask for a confirmation, and whether one does.
  abbrev pub demands : ℕ
  demands =
      one_if (is_confirm (policy_verdict e c w r).action)
      + one_if rule_asks_now
      + one_if (capability_asks capabilities)
      + one_if (threat_asks (top_threat w.threats))

  abbrev pub asked_for : Bool
  asked_for =
      is_confirm (policy_verdict e c w r).action
      || rule_asks_now
      || capability_asks capabilities
      || threat_asks (top_threat w.threats)

  -- No layer refuses the call.
  pub record Cleared : Type 0 where
    pub command : no_command e c w r ≡ false
    pub jail : ((c.enable_cwd_jail && not r.skip_cwd_check) ≡ false) ⊎ (check_cwd_jail e c r ≡ none)
    pub policy : is_deny (policy_verdict e c w r).action ≡ false
    pub agent : check_agent_permissions (build_cmd_str r) r.agent_manifest w.tool_def ≡ none
    pub rule : rule_denies (check_security_rule w.rule) ≡ false
    pub capability : capability_denies capabilities ≡ false
    pub threat : threat_denies (top_threat w.threats) ≡ false

  jailed-going :
      (o : Option Text) (m : Flow Evaluation) (p : Evaluation) (s t : Gateway)
      → jailed e c w r o m s ≡ (going p, t)
      → (o ≡ none) × (m s ≡ (going p, t))
  unfolding Layers.stop
  jailed-going none m p s t h = (refl, h)
  jailed-going (some why) m p s t h = cc

  -- The state and the values before layer 3.
  pub record Reached (s : Gateway) (p : Evaluation) (t : Gateway) : Type 0 where
    pub cleared : Cleared
    pub value : Evaluation
    pub state : Gateway
    pub risk : value.risk ≡ (policy_verdict e c w r).risk
    pub action : c.interactive ≡ false → value.action ≡ acted false asked_for Action.auto
    pub yes : c.interactive ≡ true → answers true state ≡ answers true s + demands
    pub no : answers false state ≡ answers false s
    pub approvals : state.approvals ≡ s.approvals
    pub tokens : state.tokens ≡ s.tokens
    pub rest : chain (layer3 e c w r ∷ approval e c w r ∷ []) value state ≡ (going p, t)

  layer0-going :
      (m : Flow Evaluation) (p : Evaluation) (s t : Gateway)
      → layer0 e c w r m s ≡ (going p, t)
      → (((c.enable_cwd_jail && not r.skip_cwd_check) ≡ false) ⊎ (check_cwd_jail e c r ≡ none))
        × (m s ≡ (going p, t))
  unfolding layer0
  layer0-going m p s t h = elim (Bool-cases (c.enable_cwd_jail && not r.skip_cwd_check)) [
    | inl i ↦
        let h' = rw i at h in
        let (passed, rest) = jailed-going (check_cwd_jail e c r) m p s t h' in (inr passed, rest)
    | inr i ↦ let h' = rw i at h in (inl i, h')
  ]

  checks-going :
      (p : Evaluation) (s t : Gateway)
      → checks e c w r s ≡ (going p, t)
      → (no_command e c w r ≡ false)
        × (layer0 e c w r (layer1 e c w r >>= chain (later_layers e c w r)) s ≡ (going p, t))
  unfolding checks Layers.stop
  checks-going p s t h = elim (Bool-cases (no_command e c w r)) [
    | inl i ↦ let h' = rw i at h in cc
    | inr i ↦ let h' = rw i at h in (i, h')
  ]

  -- The layers after the jail, with what each has established.
  assemble :
      (p p1 p2 p3 p4 p5 : Evaluation) (s s1 s2 s3 s4 s5 t : Gateway)
      → no_command e c w r ≡ false
      → ((c.enable_cwd_jail && not r.skip_cwd_check) ≡ false) ⊎ (check_cwd_jail e c r ≡ none)
      → (is_deny (policy_verdict e c w r).action ≡ false)
        × Passed c.interactive
            (is_confirm (policy_verdict e c w r).action)
            (policy_verdict e c w r)
            p1
            s
            s1
      → (check_agent_permissions (build_cmd_str r) r.agent_manifest w.tool_def ≡ none)
        × Passed c.interactive false p1 p2 s1 s2
      → (rule_denies (check_security_rule w.rule) ≡ false)
        × Passed c.interactive rule_asks_now p2 p3 s2 s3
      → (capability_denies (check_capabilities e r w.identity p3.risk) ≡ false)
        × Passed c.interactive
            (capability_asks (check_capabilities e r w.identity p3.risk))
            p3
            p4
            s3
            s4
      → (threat_denies (top_threat w.threats) ≡ false)
        × Passed c.interactive (threat_asks (top_threat w.threats)) p4 p5 s4 s5
      → chain (layer3 e c w r ∷ approval e c w r ∷ []) p5 s5 ≡ (going p, t)
      → Reached s p t
  assemble p p1 p2 p3 p4 p5 s s1 s2 s3 s4 s5 t command jail (policy, f1) (agent, f2) (rule, f3)
        (capability, f4) (threat, f5) rest =
      let risk3 : p3.risk ≡ (policy_verdict e c w r).risk = ground (arith, f1.0, f2.0, f3.0) in
      let capability' = rw risk3 at capability in
      let f4' : Passed c.interactive (capability_asks capabilities) p3 p4 s3 s4 = rw⁻¹ risk3 f4 in
      record {
        cleared = record {
          command = command;
          jail = jail;
          policy = policy;
          agent = agent;
          rule = rule;
          capability = capability';
          threat = threat;
        };
        value = p5;
        state = s5;
        risk = ground (arith, f4.0, f5.0);
        action = λ i.
            all_acted c.interactive rule_asks_now (capability_asks capabilities)
              (threat_asks (top_threat w.threats)) (policy_verdict e c w r).action p1.action
              p2.action p3.action p4.action p5.action i policy f1.1 f2.1 f3.1 f4'.1 f5.1;
        yes = λ i.
            all_asked c.interactive (is_confirm (policy_verdict e c w r).action) rule_asks_now
              (capability_asks capabilities) (threat_asks (top_threat w.threats)) (answers true s)
              (answers true s1) (answers true s2) (answers true s3) (answers true s4)
              (answers true s5) i f1.2 f2.2 f3.2 f4'.2 f5.2;
        no = ground (arith, f1.3, f2.3, f3.3, f4.3, f5.3);
        approvals = ground (arith, f1.4, f2.4, f3.4, f4.4, f5.4);
        tokens = ground (arith, f1.5, f2.5, f3.5, f4.5, f5.5);
        rest = rest;
      }

  pub reach : (p : Evaluation) (s t : Gateway) → checks e c w r s ≡ (going p, t) → Reached s p t
  unfolding chain layer1 layer2 layer2_5 layer2_6 layer4
  reach p s t h =
      let (command, h0) = checks-going p s t h in
      let (jail, h1) = layer0-going _ p s t h0 in
      let (p1, s1, e1, h2) = >>=-eq-going (layer1 e c w r) (chain (later_layers e c w r)) s t h1 in
      let (policy, f1) = policy-Passed e c w r _ p1 s s1 e1 in
      let (p2, s2, e2, h3) = >>=-eq-going (layer2 e c w r p1) _ s1 t h2 in
      let (agent, f2) = agent-Passed e c w r _ p1 p2 s1 s2 e2 in
      let (p3, s3, e3, h4) = >>=-eq-going (layer2_5 e c w r p2) _ s2 t h3 in
      let (rule, f3) = decision-Passed e c w r (check_security_rule w.rule) p2 p3 s2 s3 e3 in
      let (p4, s4, e4, h5) = >>=-eq-going (layer2_6 e c w r p3) _ s3 t h4 in
      let (capability, f4) =
        tightening-Passed e c w r (check_capabilities e r w.identity p3.risk) p3 p4 s3 s4 e4 in
      let (p5, s5, e5, h6) = >>=-eq-going (layer4 e c w r p4) _ s4 t h5 in
      let (threat, f5) = threat-Passed e c w r (top_threat w.threats) p4 p5 s4 s5 e5 in
      assemble p p1 p2 p3 p4 p5 s s1 s2 s3 s4 s5 t command jail (policy, f1) (agent, f2) (rule, f3)
        (capability, f4) (threat, f5) h6
