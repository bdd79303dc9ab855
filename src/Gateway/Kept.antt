-- ===== src/Gateway/Kept.antt =====
-- Relations of states that every part of the checks of `ToolGateway.execute` of
-- src/trimum_core/tool_gateway.py (lines 547 to 895) keeps, however it ends.
use trimum.Base.{
  ◌≡◌, refl, ◌⊎◌, inl, inr, Has, codes, Bool, true, false, not, ◌&&◌, Option, none, some, List, [],
  ◌∷◌, if◌then◌else◌, Text, All,
}
use trimum.Base.Dict.{Dict}
use trimum.Approvals.Request.{returns, raises}
use trimum.Approvals.Store.{Store}
use trimum.Capability.Block.{Strictness}
use trimum.Security.Rule.{Decision, DecisionResult, request_approval}
use trimum.Policy.{RiskLevel, Action, Evaluation}
use trimum.Gateway.{Request, Response, Manifest, Gateway, JitToken, Config, Env, Answers, Threat}
use trimum.Gateway.Checks
use trimum.Gateway.Agent.{check_agent_permissions}
use trimum.Gateway.Audit.{record_audit, build_cmd_str}
use trimum.Gateway.Checks.{prompt_confirm, layer4_gateway_action}
use trimum.Gateway.Tokens.{Checked, check_jit_auth}
use trimum.Gateway.Flow.{Step, going, refused, crashed, Flow, ◌>>=◌, pure, bind_step, chain}
use trimum.Gateway.Layers
use trimum.Gateway.Layers.{
  later_layers, policy_verdict, filed, ask_of, desk_of, stop, after_prompt, by_word, demand,
  confirmed, jailed, by_policy, layer0, layer1, by_agent, layer2, by_decision, layer2_5,
  by_tightening, layer2_6, by_verdict, by_threat, layer4, by_token, with_manifest, layer3,
  with_store, file_approval, approval, checks, is_preauthorized,
}

-- The events of the denials.
abbrev pub denial_events : List Text
denial_events =
    codes "cwd_jail"
    ∷ codes "policy_denied"
    ∷ codes "security_blocked"
    ∷ codes "capability_denied"
    ∷ codes "user_cancelled"
    ∷ []

-- The event and the response of a layer that stops a call: a denial, or the wait for a token or for
-- an approval.
abbrev pub IsStop : Text → Response → Type 0
IsStop event q =
    (Has event denial_events × (q.status ≡ codes "denied"))
    ⊎ ((event ≡ codes "jit_auth") × (q.status ≡ codes "jit_required"))
    ⊎ ((event ≡ codes "approval_required") × (q.status ≡ codes "approval_required"))

-- The laws of a relation, of a state with what a part of the checks makes of it, that all keep.
pub record Keeping (c : Config) (w : Answers) (r : Request)
    (I : Gateway → Step Evaluation × Gateway → Type 0) : Type 0 where
  pub goes : (p : Evaluation) (s : Gateway) → I s (going p, s)
  pub then_state :
      (s t : Gateway) (p : Evaluation) (x : Step Evaluation × Gateway)
      → I s (going p, t)
      → I t x
      → I s x
  pub stops :
      (event : Text) (q : Response) (s : Gateway)
      → IsStop event q
      → I s (refused q, record_audit c w event r q s)
  pub audited :
      (p : Evaluation) (event : Text) (q : Response) (s : Gateway)
      → I s (going p, record_audit c w event r q s)
  pub prompted :
      (p : Evaluation) (reason : Text) (s : Gateway)
      → I s (going p, (prompt_confirm w.isatty reason s).1)
  pub with_tokens :
      (p : Evaluation) (d : Dict JitToken) (s : Gateway) → I s (going p, record s { tokens = d })
  pub crashes : (d : Dict JitToken) (s : Gateway) → I s (crashed, record s { tokens = d })
  pub with_approvals :
      (p : Evaluation) (a : Option Store) (s : Gateway) → I s (going p, record s { approvals = a })

module _ (e : Env) (c : Config) (w : Answers) (r : Request)
    (I : Gateway → Step Evaluation × Gateway → Type 0) (k : Keeping c w r I) where
  abbrev Keeps : Flow Evaluation → Type 0
  Keeps m = (s : Gateway) → I s (m s)

  bind_step-Keeps :
      (s : Gateway) (x : Step Evaluation × Gateway) (f : Evaluation → Flow Evaluation)
      → I s x
      → ((p : Evaluation) → Keeps (f p))
      → I s (bind_step x f)
  bind_step-Keeps s (going p, t) f h g = k.then_state s t p (f p t) h (g p t)
  bind_step-Keeps s (refused q, t) f h g = h
  bind_step-Keeps s (crashed, t) f h g = h

  >>=-Keeps :
      (m : Flow Evaluation) (f : Evaluation → Flow Evaluation)
      → Keeps m
      → ((p : Evaluation) → Keeps (f p))
      → Keeps (m >>= f)
  >>=-Keeps m f h g s = bind_step-Keeps s (m s) f (h s) g

  if-kept :
      (b : Bool) (s : Gateway) (x y : Step Evaluation × Gateway)
      → I s x
      → I s y
      → I s (if b then x else y)
  if-kept true s x y h g = h
  if-kept false s x y h g = g

  if-Keeps : (b : Bool) (m n : Flow Evaluation) → Keeps m → Keeps n → Keeps (if b then m else n)
  if-Keeps true m n h g = h
  if-Keeps false m n h g = g

  stop-Keeps : (event : Text) (q : Response) → IsStop event q → Keeps (stop e c w r event q)
  unfolding stop
  stop-Keeps event q h s = k.stops event q s h

  prompt-Keeps :
      (risk : RiskLevel) (p : Evaluation) (s : Gateway) (x : Bool × Gateway)
      → I s (going p, x.1)
      → I s (after_prompt e c w r risk p x)
  prompt-Keeps risk p s (true, t) h = h
  prompt-Keeps risk p s (false, t) h =
      k.then_state s t p _ h (stop-Keeps _ _ (inl (inr (inr (inr (inr (inl refl)))), refl)) t)

  pure-Keeps : (p : Evaluation) → Keeps (pure p)
  pure-Keeps p s = k.goes _ s

  demand-Keeps :
      (risk : RiskLevel) (reason : Text) (p : Evaluation) → Keeps (demand e c w r risk reason p)
  unfolding demand
  demand-Keeps risk reason p s =
      if-kept c.interactive s _ _ (prompt-Keeps risk _ s _ (k.prompted _ reason s)) (k.goes _ s)

  jailed-Keeps : (o : Option Text) (m : Flow Evaluation) → Keeps m → Keeps (jailed e c w r o m)
  jailed-Keeps none m h = h
  jailed-Keeps (some why) m h = stop-Keeps _ _ (inl (inl refl, refl))

  policy-Keeps : (p : Evaluation) → Keeps (by_policy e c w r p)
  policy-Keeps p =
      if-Keeps (Checks.is_deny p.action) _ _ (stop-Keeps _ _ (inl (inr (inl refl), refl)))
        (if-Keeps (Checks.is_confirm p.action) _ _ (demand-Keeps p.risk p.reason p) (pure-Keeps p))

  agent-Keeps : (o : Option Text) (p : Evaluation) → Keeps (by_agent e c w r o p)
  agent-Keeps none p s = k.goes _ s
  agent-Keeps (some why) p s = stop-Keeps _ _ (inl (inr (inl refl), refl)) s

  word-Keeps : (d : DecisionResult) (a : Decision) (p : Evaluation) → Keeps (by_word e c w r d a p)
  word-Keeps d Decision.allow p = pure-Keeps p
  word-Keeps d Decision.pending p = pure-Keeps p
  word-Keeps d Decision.confirm p = demand-Keeps _ _ p
  word-Keeps d Decision.deny p = stop-Keeps _ _ (inl (inr (inr (inl refl)), refl))

  decision-Keeps : (o : Option DecisionResult) (p : Evaluation) → Keeps (by_decision e c w r o p)
  decision-Keeps none p = pure-Keeps p
  decision-Keeps (some d) p = word-Keeps d d.action p

  tightening-Keeps :
      (o : Option (Strictness × Text)) (p : Evaluation) → Keeps (by_tightening e c w r o p)
  tightening-Keeps none p s = k.goes _ s
  tightening-Keeps (some (Strictness.deny, why)) p s =
      stop-Keeps _ _ (inl (inr (inr (inr (inl refl))), refl)) s
  tightening-Keeps (some (Strictness.confirm, why)) p s = demand-Keeps _ _ p s

  verdict-Keeps :
      (why : Text) (o : Option Action) (p : Evaluation) → Keeps (by_verdict e c w r why o p)
  verdict-Keeps why none p s = k.goes _ s
  verdict-Keeps why (some Action.auto) p s = k.goes _ s
  verdict-Keeps why (some Action.deny) p s = stop-Keeps _ _ (inl (inr (inr (inl refl)), refl)) s
  verdict-Keeps why (some Action.confirm) p s = demand-Keeps _ _ p s

  threat-Keeps : (o : Option Threat) (p : Evaluation) → Keeps (by_threat e c w r o p)
  threat-Keeps none p s = k.goes _ s
  threat-Keeps (some x) p s = verdict-Keeps x.reason (layer4_gateway_action x.defense) p s

  token-Keeps : (p : Evaluation) (x : Checked) (s : Gateway) → I s (by_token e c w r p s x)
  token-Keeps p (raises, d) s = k.crashes d s
  token-Keeps p (returns none, d) s = k.with_tokens _ d s
  token-Keeps p (returns (some why), d) s =
      k.then_state s (record s { tokens = d }) p _ (k.with_tokens p d s)
        (stop-Keeps _ _ (inr (inl (refl, refl))) (record s { tokens = d }))

  manifest-Keeps : (o : Option Manifest) (p : Evaluation) → Keeps (with_manifest e c w r o p)
  manifest-Keeps none p s = k.goes _ s
  manifest-Keeps (some m) p s =
      token-Keeps p (check_jit_auth e.search w.now r p.risk p.action s.tokens) s

  layer3-Keeps : (p : Evaluation) → Keeps (layer3 e c w r p)
  unfolding layer3
  layer3-Keeps p = if-Keeps c.enable_jit_auth _ _ (manifest-Keeps r.agent_manifest p) (pure-Keeps p)

  filed-Keeps : (x : Option Text × Option Store) (p : Evaluation) → Keeps (filed e c w r x p)
  filed-Keeps (id, a) p s =
      k.then_state s (record s { approvals = a }) p _ (k.with_approvals p a s)
        (stop-Keeps _ _ (inr (inr (refl, refl))) (record s { approvals = a }))

  file-Keeps : (p : Evaluation) (st : Store) → Keeps (file_approval e c w r p st)
  unfolding file_approval
  file-Keeps p st = filed-Keeps (request_approval (ask_of e c w r p) (desk_of e c w r st)) p

  store-Keeps : (o : Option Store) (p : Evaluation) → Keeps (with_store e c w r o p)
  store-Keeps none p s = k.goes _ s
  store-Keeps (some st) p s =
      if-kept (is_preauthorized e c w r) s _ _ (k.audited _ _ _ s) (file-Keeps p st s)

  approval-Keeps : (p : Evaluation) → Keeps (approval e c w r p)
  unfolding approval
  approval-Keeps p s =
      if-kept (Checks.is_confirm p.action && not c.interactive) s _ _ (store-Keeps s.approvals p s)
        (k.goes _ s)

  layer0-Keeps : (m : Flow Evaluation) → Keeps m → Keeps (layer0 e c w r m)
  unfolding layer0
  layer0-Keeps m h =
      if-Keeps (c.enable_cwd_jail && not r.skip_cwd_check) _ _
        (jailed-Keeps (Checks.check_cwd_jail e c r) m h) h

  chain-Keeps :
      (fs : List (Evaluation → Flow Evaluation))
      → All (λ f. (p : Evaluation) → Keeps (f p)) fs
      → (p : Evaluation) → Keeps (chain fs p)
  unfolding chain
  chain-Keeps [] h p = pure-Keeps p
  chain-Keeps (f ∷ fs) h p = >>=-Keeps (f p) (chain fs) (h.0 p) (chain-Keeps fs h.1)

  layer1-Keeps : Keeps (layer1 e c w r)
  unfolding layer1
  layer1-Keeps = policy-Keeps (policy_verdict e c w r)

  layer2-Keeps : (p : Evaluation) → Keeps (layer2 e c w r p)
  unfolding layer2
  layer2-Keeps = agent-Keeps (check_agent_permissions (build_cmd_str r) r.agent_manifest w.tool_def)

  layer2_5-Keeps : (p : Evaluation) → Keeps (layer2_5 e c w r p)
  unfolding layer2_5
  layer2_5-Keeps = decision-Keeps (Checks.check_security_rule w.rule)

  layer2_6-Keeps : (p : Evaluation) → Keeps (layer2_6 e c w r p)
  unfolding layer2_6
  layer2_6-Keeps p = tightening-Keeps (Checks.check_capabilities e r w.identity p.risk) p

  layer4-Keeps : (p : Evaluation) → Keeps (layer4 e c w r p)
  unfolding layer4
  layer4-Keeps = threat-Keeps (Checks.top_threat w.threats)

  pub checks-Keeps : Keeps (checks e c w r)
  unfolding checks
  checks-Keeps =
      if-Keeps (Layers.no_command e c w r) _ _ (stop-Keeps _ _ (inl (inr (inl refl), refl))) (
        layer0-Keeps _ (
          >>=-Keeps (layer1 e c w r) (chain (later_layers e c w r)) layer1-Keeps (
            chain-Keeps (later_layers e c w r) (
              layer2-Keeps,
              (
                layer2_5-Keeps,
                (layer2_6-Keeps, (layer4-Keeps, (layer3-Keeps, (approval-Keeps, tt)))),
              ),
            ))))
