-- ===== src/Gateway/Layers.antt =====
-- The checks of `ToolGateway.execute` of src/trimum_core/tool_gateway.py before the tool runs: layers
-- 0 to 4, their questions to the user, and the approvals (lines 581 to 895).
use trimum.Base.{
  ℕ, Bool, true, false, not, ◌&&◌, ◌||◌, Option, none, some, List, [], ◌∷◌, ◌++◌, if◌then◌else◌,
  Text, codes, nonempty, same,
}
use trimum.Base.Int.{pos}
use trimum.Approvals.Request.{returns, raises}
use trimum.Approvals.Rules.{match_allow_rules, preauthorized}
use trimum.Approvals.Store.{Store, Ask}
use trimum.Capability.Block.{Strictness}
use trimum.Security.Rule.{Decision, DecisionResult, Desk, request_approval}
use trimum.Policy.{RiskLevel, Action, Evaluation, evaluate, risk_of, risk_value}
use trimum.Gateway.{Request, Response, Manifest, Gateway, Config, Env, Answers, Threat, text_or}
use trimum.Gateway.Agent.{check_agent_permissions}
use trimum.Gateway.Tokens.{Checked, check_jit_auth}
use trimum.Gateway.Audit.{build_cmd_str, record_audit}
use trimum.Gateway.Flow.{Step, going, refused, crashed, Flow, ◌>>=◌, pure, chain}
use trimum.Gateway.Checks.{
  is_deny, is_confirm, check_cwd_jail, prompt_confirm, with_llm, check_security_rule,
  risk_from_decision, check_capabilities, layer4_gateway_action, top_threat,
}

-- A response that stops the call.
abbrev pub stopping : Answers → Text → Text → ℕ → RiskLevel → Action → Text → Response
stopping w status error code risk action reason = record {
  execution_id = w.execution_id;
  status = status;
  output = [];
  error = error;
  exit_code = pos code;
  risk = risk;
  action = action;
  reason = reason;
  sandbox = [];
  seccomp = [];
}

abbrev pub confirmed : Evaluation → Text → Evaluation
confirmed p reason = record p { action = Action.auto; reason = codes "User confirmed: " ++ reason }

module _ (e : Env) (c : Config) (w : Answers) (r : Request) where
  -- The response is recorded and returned.
  unfoldable pub stop : Text → Response → Flow Evaluation
  unfolding record_audit
  stop event q s = (refused q, record_audit c w event r q s)

  abbrev pub denied : Text → Text → RiskLevel → Text → Flow Evaluation
  denied event error risk reason =
      stop event (stopping w (codes "denied") error 1 risk Action.deny reason)

  abbrev pub user_cancelled : RiskLevel → Flow Evaluation
  user_cancelled risk =
      denied (codes "user_cancelled") (codes "User cancelled") risk
        (codes "User declined confirmation prompt")

  -- `_confirm_interactively`, with what follows a yes.
  abbrev pub after_prompt : RiskLevel → Evaluation → Bool × Gateway → Step Evaluation × Gateway
  after_prompt risk p (true, s) = (going p, s)
  after_prompt risk p (false, s) = user_cancelled risk s

  -- A layer asks for a confirmation.
  unfoldable pub demand : RiskLevel → Text → Evaluation → Flow Evaluation
  unfolding prompt_confirm stop
  demand risk reason p s =
      if c.interactive
      then after_prompt risk (confirmed p reason) (prompt_confirm w.isatty reason s)
      else (going (record p { action = Action.confirm; reason = reason }), s)

  abbrev pub jailed : Option Text → Flow Evaluation → Flow Evaluation
  jailed none k = k
  jailed (some why) k = denied (codes "cwd_jail") (codes "cwd jail: " ++ why) RiskLevel.high why

  abbrev pub by_policy : Evaluation → Flow Evaluation
  by_policy p =
      if is_deny p.action
      then denied (codes "policy_denied") (codes "Policy denied: " ++ p.reason) p.risk p.reason
      else if is_confirm p.action
      then demand p.risk p.reason p
      else pure p

  -- Layers 0 and 1.
  unfoldable pub layer0 : Flow Evaluation → Flow Evaluation
  unfolding check_cwd_jail
  layer0 k =
      if c.enable_cwd_jail && not r.skip_cwd_check then jailed (check_cwd_jail e c r) k else k

  unfoldable pub policy_verdict : Evaluation
  unfolding evaluate with_llm build_cmd_str
  policy_verdict = with_llm w.llm (evaluate e.found c.rules (build_cmd_str r) (some r.source_type))

  unfoldable pub layer1 : Flow Evaluation
  unfolding policy_verdict
  layer1 = by_policy policy_verdict

  abbrev pub by_agent : Option Text → Evaluation → Flow Evaluation
  by_agent none p = pure p
  by_agent (some why) p =
      denied (codes "policy_denied") (codes "Agent permission denied: " ++ why) RiskLevel.high why

  unfoldable pub layer2 : Evaluation → Flow Evaluation
  unfolding check_agent_permissions build_cmd_str
  layer2 = by_agent (check_agent_permissions (build_cmd_str r) r.agent_manifest w.tool_def)

  abbrev pub by_word : DecisionResult → Decision → Evaluation → Flow Evaluation
  by_word d Decision.deny p =
      denied (codes "security_blocked") (codes "Security rule denied: " ++ d.reason)
        (risk_from_decision d) d.reason
  by_word d Decision.confirm p =
      demand (risk_from_decision d) (codes "SecurityRule: " ++ d.reason) p
  by_word d _ p = pure p

  abbrev pub by_decision : Option DecisionResult → Evaluation → Flow Evaluation
  by_decision none p = pure p
  by_decision (some d) p = by_word d d.action p

  unfoldable pub layer2_5 : Evaluation → Flow Evaluation
  unfolding check_security_rule risk_of
  layer2_5 = by_decision (check_security_rule w.rule)

  abbrev pub by_tightening : Option (Strictness × Text) → Evaluation → Flow Evaluation
  by_tightening none p = pure p
  by_tightening (some (Strictness.deny, why)) p =
      denied (codes "capability_denied") (codes "Capability denied: " ++ why) p.risk why
  by_tightening (some (Strictness.confirm, why)) p = demand p.risk (codes "capabilities: " ++ why) p

  unfoldable pub layer2_6 : Evaluation → Flow Evaluation
  unfolding check_capabilities
  layer2_6 p = by_tightening (check_capabilities e r w.identity p.risk) p

  abbrev pub by_verdict : Text → Option Action → Evaluation → Flow Evaluation
  by_verdict why (some Action.deny) p = stop (codes "security_blocked") (
      stopping w (codes "denied") (codes "[SECURITY BLOCKED] " ++ why) 137 RiskLevel.critical
        Action.deny why)
  by_verdict why (some Action.confirm) p = demand RiskLevel.high (codes "[L4] " ++ why) p
  by_verdict why _ p = pure p

  abbrev pub by_threat : Option Threat → Evaluation → Flow Evaluation
  by_threat none p = pure p
  by_threat (some t) p = by_verdict t.reason (layer4_gateway_action t.defense) p

  unfoldable pub layer4 : Evaluation → Flow Evaluation
  unfolding layer4_gateway_action
  layer4 = by_threat (top_threat w.threats)

  -- The token table is part of the state; an exception leaves `execute`.
  abbrev pub by_token : Evaluation → Gateway → Checked → Step Evaluation × Gateway
  by_token p s (raises, d) = (crashed, record s { tokens = d })
  by_token p s (returns none, d) =
      (going (record p { action = Action.auto }), record s { tokens = d })
  by_token p s (returns (some why), d) =
      stop (codes "jit_auth")
        (stopping w (codes "jit_required") (codes "JIT authorization required: " ++ why) 1
          RiskLevel.high Action.confirm why)
        (record s { tokens = d })

  abbrev pub with_manifest : Option Manifest → Evaluation → Flow Evaluation
  with_manifest none p s = pure p s
  with_manifest (some m) p s =
      by_token p s (check_jit_auth e.search w.now r p.risk p.action s.tokens)

  unfoldable pub layer3 : Evaluation → Flow Evaluation
  unfolding check_jit_auth
  layer3 p = if c.enable_jit_auth then with_manifest r.agent_manifest p else pure p

  abbrev pub approval_error : Option Text → Text
  approval_error none = codes "approval required (approval store unavailable)"
  approval_error (some i) =
      if nonempty i
      then codes "approval required: run `trm approve " ++ (i ++ codes "`")
      else codes "approval required (approval store unavailable)"

  abbrev pub cwd_text : Text
  cwd_text = text_or c.work_dir r.cwd

  abbrev pub ask_of : Evaluation → Ask
  ask_of p = record {
    agent_id = text_or [] r.agent_id;
    tool = r.tool;
    command = build_cmd_str r;
    cwd = cwd_text;
    risk_level = risk_value p.risk;
    reason = p.reason;
  }

  unfoldable pub is_preauthorized : Bool
  unfolding preauthorized match_allow_rules
  is_preauthorized =
      preauthorized w.allow_rules r.tool cwd_text
      || match_allow_rules r.approval_rules r.tool cwd_text

  abbrev pub preauthorizing : Evaluation → Evaluation
  preauthorizing p = record p {
    action = Action.auto;
    reason = codes "[preauthorized] " ++ p.reason;
  }

  abbrev pub filed : Option Text × Option Store → Evaluation → Flow Evaluation
  filed (id, st) p s =
      stop (codes "approval_required")
        (stopping w (codes "approval_required") (approval_error id) 1 p.risk Action.confirm
          p.reason)
        (record s { approvals = st })

  abbrev pub desk_of : Store → Desk
  desk_of st = record {
    store = some st;
    id = w.approval_id;
    clock = w.clock;
    ttl = w.ttl;
    writable = w.writable;
  }

  unfoldable pub file_approval : Evaluation → Store → Flow Evaluation
  unfolding request_approval
  file_approval p st = filed (request_approval (ask_of p) (desk_of st)) p

  abbrev pub allowance : Evaluation → Response
  allowance p = stopping w (codes "allowed") [] 0 p.risk Action.auto (preauthorizing p).reason

  abbrev pub released : Evaluation → Flow Evaluation
  released p s = (
    going (preauthorizing p),
    record_audit c w (codes "approval_preauthorized") r (allowance p) s,
  )

  abbrev pub with_store : Option Store → Evaluation → Flow Evaluation
  with_store none p s = pure p s
  with_store (some st) p s = if is_preauthorized then released p s else file_approval p st s

  -- A confirmation that nobody can be asked for.
  unfoldable pub approval : Evaluation → Flow Evaluation
  unfolding is_preauthorized file_approval record_audit text_or risk_value
  approval p s =
      if is_confirm p.action && not c.interactive then with_store s.approvals p s else pure p s

  unfoldable pub no_command : Bool
  unfolding build_cmd_str
  no_command = not (nonempty (build_cmd_str r)) && same r.tool (codes "shell")

  -- What follows the policy, in this order.
  abbrev pub later_layers : List (Evaluation → Flow Evaluation)
  later_layers = layer2 ∷ layer2_5 ∷ layer2_6 ∷ layer4 ∷ layer3 ∷ approval ∷ []

  unfoldable pub checks : Flow Evaluation
  unfolding no_command layer0 layer1 layer2 layer2_5 layer2_6 layer4 layer3 approval chain
  checks =
      if no_command
      then denied (codes "policy_denied") (codes "Empty command") RiskLevel.critical
          (codes "No command provided")
      else layer0 (layer1 >>= chain later_layers)
