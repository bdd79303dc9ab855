-- ===== src/Gateway/Checks.antt =====
-- The checks that `ToolGateway.execute` of src/trimum_core/tool_gateway.py calls: the jail (lines 1260
-- to 1310), the question to the user (1468 to 1522), the language model, the security rule and the
-- capabilities (639 to 666 and 1096 to 1171), and `layer4_gateway_action` (408 to 421).
use trimum.Base.{
  Bool, true, false, ◌&&◌, Option, none, some, List, [], ◌∷◌, ◌++◌, if◌then◌else◌, Text, codes,
  nonempty, member, same,
}
use trimum.Base.Strings.{lower, strip}
use trimum.Approvals.Request.{Outcome, returns, raises}
use trimum.Capability.Block.{Strictness, Tightening}
use trimum.Capability.Sources.{tighten}
use trimum.Security.Rule.{Decision, DecisionResult, plain}
use trimum.Policy.{RiskLevel, Action, Evaluation, risk_of, risk_value}
use trimum.Gateway.{
  Request, Manifest, Gateway, Effect, Config, Env, LlmAnswer, RuleAnswer, Resolved, Identity,
  Threat, parts, unresolved, text_or,
}
use trimum.Gateway.Audit.{agent_or_unknown}

abbrev pub is_deny : Action → Bool
is_deny Action.deny = true
is_deny _ = false

abbrev pub is_auto : Action → Bool
is_auto Action.auto = true
is_auto _ = false

abbrev pub is_confirm : Action → Bool
is_confirm Action.confirm = true
is_confirm _ = false

-- The tools that need no directory.
abbrev pub skip_tools : List Text
skip_tools =
    codes "knowledge.search"
    ∷ codes "knowledge.store"
    ∷ codes "notification"
    ∷ codes "notification.send"
    ∷ codes "mcp.tools.list"
    ∷ codes "mcp.tools.call"
    ∷ codes "custom"
    ∷ codes "shell"
    ∷ codes "browser"
    ∷ []

-- `resolved_cwd.relative_to(resolved_work)` does not raise.
unfoldable pub is_below : List Text → List Text → Bool
unfolding same
is_below ps [] = true
is_below [] (q ∷ qs) = false
is_below (p ∷ ps) (q ∷ qs) = same p q && is_below ps qs

abbrev pub outside : Text → Text → Text
outside cwd work =
    codes "cwd '" ++ (cwd ++ (codes "' is outside allowed work directory '" ++ (work ++ codes "'")))

abbrev pub path_error : Text → Option Text
path_error e = some (codes "Path resolution error: " ++ e)

abbrev pub compare_paths : Text → Text → Resolved → Resolved → Option Text
compare_paths cwd work (unresolved e) _ = path_error e
compare_paths cwd work (parts _) (unresolved e) = path_error e
compare_paths cwd work (parts ps) (parts qs) =
    if is_below ps qs then none else some (outside cwd work)

abbrev pub work_dir_of : Option Manifest → Text → Text
work_dir_of none work = work
work_dir_of (some m) work = if nonempty m.work_dir then m.work_dir else work

unfoldable pub check_cwd_jail : Env → Config → Request → Option Text
unfolding text_or is_below
check_cwd_jail e c r =
    let work = work_dir_of r.agent_manifest c.work_dir in
    let cwd = text_or work r.cwd in
    if member r.tool skip_tools
    then none
    else compare_paths cwd work (e.resolve cwd) (e.resolve work)

-- `_read_confirm`
unfoldable pub read_confirm : Bool → List (Option Text) → Bool × List (Option Text)
unfolding lower strip
read_confirm false lines = (false, lines)
read_confirm true [] = (false, [])
read_confirm true (none ∷ lines) = (false, lines)
read_confirm true (some t ∷ lines) =
    (member (lower (strip t)) (codes "y" ∷ codes "yes" ∷ []), lines)

-- `_prompt_confirm`
unfoldable pub prompt_confirm : Bool → Text → Gateway → Bool × Gateway
unfolding read_confirm
prompt_confirm isatty reason s =
    let (answer, lines) = read_confirm isatty s.inputs in
    (answer, record s { inputs = lines; trace = s.trace ++ Effect.asked reason answer ∷ [] })

unfoldable pub with_llm : LlmAnswer → Evaluation → Evaluation
with_llm (LlmAnswer.judged v) p = if is_deny p.action then p else v
with_llm _ p = p

unfoldable pub check_security_rule : RuleAnswer → Option DecisionResult
check_security_rule RuleAnswer.absent = none
check_security_rule (RuleAnswer.decided d) = some d
check_security_rule (RuleAnswer.exceeded m) = some (plain Decision.deny m (codes "high"))
check_security_rule RuleAnswer.broken = none

abbrev pub risk_from_decision : DecisionResult → RiskLevel
risk_from_decision d = risk_of (some d.risk_level)

-- The strictness and the reason of a tightening; what cannot be read asks for a confirmation.
abbrev pub tightening_of : Env → Option Tightening → Option (Strictness × Text)
tightening_of e none = none
tightening_of e (some t) = some (t.action, e.reason_text t.reason)

unfoldable pub check_capabilities :
    Env → Request → Outcome Identity → RiskLevel → Option (Strictness × Text)
unfolding tighten risk_value text_or
check_capabilities e r raises risk = some (Strictness.confirm, e.unreadable)
check_capabilities e r (returns i) risk = tightening_of e (
    tighten e.glob (record { tool = r.tool; risk = risk_value risk; now = i.today })
      (agent_or_unknown r) i.cert i.user i.names)

unfoldable pub layer4_gateway_action : Text → Option Action
unfolding same
layer4_gateway_action d =
    if member d (codes "deny" ∷ codes "kill" ∷ codes "freeze" ∷ codes "isolate" ∷ [])
    then some Action.deny
    else if same d (codes "confirm")
    then some Action.confirm
    else none

abbrev pub top_threat : Option (List Threat) → Option Threat
top_threat none = none
top_threat (some []) = none
top_threat (some (t ∷ ts)) = some t
