-- ===== src/Gateway/Run.antt =====
-- `ToolGateway.execute` of src/trimum_core/tool_gateway.py (lines 547 to 984), with `_merge_decision`
-- and `_redact_credentials` (lines 1069 to 1094 and 1606 to 1627).
use trimum.Base.{
  ℕ, not, ◌||◌, Option, none, some, List, [], ◌∷◌, ◌++◌, if◌then◌else◌, Text, codes, nonempty, same,
  ltb,
}
use trimum.Approvals.Request.{Outcome, returns, raises}
use trimum.Policy.{RiskLevel, low, medium, high, critical, Action, Evaluation}
use trimum.Gateway.{Request, Response, Gateway, Effect, Config, Env, Answers}
use trimum.Gateway.Audit.{build_cmd_str, record_audit}
use trimum.Gateway.Checks.{is_auto}
use trimum.Gateway.Flow.{Step, going, refused, crashed}
use trimum.Gateway.Layers.{checks}

-- `_RISK_RANK`
abbrev pub risk_rank : RiskLevel → ℕ
risk_rank low = 0
risk_rank medium = 1
risk_rank high = 2
risk_rank critical = 3

unfoldable pub merged_status : Text → Text → Text
unfolding same
merged_status own given = if not (nonempty own) || same own (codes "allowed") then given else own

-- An action of the response is always true.
abbrev pub merged_action : Action → Action → Action
merged_action own Action.auto = own
merged_action own given = given

abbrev pub merged_risk : RiskLevel → RiskLevel → RiskLevel
merged_risk own given = if ltb (risk_rank own) (risk_rank given) then given else own

abbrev pub or_text : Text → Text → Text
or_text own given = if nonempty own then own else given

unfoldable pub merge_decision : Response → Text → Evaluation → Response
unfolding merged_status
merge_decision q status p = record q {
  status = merged_status q.status status;
  action = merged_action q.action p.action;
  risk = merged_risk q.risk p.risk;
  reason = or_text q.reason p.reason;
}

unfoldable pub substitute : List (Text → Text) → Text → Text
substitute [] t = t
substitute (f ∷ fs) t = substitute fs (f t)

unfoldable pub redact_credentials : List (Text → Text) → Response → Response
unfolding substitute
redact_credentials fs q =
    if nonempty q.output
    then record q {
      output = substitute fs q.output;
      error = if nonempty q.error then substitute fs q.error else q.error;
    }
    else q

abbrev pub run_effect : Effect → Gateway → Gateway
run_effect x s = record s { trace = s.trace ++ x ∷ [] }

abbrev pub status_of : Evaluation → Text
status_of p = if is_auto p.action then codes "allowed" else codes "confirmed"

abbrev pub Result : Type 0
Result = Outcome Response × Gateway

module _ (e : Env) (c : Config) (w : Answers) (r : Request) where
  -- The request after the sandbox plan.
  abbrev pub planned : Request
  planned = record r { sandbox = w.plan.0; seccomp = w.plan.1 }

  -- What is returned for the response of a tool.
  unfoldable pub result_of : Evaluation → Response → Response
  unfolding merge_decision redact_credentials
  result_of p q =
      let q' = record q { execution_id = or_text q.execution_id w.execution_id } in
      let q'' = merge_decision q' (status_of p) p in
      if c.enable_credential_redact then redact_credentials e.substitutions q'' else q''

  unfoldable pub finish : Evaluation → Response → Gateway → Result
  unfolding result_of record_audit
  finish p q s =
      (returns (result_of p q), record_audit c w (codes "tool_executed") planned (result_of p q) s)

  abbrev pub on_dispatch : Evaluation → Outcome Response → Gateway → Result
  on_dispatch p raises s = (raises, s)
  on_dispatch p (returns q) s = finish p q s

  unfoldable pub run_dispatcher : Evaluation → Gateway → Result
  unfolding finish
  run_dispatcher p s = on_dispatch p w.dispatch (run_effect Effect.dispatched s)

  -- The tool's own `main.py`: when it fails, the dispatcher runs.
  abbrev pub on_file : Evaluation → Outcome Response → Gateway → Result
  on_file p (returns q) s = finish p q s
  on_file p raises s = run_dispatcher p s

  abbrev pub with_executor : Evaluation → Option Text → Option (Outcome Response) → Gateway → Result
  with_executor p none x s = run_dispatcher p s
  with_executor p (some t) none s = run_dispatcher p s
  with_executor p (some t) (some x) s = on_file p x (run_effect Effect.ran_file s)

  unfoldable pub run_tool : Evaluation → Gateway → Result
  unfolding finish run_dispatcher
  run_tool p s = with_executor p w.tool_def w.file_run s

  abbrev pub after_checks : Step Evaluation × Gateway → Result
  after_checks (going p, s) = run_tool p s
  after_checks (refused q, s) = (returns q, s)
  after_checks (crashed, s) = (raises, s)

-- `request.raw_command = cmd_str`
abbrev pub with_raw : Request → Request
with_raw r = record r { raw_command = build_cmd_str r }

unfoldable pub execute : Env → Config → Answers → Request → Gateway → Result
unfolding checks run_tool build_cmd_str
execute e c w r s = after_checks e c w (with_raw r) (checks e c w (with_raw r) s)
