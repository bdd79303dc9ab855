-- ===== src/Gateway/Audit.antt =====
-- What `ToolGateway` records of a call: `_observe_behavior`, `_publish_audit` and `_record_audit` of
-- src/trimum_core/tool_gateway.py (lines 990 to 1062 and 1633 to 1704).
use trimum.Base.{
  ℕ, ◌-◌, Option, none, some, List, [], ◌∷◌, ◌++◌, length, drop, take, if◌then◌else◌, ltb, Text,
  codes, nonempty, member,
}
use trimum.Base.Dict.{Dict}
use trimum.Base.Strings.{join_spaced, strip}
use trimum.Monitor.History.{Monitor, record_command, count_up}
use trimum.Policy.{source_value, risk_value}
use trimum.Gateway.{
  Request, Response, Manifest, AuditEvent, Gateway, Config, Answers, action_value, text_or,
  command_of,
}

unfoldable pub build_cmd_str : Request → Text
unfolding join_spaced strip
build_cmd_str r = strip (join_spaced r.args)

abbrev pub agent_or_unknown : Request → Text
agent_or_unknown r = text_or (codes "unknown") r.agent_id

abbrev pub manifest_name : Option Manifest → Text
manifest_name none = codes "unknown"
manifest_name (some m) = m.name

abbrev pub either : Text → Text → Text
either t u = if nonempty t then t else u

abbrev pub deny_audit_events : List Text
deny_audit_events =
    codes "policy_denied"
    ∷ codes "security_blocked"
    ∷ codes "cwd_jail"
    ∷ codes "user_cancelled"
    ∷ []

abbrev pub audit_warn_events : List Text
audit_warn_events =
    codes "policy_denied" ∷ codes "security_blocked" ∷ codes "cwd_jail" ∷ codes "jit_auth" ∷ []

abbrev pub audit_max : ℕ
audit_max = 1000

-- The behaviour monitor's part of `_observe_behavior`.
unfoldable pub observe_command : ℕ → Text → Text → Text → Option Monitor → Option Monitor
unfolding record_command
observe_command now agent cmd sandbox none = none
observe_command now agent cmd sandbox (some m) =
    some (if nonempty cmd then (record_command now agent cmd sandbox m).1 else m)

-- The learning engine's part.
unfoldable pub observe_denial : Text → Text → Option (Dict ℕ) → Option (Dict ℕ)
unfolding count_up
observe_denial event agent none = none
observe_denial event agent (some d) =
    some (if member event deny_audit_events then count_up agent d else d)

unfoldable pub observe_behavior : ℕ → Text → Request → Gateway → Gateway
unfolding observe_command observe_denial build_cmd_str source_value text_or
observe_behavior now event r s = record s {
  monitor =
      observe_command now (agent_or_unknown r) (build_cmd_str r) (source_value r.source_type)
        s.monitor;
  denials = observe_denial event (agent_or_unknown r) s.denials;
}

unfoldable pub audit_event : Answers → Text → Request → Response → AuditEvent
unfolding command_of risk_value action_value source_value text_or
audit_event w event r q = record {
  event_id = w.audit_id;
  event_type = event;
  agent_id = agent_or_unknown r;
  agent_name = manifest_name r.agent_manifest;
  tool = r.tool;
  command = take 500 (command_of r.args r.raw_command);
  risk = risk_value q.risk;
  action = action_value q.action;
  reason = q.reason;
  execution_id = q.execution_id;
  exit_code = q.exit_code;
  cwd = text_or [] r.cwd;
  source_type = source_value r.source_type;
  sandbox = either q.sandbox r.sandbox;
  seccomp = either q.seccomp r.seccomp;
  timestamp = w.now;
  jit_token = text_or [] r.jit_token;
}

-- The ring in memory: the oldest events go.
unfoldable pub keep_audit : List AuditEvent → AuditEvent → List AuditEvent
keep_audit log e =
    let log' = log ++ e ∷ [] in
    if ltb audit_max (length log') then drop (length log' - audit_max) log' else log'

unfoldable pub severity_of : Text → Text
severity_of event = if member event audit_warn_events then codes "warning" else codes "info"

unfoldable pub publish_audit :
    AuditEvent → Option (List (Text × Text)) → Option (List (Text × Text))
unfolding severity_of
publish_audit e none = none
publish_audit e (some sent) =
    some (sent ++ (codes "audit." ++ e.event_type, severity_of e.event_type) ∷ [])

unfoldable pub store_event : AuditEvent → Option (List AuditEvent) → Option (List AuditEvent)
store_event e none = none
store_event e (some es) = some (es ++ e ∷ [])

abbrev pub record_event : AuditEvent → Gateway → Gateway
record_event e s = record s {
  audit_log = keep_audit s.audit_log e;
  audit_store = store_event e s.audit_store;
  published = publish_audit e s.published;
}

unfoldable pub record_audit : Config → Answers → Text → Request → Response → Gateway → Gateway
unfolding observe_behavior audit_event keep_audit store_event publish_audit
record_audit c w event r q s =
    let s' = observe_behavior w.now event r s in
    if c.enable_audit then record_event (audit_event w event r q) s' else s'
