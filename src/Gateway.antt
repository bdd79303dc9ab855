-- ===== src/Gateway.antt =====
-- The data of src/trimum_core/tool_gateway.py: the request and the response of src/trimum_core/models.py
-- (lines 424 to 467, 547 to 600 and 684 to 693), the state of `ToolGateway` (lines 443 to 524), and
-- what the components and libraries around it answer. A tool type is its value, and times are whole
-- seconds.
use trimum.Base.{
  ℕ, Bool, true, false, Option, none, some, List, [], ◌∷◌, Text, codes, nonempty, if◌then◌else◌,
}
use trimum.Base.Dict.{Dict}
use trimum.Base.Strings.{join_spaced}
use trimum.Base.Int.{ℤ}
use trimum.Approvals.Request.{Outcome}
use trimum.Approvals.Rules.{Table}
use trimum.Approvals.Store.{Store}
use trimum.Monitor.History.{Monitor}
use trimum.Capability.Block.{RawBlock, Reason}
use trimum.Security.Rule.{DecisionResult}
use trimum.Policy
use trimum.Policy.{RiskLevel, Action, SourceType, Evaluation}
pub mod Agent
pub mod Permitted
pub mod Tokens
pub mod Audit
pub mod Flow
pub mod Checks
pub mod Layers
pub mod Run
pub mod Passed
pub mod Kept
pub mod Cleared
pub mod Started
pub mod Safety
pub mod Forward
pub mod Lifted
pub mod Once
pub mod Recorded
mod Samples
mod Examples
pub mod Merge

pub record Permissions : Type 0 where
  pub read : List Text
  pub write : List Text
  pub exec : List Text
  pub deny_exec : List Text

pub record Manifest : Type 0 where
  pub name : Text
  pub permissions : Permissions
  pub work_dir : Text

pub record Request : Type 0 where
  pub tool : Text
  pub args : List Text
  pub agent_id : Option Text
  pub agent_manifest : Option Manifest
  pub cwd : Option Text
  pub source_type : SourceType
  pub jit_token : Option Text
  pub approval_rules : Table
  pub raw_command : Text
  pub skip_cwd_check : Bool
  pub sandbox : Text
  pub seccomp : Text

pub record Response : Type 0 where
  pub execution_id : Text
  pub status : Text
  pub output : Text
  pub error : Text
  pub exit_code : ℤ
  pub risk : RiskLevel
  pub action : Action
  pub reason : Text
  pub sandbox : Text
  pub seccomp : Text

pub record JitToken : Type 0 where
  pub token : Text
  pub agent_id : Text
  pub tool : Text
  pub command : Text
  pub expires_at : ℕ
  pub granted_by : Text
  pub used : Bool

pub record AuditEvent : Type 0 where
  pub event_id : Text
  pub event_type : Text
  pub agent_id : Text
  pub agent_name : Text
  pub tool : Text
  pub command : Text
  pub risk : Text
  pub action : Text
  pub reason : Text
  pub execution_id : Text
  pub exit_code : ℤ
  pub cwd : Text
  pub source_type : Text
  pub sandbox : Text
  pub seccomp : Text
  pub timestamp : ℕ
  pub jit_token : Text

-- What a call does outside: a question to the user with its answer, and a start of the tool by its
-- own `main.py` or by the dispatcher.
pub data Effect : Type 0 where
  asked : (reason : Text) (yes : Bool) → Effect
  ran_file dispatched : Effect

-- What changes: `inputs` are the lines that the terminal will give (`none` is an end of file),
-- `published` the audit messages of the bus with their severities.
pub record Gateway : Type 0 where
  pub tokens : Dict JitToken
  pub audit_log : List AuditEvent
  pub audit_store : Option (List AuditEvent)
  pub published : Option (List (Text × Text))
  pub monitor : Option Monitor
  pub denials : Option (Dict ℕ)
  pub approvals : Option Store
  pub inputs : List (Option Text)
  pub trace : List Effect

-- The arguments of `ToolGateway` that are not components.
pub record Config : Type 0 where
  pub work_dir : Text
  pub rules : List Policy.Rule
  pub enable_cwd_jail : Bool
  pub enable_credential_redact : Bool
  pub enable_audit : Bool
  pub enable_jit_auth : Bool
  pub interactive : Bool

-- `Path(...).resolve()`: the parts of the path, or the text of the exception.
pub data Resolved : Type 0 where
  parts : List Text → Resolved
  unresolved : (error : Text) → Resolved

-- The libraries: `re.search` of the policy, of the other patterns (with `IGNORECASE` or without;
-- `raises` for a pattern that does not compile), `fnmatch`, `Path.resolve`,
-- the text of a capability's reason, and the substitutions of `_SENSITIVE_OUTPUT_PATTERNS`.
pub record Env : Type 0 where
  pub found : Text → Text → Bool
  pub search : Bool → Text → Text → Outcome Bool
  pub glob : Text → Text → Bool
  pub resolve : Text → Resolved
  pub reason_text : Reason → Text
  pub unreadable : Text
  pub substitutions : List (Text → Text)

-- The language model's check is not configured, its mode is "regex", or it is asked.
pub data LlmAnswer : Type 0 where
  off regex_only : LlmAnswer
  judged : Evaluation → LlmAnswer
  failed : LlmAnswer

-- No security rule, its decision, its error for exceeded resources, or another exception.
pub data RuleAnswer : Type 0 where
  absent : RuleAnswer
  decided : DecisionResult → RuleAnswer
  exceeded : (message : Text) → RuleAnswer
  broken : RuleAnswer

pub record Identity : Type 0 where
  pub cert : Option RawBlock
  pub user : Option RawBlock
  pub names : List Text
  pub today : Text

pub record Threat : Type 0 where
  pub defense : Text
  pub reason : Text

-- What the other components answer during one call. `threats` is `none` without a monitor,
-- `file_run` is `none` without an executor, `plan` is what the sandbox plan writes into the request.
pub record Answers : Type 0 where
  pub execution_id : Text
  pub audit_id : Text
  pub now : ℕ
  pub llm : LlmAnswer
  pub rule : RuleAnswer
  pub identity : Outcome Identity
  pub threats : Option (List Threat)
  pub tool_def : Option Text
  pub isatty : Bool
  pub allow_rules : Outcome Table
  pub approval_id : Text
  pub clock : ℕ
  pub ttl : ℕ
  pub writable : Bool
  pub plan : Text × Text
  pub file_run : Option (Outcome Response)
  pub dispatch : Outcome Response

unfoldable pub action_value : Action → Text
action_value Action.auto = codes "auto"
action_value Action.confirm = codes "confirm"
action_value Action.deny = codes "deny"

-- `text or default`, for a text that can be missing.
unfoldable pub text_or : Text → Option Text → Text
text_or d none = d
text_or d (some t) = if nonempty t then t else d

abbrev pub has_token : Option Text → Bool
has_token none = false
has_token (some t) = nonempty t

-- `" ".join(request.args) if request.args else request.raw_command`
unfoldable pub command_of : List Text → Text → Text
unfolding join_spaced
command_of [] raw = raw
command_of (a ∷ rest) raw = join_spaced (a ∷ rest)
