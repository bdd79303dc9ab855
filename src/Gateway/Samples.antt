-- ===== src/Gateway/Samples.antt =====
-- Sample calls of the gateway.
use trimum.Base.{Bool, true, false, Option, none, some, [], ◌∷◌, Text, codes, same}
use trimum.Base.Int.{pos}
use trimum.Approvals.Request.{returns}
use trimum.Approvals.Rules.{Table, rules, allow, Value}
use trimum.Policy
use trimum.Policy.{RiskLevel, low, medium, Action, auto, SourceType, human, Evaluation}
use trimum.Gateway
use trimum.Gateway.{
  Request, Response, Manifest, JitToken, Gateway, Config, Env, Answers, LlmAnswer, RuleAnswer,
  Identity, parts, Effect, command_of,
}
use trimum.Gateway.Run.{execute}

abbrev pub literal : Env
literal = record {
  found = same;
  search = λ i p t. returns (same p t);
  glob = same;
  resolve = λ t. parts (t ∷ []);
  reason_text = λ x. [];
  unreadable = [];
  substitutions = [];
}

abbrev pub rule_for : Text → Text → Policy.Rule
rule_for pattern action = record {
  pattern = pattern;
  source = none;
  risk = some (codes "low");
  action = some action;
}

abbrev pub config_with : Bool → Config
config_with interactive = record {
  work_dir = codes "/w";
  rules = rule_for (codes "ls") (codes "auto") ∷ rule_for (codes "mv") (codes "confirm") ∷ [];
  enable_cwd_jail = true;
  enable_credential_redact = true;
  enable_audit = true;
  enable_jit_auth = true;
  interactive = interactive;
}

abbrev pub response : Response
response = record {
  execution_id = [];
  status = codes "allowed";
  output = codes "x";
  error = [];
  exit_code = pos 0;
  risk = low;
  action = auto;
  reason = [];
  sandbox = [];
  seccomp = [];
}

abbrev pub answers_of : Table → Answers
answers_of table = record {
  execution_id = codes "e1";
  audit_id = codes "a1";
  now = 5;
  llm = LlmAnswer.off;
  rule = RuleAnswer.absent;
  identity = returns (record { cert = none; user = none; names = []; today = codes "2026" });
  threats = none;
  tool_def = none;
  isatty = true;
  allow_rules = returns table;
  approval_id = codes "r1";
  clock = 5;
  ttl = 60;
  writable = true;
  plan = (codes "off", codes "off");
  file_run = none;
  dispatch = returns response;
}

abbrev pub permissions : Gateway.Permissions
permissions = record { read = []; write = []; exec = []; deny_exec = codes "rm" ∷ [] }

abbrev pub agent : Manifest
agent = record { name = codes "coder"; permissions = permissions; work_dir = [] }

abbrev pub request_of : Text → Option Manifest → Request
request_of command m = record {
  tool = codes "shell";
  args = command ∷ [];
  agent_id = some (codes "coder");
  agent_manifest = m;
  cwd = none;
  source_type = human;
  jit_token = none;
  approval_rules = rules [];
  raw_command = [];
  skip_cwd_check = false;
  sandbox = [];
  seccomp = [];
}

abbrev pub fresh : Gateway
fresh = record {
  tokens = [];
  audit_log = [];
  audit_store = some [];
  published = none;
  monitor = none;
  denials = none;
  approvals = some (record { files = []; claims = [] });
  inputs = some (codes " Yes") ∷ [];
  trace = [];
}

abbrev pub everywhere : Table
everywhere = rules (allow (Value.text (codes "shell")) (Value.text []) ∷ [])

-- The state after a call.
abbrev pub run : Bool → Table → Text → Option Manifest → Gateway
run interactive table command m =
    (execute literal (config_with interactive) (answers_of table) (request_of command m) fresh).1
