-- ===== src/Security/Examples.antt =====
-- Concrete decisions of src/trimum_core/security_rule.py, policy_engine.py and
-- resource_controller.py.
use trimum.Base.{
  ◌≡◌, ◌≢◌, ◌↔◌, ◌⊎◌, refl, Bool, true, false, Option, none, some, List, [], ◌∷◌, Text, codes,
  starts_with,
}
use trimum.Approvals.Store.{Store}
use trimum.Monitor.History.{Verdict, normal, anomaly}
use trimum.Resources.{ResourceUsage, default_limits}
use trimum.Policy
use trimum.Policy.{
  RiskLevel, medium, critical, Action, SourceType, ai, FirstIsAuto, normalize_command, evaluate,
  evaluate-auto, Evaluation,
}
use trimum.Security.Rule.{
  returns, allow, confirm, DecisionResult, Call, Desk, Context, call_for, can_execute, decide_call,
  settle, merge, resources_ok,
}
use trimum.Security.Decisions.{
  IsAffordable, decided, IsFiled, settle-decide_call, decide_call-IsFiled, can_execute-allow,
}
use trimum.Security.Access.{can_access}

abbrev idle : ResourceUsage
idle = record {
  cpu_percent = 5;
  memory_mb = 100;
  io_read_bytes = 0;
  io_write_bytes = 0;
  file_writes_1m = 1;
  network_requests_1m = 0;
}

abbrev desk : Desk
desk = record {
  store = some (record { files = []; claims = [] });
  id = codes "r1";
  clock = 100;
  ttl = 300;
  writable = true;
}

abbrev call_of : Action → Verdict → Call
call_of a v = record {
  agent_id = codes "coder";
  command = codes "rm x";
  sandbox = codes "box";
  resource_ctx = [];
  evaluation = record { risk = medium; action = a; reason = codes "rule" };
  verdict = some v;
  enforced = false;
  usage = returns idle;
  given = idle;
  limits = default_limits;
}

abbrev asked : DecisionResult × Option Store
asked = merge true (call_of Action.confirm normal) desk

asked_lem : decide_call (call_of Action.confirm normal) desk ≡ returns (asked.0, asked.1)
unfolding decide_call resources_ok
asked_lem = refl

yes_allows : (settle asked.0 (some true)).action ≡ allow
unfolding merge settle
yes_allows = refl

settle-decide_call_example :
    ((call_of Action.confirm normal).evaluation.risk ≢ critical)
    × (((call_of Action.confirm normal).evaluation.action ≢ Action.deny)
        ⊎ ((call_of Action.confirm normal).verdict ≡ some anomaly))
    × IsAffordable (call_of Action.confirm normal)
    × ((asked.0.action ≡ allow) ⊎ (asked.0.action ≡ confirm) × (some true ≡ some true))
settle-decide_call_example =
    settle-decide_call (call_of Action.confirm normal) desk (some true) asked.0 asked.1 asked_lem
      yes_allows

decide_call-IsFiled_example :
    IsFiled
      (call_of Action.confirm normal)
      desk
      (record { files = []; claims = [] })
      (asked.0, asked.1)
decide_call-IsFiled_example =
    decide_call-IsFiled (call_of Action.confirm normal) desk (record { files = []; claims = [] })
      (asked.0, asked.1) refl refl asked_lem

-- A search that finds a pattern only at the start of the command.
abbrev at_start : Text → Text → Bool
at_start pattern cmd = starts_with pattern cmd

abbrev listing_rules : List Policy.Rule
listing_rules =
    record {
      pattern = codes "rm";
      source = none;
      risk = some (codes "high");
      action = some (codes "deny");
    }
    ∷ record {
      pattern = codes "ls";
      source = some (codes "ai");
      risk = some (codes "low");
      action = some (codes "auto");
    }
    ∷ []

abbrev context : Context
context = record {
  rules = listing_rules;
  monitor = some (record { window = 60; tracks = [] });
  now = 100;
  enforced = true;
  limits = [];
}

abbrev ls_call : Call
ls_call =
    call_for at_start context (codes "coder") (codes "LS  -l") (codes "box") [] (some ai)
      (returns idle) idle

can_execute-allow_example :
    (decided (
        can_execute at_start context
          (codes "coder")
          (codes "LS  -l")
          (codes "box")
          []
          (some ai)
          (returns idle)
          idle
          desk)
      ≡ some allow)
    ↔ (FirstIsAuto at_start (normalize_command (codes "LS  -l")) (some ai) listing_rules
        × (ls_call.evaluation.risk ≢ critical)
        × (ls_call.verdict ≢ some anomaly)
        × IsAffordable ls_call)
can_execute-allow_example =
    can_execute-allow at_start context (codes "coder") (codes "LS  -l") (codes "box") [] (some ai)
      (returns idle) idle desk

abbrev workflow : List Text
workflow = codes "plan" ∷ codes "code" ∷ []

abbrev read_decision : DecisionResult
read_decision =
    can_access [] (codes "plan") (codes "code") (codes "read") (codes "box") (codes "box")
