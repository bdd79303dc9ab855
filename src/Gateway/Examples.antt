-- ===== src/Gateway/Examples.antt =====
-- The theorems on the gateway at concrete calls, and tests of the definitions.
use trimum.Base.{
  ◌≡◌, refl, ◌≢◌, ◌≤◌, ◌+◌, ◌↔◌, arith, inr, true, false, none, some, List, [], ◌∷◌, codes, same,
}
use trimum.Approvals.Request.{returns}
use trimum.Approvals.Rules.{rules}
use trimum.Policy.{medium, Action}
use trimum.Gateway.{Response, JitToken, Gateway, Effect, command_of}
use trimum.Gateway.Permitted.{check_agent_permissions_iff, Permitted}
use trimum.Gateway.Agent.{check_agent_permissions}
use trimum.Gateway.Run.{execute, with_raw, result_of}
use trimum.Gateway.Passed.{starts, answers, count}
use trimum.Base.Dict.{Dict, lookup, insert, Distinct}
use trimum.Gateway.Layers.{is_preauthorized, policy_verdict, demand}
use trimum.Gateway.Checks.{check_security_rule, check_capabilities}
use trimum.Gateway.Tokens.{is_critical, deny_listed, issue_jit_token}
use trimum.Gateway.Cleared.{Cleared, demands, asked_for}
use trimum.Gateway.Started.{starts_by}
use trimum.Gateway.Safety.{execute-Cleared, execute_confirmed, execute_preauthorized}
use trimum.Gateway.Lifted.{execute_runs, execute_lifts}
use trimum.Gateway.Once.{TokenOp, acceptances, acceptances_once, credit}
use trimum.Gateway.Merge.{Keeps, result_of-Keeps}
use trimum.Gateway.Samples.{
  literal, config_with, response, answers_of, agent, request_of, fresh, everywhere, run,
}

-- A command that nobody asks about is dispatched.
dispatched_ls : (run false (rules []) (codes "ls") none).trace ≡ Effect.dispatched ∷ []
unfolding execute demand
dispatched_ls = refl

-- A confirmed command is dispatched after a yes.
dispatched_mv :
    (run true (rules []) (codes "mv") none).trace
    ≡ Effect.asked (codes "Matched rule: mv (src=human)") true ∷ Effect.dispatched ∷ []
unfolding execute demand
dispatched_mv = refl

-- With nobody to ask, it waits.
waits_mv : (run false (rules []) (codes "mv") none).trace ≡ []
unfolding execute demand
waits_mv = refl

-- The same command of an agent with a manifest runs, although nobody has confirmed it.
lifted_mv : (run false (rules []) (codes "mv") (some agent)).trace ≡ Effect.dispatched ∷ []
unfolding execute demand
lifted_mv = refl

one_start : (s : Gateway) → starts s ≡ 1 → starts s ≢ starts fresh
unfolding count
one_start s h g = ground (arith, h, g)

started_ls : starts (run false (rules []) (codes "ls") none) ≢ starts fresh
unfolding execute count
started_ls = one_start (run false (rules []) (codes "ls") none) refl

started_confirmed : starts (run true (rules []) (codes "mv") none) ≢ starts fresh
unfolding execute count demand
started_confirmed = one_start (run true (rules []) (codes "mv") none) refl

started_everywhere : starts (run false everywhere (codes "mv") none) ≢ starts fresh
unfolding execute count demand
started_everywhere = one_start (run false everywhere (codes "mv") none) refl

check_agent_permissions_iff_example :
    (check_agent_permissions (codes "ls") (some agent) none ≡ none)
    ↔ Permitted (codes "ls") agent none
check_agent_permissions_iff_example = check_agent_permissions_iff (codes "ls") agent none

execute-Cleared_example :
    Cleared literal
      (config_with false)
      (answers_of (rules []))
      (with_raw (request_of (codes "ls") none))
execute-Cleared_example =
    execute-Cleared literal (config_with false) (answers_of (rules []))
      (request_of (codes "ls") none) fresh started_ls

execute_confirmed_example :
    (answers true (run true (rules []) (codes "mv") none)
      ≡ answers true fresh
        + demands literal
            (config_with true)
            (answers_of (rules []))
            (with_raw (request_of (codes "mv") none)))
    × (answers false (run true (rules []) (codes "mv") none) ≡ answers false fresh)
execute_confirmed_example =
    execute_confirmed literal (config_with true) (answers_of (rules []))
      (request_of (codes "mv") none) fresh refl started_confirmed

asked_mv :
    asked_for literal
      (config_with false)
      (answers_of everywhere)
      (with_raw (request_of (codes "mv") none))
    ≡ true
unfolding policy_verdict check_security_rule check_capabilities same
asked_mv = refl

execute_preauthorized_example :
    is_preauthorized literal
      (config_with false)
      (answers_of everywhere)
      (with_raw (request_of (codes "mv") none))
    ≡ true
execute_preauthorized_example =
    execute_preauthorized literal (config_with false) (answers_of everywhere)
      (request_of (codes "mv") none) fresh refl (inr refl) (λ h. cc) asked_mv started_everywhere

cleared_ls :
    Cleared literal
      (config_with false)
      (answers_of (rules []))
      (with_raw (request_of (codes "ls") none))
cleared_ls =
    execute-Cleared literal (config_with false) (answers_of (rules []))
      (request_of (codes "ls") none) fresh started_ls

calm_ls :
    asked_for literal
      (config_with false)
      (answers_of (rules []))
      (with_raw (request_of (codes "ls") none))
    ≡ false
unfolding policy_verdict check_security_rule check_capabilities same
calm_ls = refl

execute_runs_example :
    starts (run false (rules []) (codes "ls") none)
    ≡ starts fresh
      + starts_by literal
          (config_with false)
          (answers_of (rules []))
          (with_raw (request_of (codes "ls") none))
          none
          none
execute_runs_example =
    execute_runs literal (config_with false) (answers_of (rules [])) (request_of (codes "ls") none)
      fresh refl cleared_ls calm_ls (inr refl)

mild_mv :
    is_critical
      (policy_verdict literal
        (config_with false)
        (answers_of (rules []))
        (with_raw (request_of (codes "mv") (some agent)))).risk
    ≡ false
unfolding policy_verdict same
mild_mv = refl

started_lifted : starts (run false (rules []) (codes "mv") (some agent)) ≢ starts fresh
unfolding execute count demand
started_lifted = one_start (run false (rules []) (codes "mv") (some agent)) refl

unlisted_mv :
    deny_listed (λ i p t. returns (same p t)) false (codes "rm" ∷ []) (codes "mv") ≡ returns false
unfolding deny_listed same
unlisted_mv = refl

cleared_mv :
    Cleared literal
      (config_with false)
      (answers_of (rules []))
      (with_raw (request_of (codes "mv") (some agent)))
cleared_mv =
    execute-Cleared literal (config_with false) (answers_of (rules []))
      (request_of (codes "mv") (some agent)) fresh started_lifted

execute_lifts_example :
    starts (run false (rules []) (codes "mv") (some agent))
    ≡ starts fresh
      + starts_by literal
          (config_with false)
          (answers_of (rules []))
          (with_raw (request_of (codes "mv") (some agent)))
          none
          none
unfolding command_of
execute_lifts_example =
    execute_lifts literal (config_with false) (answers_of (rules []))
      (request_of (codes "mv") (some agent)) fresh agent refl refl refl refl mild_mv unlisted_mv
      cleared_mv

-- A token that is issued, used twice and revoked.
abbrev ops : List TokenOp
ops =
    TokenOp.verify 5 (codes "t1") (codes "coder") (codes "shell") (codes "mv")
    ∷ TokenOp.verify 6 (codes "t1") (codes "coder") (codes "shell") (codes "mv")
    ∷ TokenOp.revoke (codes "t1")
    ∷ []

abbrev table : Dict JitToken
table =
    (issue_jit_token 1 (codes "t1") (codes "coder") (codes "shell") (codes "mv") (codes "admin") 300
      []).1

accepted_once : acceptances (λ i p t. returns (same p t)) (codes "t1") ops table ≡ 1
unfolding acceptances issue_jit_token
accepted_once = refl

table-Distinct : Distinct table
unfolding issue_jit_token insert lookup
table-Distinct = (refl, tt)

acceptances_once_example :
    acceptances (λ i p t. returns (same p t)) (codes "t1") ops table
    ≤ credit (lookup (codes "t1") table)
acceptances_once_example =
    acceptances_once (λ i p t. returns (same p t)) (codes "t1") ops table table-Distinct
      (tt, (tt, (tt, tt)))

abbrev returned : Response
returned = record response {
  execution_id = codes "e1";
  reason = codes "Matched rule: ls (src=human)";
}

result_of-Keeps_example :
    Keeps
      (record { risk = medium; action = Action.confirm; reason = [] })
      response
      (result_of literal
        (config_with false)
        (answers_of (rules []))
        (request_of (codes "mv") none)
        (record { risk = medium; action = Action.confirm; reason = [] })
        response)
result_of-Keeps_example =
    result_of-Keeps literal (config_with false) (answers_of (rules []))
      (request_of (codes "mv") none)
      (record { risk = medium; action = Action.confirm; reason = [] }) response
