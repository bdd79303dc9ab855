-- ===== src/Gateway/Merge.antt =====
-- `_merge_decision` of src/trimum_core/tool_gateway.py (lines 1069 to 1094) as `execute` uses it.
use Prim.Native.Nat.{max}
use trimum.Base.{
  ◌≡◌, refl, Bool, true, false, not, ◌&&◌, ◌||◌, arith, if◌then◌else◌, Text, codes, nonempty, same,
  List,
}
use trimum.Policy.{RiskLevel, low, medium, high, critical, Action, Evaluation}
use trimum.Gateway.{Request, Response, Config, Env, Answers}
use trimum.Gateway.Checks.{is_auto}
use trimum.Gateway.Run.{
  risk_rank, merged_action, merged_risk, merged_status, merge_decision, redact_credentials,
  substitute, or_text, result_of, status_of,
}

-- What the returned response says of the decision: the higher risk, an automatic action only when
-- the tool's and the decision's are, and "allowed" only for a tool that reports nothing else and an
-- automatic decision.
abbrev pub Keeps : Evaluation → Response → Response → Type 0
Keeps p q q' =
    (risk_rank q'.risk ≡ max (risk_rank q.risk) (risk_rank p.risk))
    × (is_auto q'.action ≡ (is_auto q.action && is_auto p.action))
    × (same q'.status (codes "allowed")
        ≡ ((not (nonempty q.status) || same q.status (codes "allowed")) && is_auto p.action))
    × (q'.exit_code ≡ q.exit_code)

merged-rank : (a b : RiskLevel) → risk_rank (merged_risk a b) ≡ max (risk_rank a) (risk_rank b)
merged-rank low b = ground arith
merged-rank medium b = ground arith
merged-rank high b = ground arith
merged-rank critical b = ground arith

merged-is_auto : (a b : Action) → is_auto (merged_action a b) ≡ (is_auto a && is_auto b)
merged-is_auto a Action.auto = ground arith
merged-is_auto a Action.confirm = ground arith
merged-is_auto a Action.deny = ground arith

merged-allowed :
    (own : Text) (p : Evaluation)
    → same (merged_status own (status_of p)) (codes "allowed")
      ≡ ((not (nonempty own) || same own (codes "allowed")) && is_auto p.action)
unfolding merged_status same
merged-allowed own p =
    by_tool (not (nonempty own) || same own (codes "allowed")) own p.action (λ h. ground (arith, h))
  where
    by_tool :
        (b : Bool) (own : Text) (a : Action)
        → (b ≡ false → same own (codes "allowed") ≡ false)
        → same
            (if b then (if is_auto a then codes "allowed" else codes "confirmed") else own)
            (codes "allowed")
          ≡ (b && is_auto a)
    by_tool true own Action.auto h = refl
    by_tool true own Action.confirm h = refl
    by_tool true own Action.deny h = refl
    by_tool false own a h = h refl

redact-Keeps :
    (p : Evaluation) (q q' : Response) (fs : List (Text → Text))
    → Keeps p q q'
    → Keeps p q (redact_credentials fs q')
unfolding redact_credentials
redact-Keeps p q q' fs h = by_output (nonempty q'.output)
  where
    by_output :
        (b : Bool)
        → Keeps p q (
            if b
            then record q' {
              output = substitute fs q'.output;
              error = if nonempty q'.error then substitute fs q'.error else q'.error;
            }
            else q')
    by_output true = h
    by_output false = h

if-Keeps :
    (b : Bool) (p : Evaluation) (q x y : Response)
    → Keeps p q x
    → Keeps p q y
    → Keeps p q (if b then x else y)
if-Keeps true p q x y h g = h
if-Keeps false p q x y h g = g

-- The response of a tool is returned, redacted or not, with the higher of the two risks and the
-- tool's exit code; it is automatic only if the tool's action and the decision are, and its status
-- is "allowed" exactly when the tool reports no other status and the decision is automatic.
pub result_of-Keeps :
    (e : Env) (c : Config) (w : Answers) (r : Request) (p : Evaluation) (q : Response)
    → Keeps p q (result_of e c w r p q)
unfolding result_of merge_decision
result_of-Keeps e c w r p q =
    if-Keeps c.enable_credential_redact p q _ _ (redact-Keeps p q merged e.substitutions kept) kept
  where
    merged : Response
    merged =
        merge_decision (record q { execution_id = or_text q.execution_id w.execution_id })
          (status_of p) p

    kept : Keeps p q merged
    kept = (
      merged-rank q.risk p.risk,
      merged-is_auto q.action p.action,
      merged-allowed q.status p,
      refl,
    )
