-- ===== src/Gateway/Recorded.antt =====
-- What `ToolGateway.execute` of src/trimum_core/tool_gateway.py (lines 547 to 984 and 1633 to 1704)
-- records of the response that it returns.
use trimum.Base.{◌<◌, ◌≡◌, ◌⊎◌, true, some, List, [], ◌∷◌, ◌++◌, Text, codes}
use trimum.Approvals.Request.{returns, raises}
use trimum.Policy.{Evaluation}
use trimum.Gateway.{Request, Response, Gateway, AuditEvent, Config, Env, Answers}
use trimum.Gateway.Audit.{audit_event}
use trimum.Gateway.Flow.{Step, going, refused, crashed}
use trimum.Gateway.Run.{planned, Result, with_raw}
use trimum.Gateway.Passed.{starts}
use trimum.Gateway.Kept.{IsStop}

-- A store of audit events is attached.
abbrev Attached : Gateway → Type 0
Attached s = (es : List AuditEvent) × (s.audit_store ≡ some es)

-- The newest event of the store is about this request and this response.
abbrev pub Newest : Answers → Text → Request → Response → Gateway → Type 0
Newest w event r q s =
    (es : List AuditEvent) × (s.audit_store ≡ some (es ++ audit_event w event r q ∷ []))

-- From one state to another a tool was started and the newest event is "tool_executed", about the
-- request with the state of the sandbox; or none was started, and the event of a layer that stops a
-- call is about the request.
abbrev pub RecordedAs : Env → Config → Answers → Request → Response → Gateway → Gateway → Type 0
RecordedAs e c w r q s t =
    ((starts s < starts t) × Newest w (codes "tool_executed") (planned e c w (with_raw r)) q t)
    ⊎ ((starts t ≡ starts s) × (event : Text) × IsStop event q × Newest w event (with_raw r) q t)

module _ (c : Config) (w : Answers) (on : c.enable_audit ≡ true) where
  -- After a part of the checks: a response that stops the call is the newest event.
  abbrev After : Request → Step Evaluation × Gateway → Type 0
  After r (going p, s) = Attached s
  After r (refused q, s) = (event : Text) × IsStop event q × Newest w event r q s
  After r (crashed, s) = Attached s

  module _ (e : Env) (r : Request) where
    -- A run that returns is recorded as one.
    abbrev Ran : Result → Type 0
    Ran (returns q, t) = Newest w (codes "tool_executed") (planned e c w (with_raw r)) q t
    Ran (raises, t) = Unit

    abbrev Recorded : Gateway → Result → Type 0
    Recorded s (returns q, t) = RecordedAs e c w r q s t
    Recorded s (raises, t) = Unit
