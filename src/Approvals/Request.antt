-- ===== src/Approvals/Request.antt =====
-- The record of src/trimum_core/approvals.py (lines 33 to 98) and its dictionary form. Times are
-- whole ticks: the code's floats are only compared, copied and tested for zero. An exception of
-- the code is `raises`.
use trimum.Base.{ℕ, ◌≡◌, refl, Bool, true, false, Option, none, some, [], leb, Text}

pub data Outcome (A : Type 0) : Type 0 where
  returns : A → Outcome A
  raises : Outcome A

-- The status texts, and any other text that a file may hold.
pub data Status : Type 0 where
  pending approved denied expired consumed : Status
  unknown : Text → Status

pub record ApprovalRequest : Type 0 where
  pub id : Text
  pub agent_id : Text
  pub tool : Text
  pub command : Text
  pub cwd : Text
  pub risk_level : Text
  pub reason : Text
  pub created_at : ℕ
  pub expires_at : ℕ
  pub status : Status
  pub decided_at : ℕ
  pub decided_by : Text
  pub used_at : ℕ

abbrev pub is_pending : Status → Bool
is_pending pending = true
is_pending _ = false

abbrev pub is_approved : Status → Bool
is_approved approved = true
is_approved _ = false

-- Only a pending record expires.
unfoldable pub is_expired : ℕ → ApprovalRequest → Bool
is_expired now r = elim r.status [ pending ↦ leb r.expires_at now | _ ↦ false ]

-- A JSON object, as far as `from_dict` reads it: each known key is there or not.
pub record RawRequest : Type 0 where
  pub id : Option Text
  pub agent_id : Option Text
  pub tool : Option Text
  pub command : Option Text
  pub cwd : Option Text
  pub risk_level : Option Text
  pub reason : Option Text
  pub created_at : Option ℕ
  pub expires_at : Option ℕ
  pub status : Option Status
  pub decided_at : Option ℕ
  pub decided_by : Option Text
  pub used_at : Option ℕ

abbrev pub or_default {ℓ} : {A : Type ℓ} → A → Option A → A
or_default d none = d
or_default d (some a) = a

unfoldable pub to_dict : ApprovalRequest → RawRequest
to_dict r = record {
  id = some r.id;
  agent_id = some r.agent_id;
  tool = some r.tool;
  command = some r.command;
  cwd = some r.cwd;
  risk_level = some r.risk_level;
  reason = some r.reason;
  created_at = some r.created_at;
  expires_at = some r.expires_at;
  status = some r.status;
  decided_at = some r.decided_at;
  decided_by = some r.decided_by;
  used_at = some r.used_at;
}

-- `id` has no default: without it the constructor raises.
unfoldable pub from_dict : RawRequest → Outcome ApprovalRequest
from_dict d = elim d.id [
  | none ↦ raises
  | some i ↦ returns (record {
    id = i;
    agent_id = or_default [] d.agent_id;
    tool = or_default [] d.tool;
    command = or_default [] d.command;
    cwd = or_default [] d.cwd;
    risk_level = or_default [] d.risk_level;
    reason = or_default [] d.reason;
    created_at = or_default 0 d.created_at;
    expires_at = or_default 0 d.expires_at;
    status = or_default pending d.status;
    decided_at = or_default 0 d.decided_at;
    decided_by = or_default [] d.decided_by;
    used_at = or_default 0 d.used_at;
  })
]

-- What is stored is read back unchanged.
pub from_dict-to_dict : (r : ApprovalRequest) → from_dict (to_dict r) ≡ returns r
unfolding from_dict to_dict
from_dict-to_dict r = refl
