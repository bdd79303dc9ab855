-- ===== src/Approvals/Store.antt =====
-- `ApprovalStore` of src/trimum_core/approvals.py (lines 136 to 382): every operation takes the
-- directory and returns it with its result. `wall` is `time.time()`, by which a record expires,
-- and `clock` is the store's own clock, which stamps it. Files are named by request identifiers,
-- without the suffix ".json". The file system accepts every write of a request.
use trimum.Base.{
  ℕ, ◌+◌, Bool, true, false, not, ◌&&◌, ◌||◌, Option, none, some, List, [], ◌∷◌, map, ◌++◌,
  if◌then◌else◌, ◌==◌, ltb, Text, codes, nonempty,
}
use trimum.Base.Dict.{Dict, lookup, insert, contains}
use trimum.Approvals.Request.{
  Outcome, returns, raises, Status, pending, approved, denied, expired, consumed, ApprovalRequest,
  RawRequest, is_pending, is_approved, is_expired, from_dict, to_dict,
}

-- `garbage` is a file that cannot be read, is no JSON, or holds no object.
pub data Content : Type 0 where
  garbage : Content
  object : RawRequest → Content

pub record Claim : Type 0 where
  pub key : Text
  pub claimed_at : ℕ
  pub meta : Text

-- A claim file whose payload was not written holds `none`.
pub record Store : Type 0 where
  pub files : Dict Content
  pub claims : Dict (Option Claim)

abbrev pub Answer : Type 0
Answer = Outcome (Option ApprovalRequest) × Store

unfoldable pub load : Content → Outcome (Option ApprovalRequest)
unfolding from_dict
load garbage = returns none
load (object d) = elim (from_dict d) [ returns r ↦ returns (some r) | raises ↦ raises ]

-- `_read`
unfoldable pub read : Text → Store → Outcome (Option ApprovalRequest)
read id s = elim (lookup id s.files) [ none ↦ returns none | some c ↦ load c ]

-- `_write`: the file is named after the record, not after the request.
unfoldable pub write : ApprovalRequest → Store → Store
write r s = record s { files = insert r.id (object (to_dict r)) s.files }

abbrev pub with_status : Status → ApprovalRequest → ApprovalRequest
with_status st r = record r { status = st }

-- `_write` and `return record`
abbrev pub saved : ApprovalRequest → Store → Answer
saved r s = (returns (some r), write r s)

-- What follows `_read` in each operation: a missing record is returned as such.
abbrev pub on_record :
    Outcome (Option ApprovalRequest) → (ApprovalRequest → Store → Answer) → Store → Answer
on_record (returns (some r)) k s = k r s
on_record (returns none) k s = (returns none, s)
on_record raises k s = (raises, s)

unfoldable pub get_loaded : ℕ → ApprovalRequest → Store → Answer
get_loaded wall r s =
    if is_expired wall r then saved (with_status expired r) s else (returns (some r), s)

unfoldable pub get : ℕ → Text → Store → Answer
unfolding get_loaded
get wall id s = on_record (read id s) (get_loaded wall) s

abbrev pub stamped : Bool → Text → ℕ → ApprovalRequest → ApprovalRequest
stamped yes_vote by clock r = record r {
  status = if yes_vote then approved else denied;
  decided_at = clock;
  decided_by = by;
}

unfoldable pub decide_loaded : ℕ → ℕ → Bool → Text → ApprovalRequest → Store → Answer
decide_loaded wall clock vote by r s =
    if is_expired wall r
    then saved (with_status expired r) s
    else if not (is_pending r.status)
    then (returns (some r), s)
    else saved (stamped vote by clock r) s

unfoldable pub decide : ℕ → ℕ → Bool → Text → Text → Store → Answer
unfolding decide_loaded
decide wall clock vote by id s = on_record (read id s) (decide_loaded wall clock vote by) s

abbrev pub used : ℕ → ApprovalRequest → ApprovalRequest
used clock r = record r { status = consumed; used_at = clock }

unfoldable pub consume_loaded : ℕ → ℕ → ApprovalRequest → Store → Answer
consume_loaded wall clock r s =
    if is_expired wall r
    then saved (with_status expired r) s
    else if not (is_approved r.status)
    then (returns (some r), s)
    else if not (r.used_at == 0)
    then saved (with_status consumed r) s
    else saved (used clock r) s

unfoldable pub consume : ℕ → ℕ → Text → Store → Answer
unfolding consume_loaded
consume wall clock id s = on_record (read id s) (consume_loaded wall clock) s

-- The arguments of `request`, with the identifier that `uuid4` gives and the parsed time to live.
pub record Ask : Type 0 where
  pub agent_id : Text
  pub tool : Text
  pub command : Text
  pub cwd : Text
  pub risk_level : Text
  pub reason : Text

unfoldable pub request : Text → ℕ → ℕ → Ask → Store → ApprovalRequest × Store
request id clock ttl a s =
    let r : ApprovalRequest = record {
      id = id;
      agent_id = a.agent_id;
      tool = a.tool;
      command = a.command;
      cwd = a.cwd;
      risk_level = a.risk_level;
      reason = a.reason;
      created_at = clock;
      expires_at = clock + ttl;
      status = pending;
      decided_at = 0;
      decided_by = [];
      used_at = 0;
    } in
    (r, write r s)

-- Order of the file names `<id>.json`.
unfoldable pub name_leb : Text → Text → Bool
name_leb [] t = true
name_leb (x ∷ s) [] = false
name_leb (x ∷ s) (y ∷ t) = ltb x y || (x == y && name_leb s t)

unfoldable pub file_leb : Text → Text → Bool
unfolding name_leb
file_leb s t = name_leb (s ++ codes ".json") (t ++ codes ".json")

unfoldable pub place : Text → List Text → List Text
unfolding file_leb
place n [] = n ∷ []
place n (m ∷ ms) = if file_leb n m then n ∷ m ∷ ms else m ∷ place n ms

-- `sorted(glob("*.json"))`
unfoldable pub sorted_names : List Text → List Text
unfolding place
sorted_names [] = []
sorted_names (n ∷ ns) = place n (sorted_names ns)

abbrev pub Listing : Type 0
Listing = Outcome (List ApprovalRequest) × Store

abbrev pub listed : Option ApprovalRequest → Listing → Listing
listed (some r) (returns rs, s) = (returns (r ∷ rs), s)
listed _ l = l

-- One file of the loop: the record to append, and the directory after it.
unfoldable pub list_loaded : ℕ → ApprovalRequest → Store → Option ApprovalRequest × Store
list_loaded wall r s =
    if not (is_pending r.status)
    then (none, s)
    else if is_expired wall r
    then (none, write (with_status expired r) s)
    else (some r, s)

unfoldable pub list_from : ℕ → List Text → Store → Listing
unfolding list_loaded
list_from wall [] s = (returns [], s)
list_from wall (n ∷ ns) s = elim (read n s) [
  | raises ↦ (raises, s)
  | returns none ↦ list_from wall ns s
  | returns (some r) ↦ let (found, s') = list_loaded wall r s in listed found (list_from wall ns s')
]

unfoldable pub list_pending : ℕ → Store → Listing
unfolding list_from sorted_names
list_pending wall s = list_from wall (sorted_names (map (λ e. e.0) s.files)) s

abbrev pub payload : Bool → Text → ℕ → Text → Option Claim
payload false key clock meta = none
payload true key clock meta = some (record { key = key; claimed_at = clock; meta = meta })

-- `claim_once`. `digest` is SHA-256 in hexadecimal; `writable` says whether the directory and the
-- file can be made, and `dumps` whether the payload can be written, which the environment decides.
unfoldable pub claim_once : (Text → Text) → Bool → Bool → ℕ → Text → Text → Store → Bool × Store
claim_once digest writable dumps clock key meta s =
    if not (nonempty key)
    then (false, s)
    else if not writable
    then (false, s)
    else if contains (digest key) s.claims
    then (false, s)
    else (dumps, record s { claims = insert (digest key) (payload dumps key clock meta) s.claims })
