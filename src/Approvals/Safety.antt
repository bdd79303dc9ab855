-- ===== src/Approvals/Safety.antt =====
-- The status of a request over sequences of calls of src/trimum_core/approvals.py.
use trimum.Base.{
  ℕ, ◌<◌, ◌≡◌, refl, ◌⊎◌, inl, inr, Bool, true, false, some, List, [], ◌∷◌, arith, Text, All,
  same_iff,
}
use trimum.Approvals.Request.{
  returns, Status, pending, approved, denied, expired, consumed, unknown, ApprovalRequest,
  is_expired,
}
use trimum.Approvals.Store.{Store, read}
use trimum.Approvals.Lifecycle.{
  IsKeyed, Op, fetch, decision, consumption, creation, listing, settle, vote_on, spend, next,
  Spares,
}
use trimum.Approvals.Runs.{run, evolve, run-evolve}

-- The life of a request: it stays as it is, or it takes one step, from pending by a decision or by
-- its expiry, and from approved by being used.
abbrev pub Moves : Status → Status → Type 0
Moves a b =
    (b ≡ a)
    ⊎ (a ≡ pending) × (b ≡ approved)
    ⊎ (a ≡ pending) × (b ≡ denied)
    ⊎ (a ≡ pending) × (b ≡ expired)
    ⊎ (a ≡ approved) × (b ≡ consumed)

pub data Later : Status → Status → Type 0 where
  now : {a : Status} → Later a a
  after : {a b c : Status} → Moves a b → Later b c → Later a c

-- What a request asks for, and until when.
abbrev pub SameAsk : ApprovalRequest → ApprovalRequest → Type 0
SameAsk r q =
    (q.id ≡ r.id)
    × (q.agent_id ≡ r.agent_id)
    × (q.tool ≡ r.tool)
    × (q.command ≡ r.command)
    × (q.cwd ≡ r.cwd)
    × (q.risk_level ≡ r.risk_level)
    × (q.reason ≡ r.reason)
    × (q.created_at ≡ r.created_at)
    × (q.expires_at ≡ r.expires_at)

settle-Moves : (w : ℕ) (r : ApprovalRequest) → Moves r.status (settle w r).status
unfolding settle is_expired
settle-Moves w r = ground arith

vote_on-Moves :
    (w c : ℕ) (v : Bool) (b : Text) (r : ApprovalRequest)
    → Moves r.status (vote_on w c v b r).status
unfolding vote_on
vote_on-Moves w c v b r = ground arith

next-SameAsk : (i : Text) (op : Op) (r : ApprovalRequest) → SameAsk r (next i op r)
unfolding next
next-SameAsk i (creation j c t a) r = ground arith
next-SameAsk i op r = ground arith

spend-Moves : (w c : ℕ) (r : ApprovalRequest) → Moves r.status (spend w c r).status
unfolding spend
spend-Moves w c r = ground arith

next-Moves : (i : Text) (op : Op) (r : ApprovalRequest) → Moves r.status (next i op r).status
unfolding next
next-Moves i (fetch j w) r = ground (arith, settle-Moves w r)
next-Moves i (decision j w c v b) r = ground (arith, vote_on-Moves w c v b r)
next-Moves i (consumption j w c) r = ground (arith, spend-Moves w c r)
next-Moves i (creation j c t a) r = inl refl
next-Moves i (listing w) r = settle-Moves w r

evolve-Later :
    (i : Text) (ops : List Op) (r : ApprovalRequest) → Later r.status (evolve i ops r).status
unfolding evolve
evolve-Later i [] r = now
evolve-Later i (op ∷ ops) r = after (next-Moves i op r) (evolve-Later i ops (next i op r))

evolve-SameAsk : (i : Text) (ops : List Op) (r : ApprovalRequest) → SameAsk r (evolve i ops r)
unfolding evolve
evolve-SameAsk i [] r = ground arith
evolve-SameAsk i (op ∷ ops) r =
    let one = next-SameAsk i op r in
    let rest = evolve-SameAsk i ops (next i op r) in ground (arith, one, rest)

abbrev pub IsFinal : Status → Type 0
IsFinal denied = Unit
IsFinal expired = Unit
IsFinal consumed = Unit
IsFinal _ = ⊥

pub next-IsFinal : (i : Text) (op : Op) (r : ApprovalRequest) → IsFinal r.status → next i op r ≡ r
unfolding next
next-IsFinal i op r f = go op r.status refl f
  where
    go : (o : Op) (st : Status) → r.status ≡ st → IsFinal st → next i o r ≡ r
    go o denied e f = ground arith
    go o expired e f = ground arith
    go o consumed e f = ground arith
    go o pending e f = elim f [ ]
    go o approved e f = elim f [ ]
    go o (unknown t) e f = elim f [ ]

evolve-IsFinal :
    (i : Text) (ops : List Op) (r : ApprovalRequest) → IsFinal r.status → evolve i ops r ≡ r
unfolding evolve
evolve-IsFinal i [] r f = refl
evolve-IsFinal i (op ∷ ops) r f = rw (next-IsFinal i op r f) (evolve-IsFinal i ops r f)

-- In a keyed store that holds a request, over any sequence of calls at any times that makes no new
-- request under its identifier, the request keeps what it asks for and until when, and its status
-- only takes the steps of the life of a request.
pub run-Later :
    (i : Text) (ops : List Op) (s : Store) (r : ApprovalRequest)
    → IsKeyed s
    → read i s ≡ returns (some r)
    → All (Spares i) ops
    → (q : ApprovalRequest) × (read i (run ops s) ≡ returns (some q))
      × SameAsk r q
      × Later r.status q.status
run-Later i ops s r k h p =
    (evolve i ops r, (run-evolve i ops s r k h p).0, evolve-SameAsk i ops r, evolve-Later i ops r)

-- Once a request is denied, expired or used up, its whole record stays as it is.
pub run-IsFinal :
    (i : Text) (ops : List Op) (s : Store) (r : ApprovalRequest)
    → IsKeyed s
    → read i s ≡ returns (some r)
    → All (Spares i) ops
    → IsFinal r.status
    → read i (run ops s) ≡ returns (some r)
run-IsFinal i ops s r k h p f = rw (evolve-IsFinal i ops r f) at ((run-evolve i ops s r k h p).0)

-- Somebody voted for this request before its time was up.
abbrev pub HasVote : Text → ℕ → List Op → Type 0
HasVote i limit [] = ⊥
HasVote i limit (decision j w c true b ∷ ops) = ((i ≡ j) × (w < limit)) ⊎ HasVote i limit ops
HasVote i limit (op ∷ ops) = HasVote i limit ops

abbrev pub IsGranted : Status → Type 0
IsGranted st = (st ≡ approved) ⊎ (st ≡ consumed)

vote_on-IsGranted :
    (w c : ℕ) (v : Bool) (b : Text) (r : ApprovalRequest)
    → IsGranted (vote_on w c v b r).status
    → IsGranted r.status ⊎ (w < r.expires_at)
unfolding vote_on
vote_on-IsGranted w c v b r h = ground arith

-- A call that grants a request which was not granted is a vote for it in time.
next-IsGranted :
    (i : Text) (op : Op) (ops : List Op) (r : ApprovalRequest)
    → IsGranted (next i op r).status
    → IsGranted r.status ⊎ HasVote i r.expires_at (op ∷ ops)
unfolding next settle vote_on spend is_expired
next-IsGranted i (fetch j w) ops r h = ground arith
next-IsGranted i (decision j w c true b) ops r h =
    ground (arith, same_iff i j, vote_on-IsGranted w c true b r)
next-IsGranted i (decision j w c false b) ops r h = ground arith
next-IsGranted i (consumption j w c) ops r h = ground arith
next-IsGranted i (creation j c t a) ops r h = inl h
next-IsGranted i (listing w) ops r h = ground arith

HasVote-cons :
    (i : Text) (limit : ℕ) (op : Op) (ops : List Op)
    → HasVote i limit ops
    → HasVote i limit (op ∷ ops)
HasVote-cons i limit (decision j w c true b) ops h = inr h
HasVote-cons i limit (decision j w c false b) ops h = h
HasVote-cons i limit (fetch j w) ops h = h
HasVote-cons i limit (consumption j w c) ops h = h
HasVote-cons i limit (creation j c t a) ops h = h
HasVote-cons i limit (listing w) ops h = h

evolve-IsGranted :
    (i : Text) (ops : List Op) (r : ApprovalRequest)
    → IsGranted (evolve i ops r).status
    → IsGranted r.status ⊎ HasVote i r.expires_at ops
unfolding evolve
evolve-IsGranted i [] r h = inl h
evolve-IsGranted i (op ∷ ops) r h = elim (evolve-IsGranted i ops (next i op r) h) [
  | inl g ↦ next-IsGranted i op ops r g
  | inr v ↦ inr (HasVote-cons i r.expires_at op ops (rw ((next-SameAsk i op r).8) at v))
]

-- Fail-closed: a request that was pending is approved or used up after a run only if some call of
-- the run voted for it, under its identifier, before it expired.
pub run-HasVote :
    (i : Text) (ops : List Op) (s : Store) (r q : ApprovalRequest)
    → IsKeyed s
    → read i s ≡ returns (some r)
    → All (Spares i) ops
    → r.status ≡ pending
    → read i (run ops s) ≡ returns (some q)
    → IsGranted q.status
    → HasVote i r.expires_at ops
run-HasVote i ops s r q k h p open_ e g =
    let same_q : q ≡ evolve i ops r = cc ((run-evolve i ops s r k h p).0) in
    elim (evolve-IsGranted i ops r (rw same_q at g)) [ inl old ↦ ground arith | inr v ↦ v ]
