-- ===== src/Approvals/Claims.antt =====
-- `ApprovalStore.claim_once` of src/trimum_core/approvals.py (lines 280 to 309), over sequences of
-- calls. The digest is a parameter, since SHA-256 is no code of the repository.
use trimum.Base.{
  ℕ, ◌+◌, ◌≤◌, ◌≡◌, ◌≢◌, refl, Bool, true, false, List, [], ◌∷◌, arith, if◌then◌else◌, Text, All,
  nonempty, same, same_iff,
}
use trimum.Base.Dict.{contains, lookup-insert}
use trimum.Approvals.Store.{Store, claim_once, payload}

-- The arguments of one call, and how the file system answers it.
pub record ClaimCall : Type 0 where
  pub key : Text
  pub meta : Text
  pub clock : ℕ
  pub writable : Bool
  pub dumps : Bool

module _ (digest : Text → Text) where
  abbrev pub call : ClaimCall → Store → Bool × Store
  call c s = claim_once digest c.writable c.dumps c.clock c.key c.meta s

  unfoldable pub claim_run : List ClaimCall → Store → Store
  claim_run [] s = s
  claim_run (c ∷ cs) s = claim_run cs (call c s).1

  -- How often a call for this key answers `True`.
  unfoldable pub wins : Text → List ClaimCall → Store → ℕ
  wins k [] s = 0
  wins k (c ∷ cs) s =
      (if same k c.key then (if (call c s).0 then 1 else 0) else 0) + wins k cs (call c s).1

  -- A claim is never taken back.
  claim-contains :
      (d : Text) (c : ClaimCall) (s : Store)
      → contains d s.claims ≡ true
      → contains d (call c s).1.claims ≡ true
  unfolding claim_once
  claim-contains d c s h =
      ground (arith, lookup-insert d (digest c.key) (payload c.dumps c.key c.clock c.meta) s.claims)

  claim_taken :
      (c : ClaimCall) (s : Store) → contains (digest c.key) s.claims ≡ true → (call c s).0 ≡ false
  unfolding claim_once
  claim_taken c s h = ground arith

  claim_won :
      (c : ClaimCall) (s : Store)
      → (call c s).0 ≡ true
      → contains (digest c.key) (call c s).1.claims ≡ true
  unfolding claim_once
  claim_won c s h = ground (
    arith,
    lookup-insert (digest c.key) (digest c.key) (payload c.dumps c.key c.clock c.meta) s.claims,
    same_iff (digest c.key) (digest c.key),
  )

  wins-taken :
      (k : Text) (cs : List ClaimCall) (s : Store)
      → contains (digest k) s.claims ≡ true
      → wins k cs s ≡ 0
  unfolding wins
  wins-taken k [] s h = refl
  wins-taken k (c ∷ cs) s h = ground (
    arith,
    same_iff k c.key,
    claim_taken c s,
    wins-taken k cs (call c s).1 (claim-contains (digest k) c s h),
  )

  -- Of all the calls for one key, in any order among others and whatever fails, at most one
  -- answers `True`.
  pub wins-le-one : (k : Text) (cs : List ClaimCall) (s : Store) → wins k cs s ≤ 1
  unfolding wins
  wins-le-one k [] s = omega arith
  wins-le-one k (c ∷ cs) s = ground (
    arith,
    same_iff k c.key,
    claim_won c s,
    wins-taken k cs (call c s).1,
    wins-le-one k cs (call c s).1,
  )

  module _ (injective : (s t : Text) → digest s ≡ digest t → s ≡ t) where
    claim-other :
        (k : Text) (c : ClaimCall) (s : Store)
        → k ≢ c.key
        → contains (digest k) s.claims ≡ false
        → contains (digest k) (call c s).1.claims ≡ false
    unfolding claim_once
    claim-other k c s ne h = ground (
      arith,
      lookup-insert (digest k) (digest c.key) (payload c.dumps c.key c.clock c.meta) s.claims,
      same_iff (digest k) (digest c.key),
      injective k c.key,
    )

    -- If distinct keys have distinct digests, calls for other keys never spoil a key: the first
    -- call for it answers `True`, when its key is not empty and its file can be written.
    pub claim_first :
        (c : ClaimCall) (cs : List ClaimCall) (s : Store)
        → nonempty c.key ≡ true
        → c.writable ≡ true
        → c.dumps ≡ true
        → All (λ other. c.key ≢ other.key) cs
        → contains (digest c.key) s.claims ≡ false
        → (call c (claim_run cs s)).0 ≡ true
    unfolding claim_run claim_once
    claim_first c [] s n w d others h = ground arith
    claim_first c (o ∷ cs) s n w d others h =
        claim_first c cs (call o s).1 n w d others.1 (claim-other c.key o s others.0 h)
