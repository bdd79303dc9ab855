-- ===== src/Gateway/Once.antt =====
-- A token of src/trimum_core/tool_gateway.py (lines 1368 to 1430 and 1524 to 1599) over a sequence of
-- the operations on the table.
use trimum.Base.{
  ℕ, ◌+◌, ◌≤◌, ◌≡◌, refl, ◌≢◌, inl, inr, Bool, true, false, ◌&&◌, Option, none, some, List, [], ◌∷◌,
  arith, if◌then◌else◌, Text, same, same_iff, same_refl, All, Bool-cases,
}
use trimum.Base.Dict.{
  Dict, lookup, erase, contains, Distinct, lookup-insert_ne, lookup-insert_self, lookup-erase_ne,
  lookup-erase_self, insert-Distinct, erase-Distinct,
}
use trimum.Approvals.Request.{Outcome, returns, raises}
use trimum.Gateway.{JitToken}
use trimum.Gateway.Tokens.{
  Checked, consume, on_command, is_expired, mismatch, other_tool, command_matches, verify_found,
  verify_entry, verify_jit_token, issue_jit_token, revoke_jit_token,
}

-- An operation on the table of tokens.
pub data TokenOp : Type 0 where
  verify : (now : ℕ) (id agent tool command : Text) → TokenOp
  issue : (now : ℕ) (id agent tool command granted_by : Text) (ttl : ℕ) → TokenOp
  revoke : (id : Text) → TokenOp

abbrev pub is_accepted : Outcome (Option Text) → Bool
is_accepted (returns none) = true
is_accepted _ = false

-- The operation does not issue this identifier.
abbrev pub NotIssued : Text → TokenOp → Type 0
NotIssued id (TokenOp.issue now id' agent tool command by ttl) = id ≢ id'
NotIssued id _ = Unit

-- How often a token can still be accepted.
abbrev pub credit : Option JitToken → ℕ
credit none = 0
credit (some t) = if t.used then 0 else 1

abbrev one_if : Bool → ℕ
one_if true = 1
one_if false = 0

module _ (look : Bool → Text → Text → Outcome Bool) where
  unfoldable pub apply : TokenOp → Dict JitToken → Dict JitToken
  unfolding verify_jit_token issue_jit_token revoke_jit_token
  apply (TokenOp.verify now id agent tool command) d =
      (verify_jit_token look now id agent tool command d).1
  apply (TokenOp.issue now id agent tool command by ttl) d =
      (issue_jit_token now id agent tool command by ttl d).1
  apply (TokenOp.revoke id) d = (revoke_jit_token id d).1

  -- The operation accepts this token.
  unfoldable pub accepts : Text → TokenOp → Dict JitToken → Bool
  unfolding verify_jit_token
  accepts id (TokenOp.verify now id' agent tool command) d =
      same id id' && is_accepted (verify_jit_token look now id' agent tool command d).0
  accepts id _ d = false

  unfoldable pub acceptances : Text → List TokenOp → Dict JitToken → ℕ
  unfolding apply accepts
  acceptances id [] d = 0
  acceptances id (o ∷ os) d = one_if (accepts id o d) + acceptances id os (apply o d)

  -- What a verification does to the table: nothing, or it removes or marks its own token, and it
  -- accepts only an unused one.
  data Verified (id : Text) (d : Dict JitToken) : Checked → Type 0 where
    kept : (x : Outcome (Option Text)) → is_accepted x ≡ false → Verified id d (x, d)
    removed : (x : Outcome (Option Text)) → is_accepted x ≡ false → Verified id d (x, erase id d)
    marked :
        (t : JitToken)
        → lookup id d ≡ some t
        → t.used ≡ false
        → Verified id d (returns none, consume id t d)

  on_command-Verified :
      (x : Outcome Bool) (id : Text) (t : JitToken) (d : Dict JitToken)
      → lookup id d ≡ some t
      → t.used ≡ false
      → Verified id d (on_command x id t d)
  on_command-Verified raises id t d h g = Verified.kept raises refl
  on_command-Verified (returns false) id t d h g = Verified.kept _ refl
  on_command-Verified (returns true) id t d h g = Verified.marked t h g

  if-Verified :
      (b : Bool) (id : Text) (d : Dict JitToken) (x y : Checked)
      → (b ≡ true → Verified id d x)
      → (b ≡ false → Verified id d y)
      → Verified id d (if b then x else y)
  if-Verified true id d x y h g = h refl
  if-Verified false id d x y h g = g refl

  found-Verified :
      (now : ℕ) (id agent tool command : Text) (t : JitToken) (d : Dict JitToken)
      → lookup id d ≡ some t
      → Verified id d (verify_found look now id agent tool command t d)
  unfolding verify_found
  found-Verified now id agent tool command t d h =
      if-Verified (is_expired now t) id d _ _ (λ _. Verified.removed _ refl)
        λ _.
          if-Verified t.used id d _ _ (λ _. Verified.kept _ refl)
            λ unused.
              if-Verified (mismatch t.agent_id agent) id d _ _ (λ _. Verified.kept _ refl)
                λ _.
                  if-Verified (other_tool t.tool tool) id d _ _ (λ _. Verified.kept _ refl)
                    λ _.
                      on_command-Verified (command_matches look t.command command) id t d h unused

  entry-Verified :
      (now : ℕ) (id agent tool command : Text) (o : Option JitToken) (d : Dict JitToken)
      → lookup id d ≡ o
      → Verified id d (verify_entry look now id agent tool command o d)
  entry-Verified now id agent tool command none d h = Verified.kept _ refl
  entry-Verified now id agent tool command (some t) d h =
      found-Verified now id agent tool command t d h

  verify-Verified :
      (now : ℕ) (id agent tool command : Text) (d : Dict JitToken)
      → Verified id d (verify_jit_token look now id agent tool command d)
  unfolding verify_jit_token
  verify-Verified now id agent tool command d =
      entry-Verified now id agent tool command (lookup id d) d refl

  -- A step pays for an acceptance, and keeps the keys apart.
  abbrev Pays : Text → Bool → Dict JitToken → Dict JitToken → Type 0
  Pays id b d d' = (one_if b + credit (lookup id d') ≤ credit (lookup id d)) × Distinct d'

  erase-credit :
      (id id' : Text) (d : Dict JitToken)
      → Distinct d
      → credit (lookup id (erase id' d)) ≤ credit (lookup id d)
  erase-credit id id' d distinct = elim (Bool-cases (same id id')) [
    | inl i ↦
        let e = (same_iff id id').0 i in rw e (rw (lookup-erase_self id' d distinct) (ground arith))
    | inr i ↦
        let apart : id ≢ id' = ground (arith, same_iff id id', i) in
        rw (lookup-erase_ne id id' d apart) (ground arith)
  ]

  mark-credit :
      (id id' : Text) (t : JitToken) (d : Dict JitToken)
      → lookup id' d ≡ some t
      → t.used ≡ false
      → one_if (same id id') + credit (lookup id (consume id' t d)) ≤ credit (lookup id d)
  mark-credit id id' t d h g = elim (Bool-cases (same id id')) [
    | inl i ↦
        let e = (same_iff id id').0 i in
        rw (e, same_refl id', lookup-insert_self id' (record t { used = true }) d, h, g)
          (ground arith)
    | inr i ↦
        let apart : id ≢ id' = ground (arith, same_iff id id', i) in
        rw (i, lookup-insert_ne id id' (record t { used = true }) d apart) (ground arith)
  ]

  Verified-Pays :
      (id id' : Text) (d : Dict JitToken) (x : Checked)
      → Distinct d
      → Verified id' d x
      → Pays id (same id id' && is_accepted x.0) d x.1
  Verified-Pays id id' d (_, _) distinct (Verified.kept x h) = (ground (arith, h), distinct)
  Verified-Pays id id' d (_, _) distinct (Verified.removed x h) =
      (ground (arith, h, erase-credit id id' d distinct), erase-Distinct id' d distinct)
  Verified-Pays id id' d (_, _) distinct (Verified.marked t h g) = (
    ground (arith, mark-credit id id' t d h g),
    insert-Distinct id' (record t { used = true }) d distinct,
  )

  if-Pays :
      (id : Text) (d : Dict JitToken) (b : Bool) (x y : Bool × Dict JitToken)
      → Pays id false d x.1
      → Pays id false d y.1
      → Pays id false d (if b then x else y).1
  if-Pays id d true x y h g = h
  if-Pays id d false x y h g = g

  apply-Pays :
      (id : Text) (o : TokenOp) (d : Dict JitToken)
      → Distinct d
      → NotIssued id o
      → Pays id (accepts id o d) d (apply o d)
  unfolding apply accepts issue_jit_token revoke_jit_token
  apply-Pays id (TokenOp.verify now id' agent tool command) d distinct new =
      Verified-Pays id id' d _ distinct (verify-Verified now id' agent tool command d)
  apply-Pays id (TokenOp.issue now id' agent tool command by ttl) d distinct new =
      (rw (lookup-insert_ne id id' _ d new) (ground arith), insert-Distinct id' _ d distinct)
  apply-Pays id (TokenOp.revoke id') d distinct new =
      if-Pays id d (contains id' d) (true, erase id' d) (false, d)
        (omega (arith, erase-credit id id' d distinct), erase-Distinct id' d distinct)
        (ground arith, distinct)

  -- In a table whose keys are distinct, and over any sequence of verifications, issues and revocations
  -- that does not issue the identifier again: a token is accepted at most once, and not at all when
  -- it is missing or used at the start.
  pub acceptances_once :
      (id : Text) (os : List TokenOp) (d : Dict JitToken)
      → Distinct d
      → All (NotIssued id) os
      → acceptances id os d ≤ credit (lookup id d)
  unfolding acceptances
  acceptances_once id [] d distinct new = ground arith
  acceptances_once id (o ∷ os) d distinct (new, later) =
      let (paid, distinct') = apply-Pays id o d distinct new in
      let rest = acceptances_once id os (apply o d) distinct' later in omega (arith, paid, rest)
