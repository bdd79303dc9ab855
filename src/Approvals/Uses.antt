-- ===== src/Approvals/Uses.antt =====
-- How often a request of src/trimum_core/approvals.py is used up.
use trimum.Base.{
  ℕ, ◌+◌, ◌≤◌, ◌≡◌, refl, ap, ◌⊎◌, inl, inr, Option, none, some, List, [], ◌∷◌, arith,
  if◌then◌else◌, Text, All, same,
}
use trimum.Approvals.Request.{
  Outcome, returns, raises, Status, consumed, ApprovalRequest, is_expired, is_approved,
}
use trimum.Approvals.Store.{Store, read}
use trimum.Approvals.Lifecycle.{
  IsKeyed, Op, fetch, decision, consumption, creation, listing, settle, spend, next, Spares,
  perform,
}
use trimum.Approvals.Runs.{perform-next, perform-IsKeyed}
use trimum.Approvals.Safety.{IsFinal, next-IsFinal}

abbrev is_use : Outcome (Option ApprovalRequest) → ℕ
is_use raises = 0
is_use (returns none) = 0
is_use (returns (some r)) = if is_approved r.status then 1 else 0

abbrev use_of : Text → Op → Store → ℕ
use_of i (consumption j w c) s = if same i j then is_use (read i s) else 0
use_of i _ s = 0

-- The calls of `consume` that find the request approved, which is when they use it up.
unfoldable pub uses : Text → List Op → Store → ℕ
unfolding perform
uses i [] s = 0
uses i (op ∷ ops) s = use_of i op s + uses i ops (perform op s)

final-use :
    (i : Text) (op : Op) (s : Store) (r : ApprovalRequest)
    → read i s ≡ returns (some r)
    → IsFinal r.status
    → use_of i op s ≡ 0
final-use i (consumption j w c) s r h f = rw h (ground arith)
final-use i (fetch j w) s r h f = refl
final-use i (decision j w c v b) s r h f = refl
final-use i (creation j c t a) s r h f = refl
final-use i (listing w) s r h f = refl

-- A use leaves the request used up.
use-IsFinal :
    (i : Text) (op : Op) (s : Store) (r : ApprovalRequest)
    → read i s ≡ returns (some r)
    → (use_of i op s ≡ 0) ⊎ (use_of i op s ≡ 1) × ((next i op r).status ≡ consumed)
unfolding next spend settle is_expired
use-IsFinal i (consumption j w c) s r h = rw h (ground arith)
use-IsFinal i (fetch j w) s r h = inl refl
use-IsFinal i (decision j w c v b) s r h = inl refl
use-IsFinal i (creation j c t a) s r h = inl refl
use-IsFinal i (listing w) s r h = inl refl

unused_when_final :
    (i : Text) (ops : List Op) (s : Store) (r : ApprovalRequest)
    → IsKeyed s
    → read i s ≡ returns (some r)
    → All (Spares i) ops
    → IsFinal r.status
    → uses i ops s ≡ 0
unfolding uses
unused_when_final i [] s r k h p f = refl
unused_when_final i (op ∷ ops) s r k h p f =
    let rest : uses i ops (perform op s) ≡ 0 =
      unused_when_final i ops (perform op s) r (perform-IsKeyed op s k)
        (rw (next-IsFinal i op r f) at (perform-next i op s r k h p.0)) p.1 f in
    rw rest (ap (λ n. n + 0) (final-use i op s r h f))

final : {st : Status} → st ≡ consumed → IsFinal st
final e = rw e tt

-- One approval is good for one use: in any run, at most one call of `consume` finds the request
-- approved.
pub uses-le-one :
    (i : Text) (ops : List Op) (s : Store) (r : ApprovalRequest)
    → IsKeyed s
    → read i s ≡ returns (some r)
    → All (Spares i) ops
    → uses i ops s ≤ 1
unfolding uses
uses-le-one i [] s r k h p = omega arith
uses-le-one i (op ∷ ops) s r k h p =
    let q = next i op r in
    let keyed = perform-IsKeyed op s k in
    let found = perform-next i op s r k h p.0 in
    elim (use-IsFinal i op s r h) [
      | inl none_now ↦ omega (arith, uses-le-one i ops (perform op s) q keyed found p.1)
      | inr (one_now, used_up) ↦
          omega (arith, unused_when_final i ops (perform op s) q keyed found p.1 (final used_up))
    ]
