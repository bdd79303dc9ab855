-- ===== src/Approvals/Runs.antt =====
-- Whole runs of the approval store of src/trimum_core/approvals.py: sequences of calls, from any
-- number of callers, and the record under one identifier.
use trimum.Base.{
  ◌≡◌, ap, inl, inr, Option, none, some, List, [], ◌∷◌, arith, if◌then◌else◌, Text, same, same_iff,
  All,
}
use trimum.Approvals.Request.{Outcome, returns, ApprovalRequest}
use trimum.Approvals.Store.{Store, read, on_record, get, decide, consume, request}
use trimum.Approvals.Lifecycle.{
  IsKeyed, Op, fetch, decision, consumption, creation, listing, perform, next, Spares, read-write,
  read-raises, write-IsKeyed, Stores, Stores-read, Stores-IsKeyed, get-Stores, decide-Stores,
  consume-Stores,
}
use trimum.Approvals.Listing.Loop.{list_pending-live, read-cases}

-- Every call keeps the store keyed.
pub perform-IsKeyed : (op : Op) (s : Store) → IsKeyed s → IsKeyed (perform op s)
unfolding perform get decide consume request
perform-IsKeyed (fetch i w) s k = Stores-IsKeyed (get-Stores w) i s k
perform-IsKeyed (decision i w c v b) s k = Stores-IsKeyed (decide-Stores w c v b) i s k
perform-IsKeyed (consumption i w c) s k = Stores-IsKeyed (consume-Stores w c) i s k
perform-IsKeyed (creation i c t a) s k = write-IsKeyed _ s k
perform-IsKeyed (listing w) s k = (list_pending-live w s k).4

Stores-next :
    {k : ApprovalRequest → Store → Outcome (Option ApprovalRequest) × Store}
    {f : ApprovalRequest → ApprovalRequest}
    → Stores k f
    → (i j : Text) (s : Store) (q : ApprovalRequest) → IsKeyed s
    → read i s ≡ returns (some q)
    → read i (on_record (read j s) k s).1 ≡ returns (some (if same i j then f q else q))
Stores-next {k} {f} law i j s q keyed h = elim (read-cases j s) [
  | inl e ↦ absurd (read-raises j s keyed e)
  | inr (none, e) ↦ rw (e, h) (ground (arith, same_iff i j, ap (λ t. read t s)))
  | inr (some r, e) ↦ Stores-read law j i s r q keyed e h
]

-- One call is one step of the specification, for every record that it does not overwrite.
pub perform-next :
    (i : Text) (op : Op) (s : Store) (r : ApprovalRequest)
    → IsKeyed s
    → read i s ≡ returns (some r)
    → Spares i op
    → read i (perform op s) ≡ returns (some (next i op r))
unfolding perform next get decide consume request
perform-next i (fetch j w) s r k h p = Stores-next (get-Stores w) i j s r k h
perform-next i (decision j w c v b) s r k h p = Stores-next (decide-Stores w c v b) i j s r k h
perform-next i (consumption j w c) s r k h p = Stores-next (consume-Stores w c) i j s r k h
perform-next i (creation j c t a) s r k h p =
    ground (arith, read-write i (request j c t a s).0 s, same_iff i j)
perform-next i (listing w) s r k h p = rw ((list_pending-live w s k).5 i, h)

-- Calls one after another, in the order in which they reach the directory.
unfoldable pub run : List Op → Store → Store
unfolding perform
run [] s = s
run (op ∷ ops) s = run ops (perform op s)

unfoldable pub evolve : Text → List Op → ApprovalRequest → ApprovalRequest
unfolding next
evolve i [] r = r
evolve i (op ∷ ops) r = evolve i ops (next i op r)

-- The store implements independent records: after any calls that make no new request under its
-- identifier, the record that is read is the first one, taken through the calls by the
-- specification, and the store is still keyed.
pub run-evolve :
    (i : Text) (ops : List Op) (s : Store) (r : ApprovalRequest)
    → IsKeyed s
    → read i s ≡ returns (some r)
    → All (Spares i) ops
    → (read i (run ops s) ≡ returns (some (evolve i ops r))) × IsKeyed (run ops s)
unfolding run evolve
run-evolve i [] s r k h p = (h, k)
run-evolve i (op ∷ ops) s r k h p =
    run-evolve i ops (perform op s) (next i op r) (perform-IsKeyed op s k)
      (perform-next i op s r k h p.0) p.1
