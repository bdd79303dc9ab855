-- ===== src/Approvals/Faults.antt =====
-- Expiry, and the answers of `consume`, in src/trimum_core/approvals.py (lines 188 to 251).
use trimum.Base.{ℕ, ◌≡◌, Bool, true, some, arith, Text, same_iff}
use trimum.Approvals.Request.{returns, approved, expired, ApprovalRequest, is_expired}
use trimum.Approvals.Store.{
  Store, read, get, decide, consume, on_record, consume_loaded, with_status,
}
use trimum.Approvals.Lifecycle.{
  IsKeyed, settle, vote_on, spend, Stores-read, Stores-answer, get-Stores, decide-Stores,
  consume-Stores,
}

-- A pending request whose time is up is answered as expired by `get`, by `decide` whatever the
-- vote, and by `consume`, and the next reader finds it expired.
pub expired_fails_closed :
    (i : Text) (w c : ℕ) (v : Bool) (b : Text) (s : Store) (r : ApprovalRequest)
    → IsKeyed s
    → read i s ≡ returns (some r)
    → is_expired w r ≡ true
    → let gone = with_status expired r in
      (get w i s).0 ≡ returns (some gone)
      × ((decide w c v b i s).0 ≡ returns (some gone))
      × ((consume w c i s).0 ≡ returns (some gone))
      × (read i (get w i s).1 ≡ returns (some gone))
      × (read i (decide w c v b i s).1 ≡ returns (some gone))
      × (read i (consume w c i s).1 ≡ returns (some gone))
unfolding get decide consume settle vote_on spend
expired_fails_closed i w c v b s r k h e = (
  ground (arith, Stores-answer (get-Stores w) i s r h),
  ground (arith, Stores-answer (decide-Stores w c v b) i s r h),
  ground (arith, Stores-answer (consume-Stores w c) i s r h),
  ground (arith, Stores-read (get-Stores w) i i s r r k h h, same_iff i i),
  ground (arith, Stores-read (decide-Stores w c v b) i i s r r k h h, same_iff i i),
  ground (arith, Stores-read (consume-Stores w c) i i s r r k h h, same_iff i i),
)

-- The answer to the call of `consume` that uses a request up and the answer to every later call,
-- at any times, are the same record: a caller cannot tell the one use from a repetition by it.
pub consume_indistinct :
    (i : Text) (w c w' c' : ℕ) (s : Store) (r : ApprovalRequest)
    → IsKeyed s
    → read i s ≡ returns (some r)
    → r.status ≡ approved
    → (consume w' c' i (consume w c i s).1).0 ≡ (consume w c i s).0
unfolding consume spend settle is_expired
consume_indistinct i w c w' c' s r k h e =
    let used_up : read i (on_record (read i s) (consume_loaded w c) s).1
        ≡ returns (some (spend w c r)) =
      ground (arith, Stores-read (consume-Stores w c) i i s r r k h h, same_iff i i) in
    ground (
      arith,
      Stores-answer (consume-Stores w c) i s r h,
      Stores-answer (consume-Stores w' c') i (on_record (read i s) (consume_loaded w c) s).1
          (spend w c r) used_up,
    )
