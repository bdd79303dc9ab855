-- ===== src/Approvals/Lifecycle.antt =====
-- One operation of src/trimum_core/approvals.py at a time: what it makes of the record that is
-- stored under an identifier.
use trimum.Base.{
  ℕ, ◌≡◌, refl, ◌⊎◌, inl, inr, Bool, Option, none, some, zero, suc, Option-cases, arith,
  if◌then◌else◌, Text, same, same_iff, Bool-cases,
}
use trimum.Base.Dict.{lookup, lookup-insert}
use trimum.Approvals.Request.{
  Outcome, returns, raises, pending, approved, expired, consumed, ApprovalRequest, RawRequest,
  is_expired, from_dict, to_dict, from_dict-to_dict,
}
use trimum.Approvals.Store.{
  garbage, object, Store, on_record, load, read, write, with_status, stamped, used, get, decide,
  consume, get_loaded, decide_loaded, consume_loaded, Ask, request, list_pending,
}

-- Every stored object carries the identifier that its file is named after.
abbrev pub IsKeyed : Store → Type 0
IsKeyed s = (k : Text) (d : RawRequest) → lookup k s.files ≡ some (object d) → d.id ≡ some k

-- A call of the store, with the times at which it is made.
pub data Op : Type 0 where
  fetch : (id : Text) (wall : ℕ) → Op
  decision : (id : Text) (wall clock : ℕ) (vote : Bool) (by : Text) → Op
  consumption : (id : Text) (wall clock : ℕ) → Op
  creation : (id : Text) (clock ttl : ℕ) → Ask → Op
  listing : (wall : ℕ) → Op

unfoldable pub perform : Op → Store → Store
perform (fetch i w) s = (get w i s).1
perform (decision i w c v b) s = (decide w c v b i s).1
perform (consumption i w c) s = (consume w c i s).1
perform (creation i c t a) s = (request i c t a s).1
perform (listing w) s = (list_pending w s).1

-- The specification: what each call means for one record, whatever else the store holds.
unfoldable pub settle : ℕ → ApprovalRequest → ApprovalRequest
unfolding is_expired
settle w r = if is_expired w r then with_status expired r else r

unfoldable pub vote_on : ℕ → ℕ → Bool → Text → ApprovalRequest → ApprovalRequest
unfolding settle
vote_on w c v b r = elim (settle w r).status [ pending ↦ stamped v b c r | _ ↦ settle w r ]

-- The second stamp of an approved record that has one is not written.
unfoldable pub spend : ℕ → ℕ → ApprovalRequest → ApprovalRequest
unfolding settle
spend w c r = elim (settle w r).status [
  | approved ↦ elim r.used_at [ zero ↦ used c r | suc _ ↦ with_status consumed r ]
  | _ ↦ settle w r
]

unfoldable pub next : Text → Op → ApprovalRequest → ApprovalRequest
unfolding settle vote_on spend
next i (fetch j w) r = if same i j then settle w r else r
next i (decision j w c v b) r = if same i j then vote_on w c v b r else r
next i (consumption j w c) r = if same i j then spend w c r else r
next i (creation j c t a) r = r
next i (listing w) r = settle w r

-- The call makes no new request under this identifier.
abbrev pub Spares : Text → Op → Type 0
Spares i (creation j c t a) = i ≡ j → ⊥
Spares i _ = Unit

pub read-write :
    (j : Text) (r : ApprovalRequest) (s : Store)
    → read j (write r s) ≡ (if same j r.id then returns (some r) else read j s)
unfolding read write load
read-write j r s =
    ground (arith, lookup-insert j r.id (object (to_dict r)) s.files, from_dict-to_dict r)

pub write-IsKeyed : (r : ApprovalRequest) (s : Store) → IsKeyed s → IsKeyed (write r s)
unfolding write to_dict
write-IsKeyed r s keyed k d h =
    ground (arith, lookup-insert k r.id (object (to_dict r)) s.files, same_iff k r.id, keyed k d)

-- A record is read only from an object with its identifier.
read-inv :
    (i : Text) (s : Store) (r : ApprovalRequest)
    → read i s ≡ returns (some r)
    → (d : RawRequest) × (lookup i s.files ≡ some (object d)) × (d.id ≡ some r.id)
unfolding read load from_dict
read-inv i s r h = elim (Option-cases (lookup i s.files)) [
  | inl e ↦ ground arith
  | inr (garbage, e) ↦ ground arith
  | inr (object d, e) ↦ (d, e, ground arith)
]

-- In a keyed store the record read under a name has that identifier.
pub read-id :
    (i : Text) (s : Store) (r : ApprovalRequest)
    → IsKeyed s
    → read i s ≡ returns (some r)
    → r.id ≡ i
read-id i s r keyed h = let (d, found, named) = read-inv i s r h in ground (arith, keyed i d found)

-- No read of a keyed store raises.
pub read-raises : (i : Text) (s : Store) → IsKeyed s → read i s ≡ raises → ⊥
unfolding read load from_dict
read-raises i s keyed h = elim (Option-cases (lookup i s.files)) [
  | inl e ↦ ground arith
  | inr (garbage, e) ↦ ground arith
  | inr (object d, e) ↦ ground (arith, keyed i d e)
]

-- What `get`, `decide` and `consume` do with a record that they found: `f` is what they store.
abbrev pub Stores :
    (ApprovalRequest → Store → Outcome (Option ApprovalRequest) × Store)
    → (ApprovalRequest → ApprovalRequest)
    → Type 0
Stores k f =
    (r : ApprovalRequest) (s : Store)
    → ((k r s ≡ (returns (some (f r)), s)) × (f r ≡ r))
      ⊎ ((k r s ≡ (returns (some (f r)), write (f r) s)) × ((f r).id ≡ r.id))

pub get-Stores : (w : ℕ) → Stores (get_loaded w) (settle w)
unfolding get_loaded settle
get-Stores w r s = elim (Bool-cases (is_expired w r)) [
  | inl e ↦ inr (rw e refl, rw e refl)
  | inr e ↦ inl (rw e refl, rw e refl)
]

pub decide-Stores :
    (w c : ℕ) (v : Bool) (b : Text) → Stores (decide_loaded w c v b) (vote_on w c v b)
unfolding decide_loaded vote_on
decide-Stores w c v b r s = ground arith

pub consume-Stores : (w c : ℕ) → Stores (consume_loaded w c) (spend w c)
unfolding consume_loaded spend
consume-Stores w c r s = ground arith

module _ {k : ApprovalRequest → Store → Outcome (Option ApprovalRequest) × Store}
    {f : ApprovalRequest → ApprovalRequest} (law : Stores k f) where
  pub Stores-read :
      (i j : Text) (s : Store) (r q : ApprovalRequest)
      → IsKeyed s
      → read i s ≡ returns (some r)
      → read j s ≡ returns (some q)
      → read j (on_record (read i s) k s).1 ≡ returns (some (if same j i then f q else q))
  Stores-read i j s r q keyed h g = elim (law r s) [
    | inl (e, same_r) ↦ rw (h, e) (ground (arith, same_iff j i))
    | inr (e, same_id) ↦
        rw (h, e)
          (ground
            (arith, same_iff j i, read-write j (f r) s, read-id i s r keyed h, same_iff j (f r).id))
  ]

  pub Stores-answer :
      (i : Text) (s : Store) (r : ApprovalRequest)
      → read i s ≡ returns (some r)
      → (on_record (read i s) k s).0 ≡ returns (some (f r))
  Stores-answer i s r h = ground (arith, law r s)

  pub Stores-IsKeyed : (i : Text) (s : Store) → IsKeyed s → IsKeyed (on_record (read i s) k s).1
  Stores-IsKeyed i s keyed = go (read i s)
    where
      go : (o : Outcome (Option ApprovalRequest)) → IsKeyed (on_record o k s).1
      go raises = keyed
      go (returns none) = keyed
      go (returns (some r)) = elim (law r s) [
        | inl (e, _) ↦ rw e keyed
        | inr (e, _) ↦ rw e (write-IsKeyed (f r) s keyed)
      ]
