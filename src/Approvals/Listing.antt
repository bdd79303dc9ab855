-- ===== src/Approvals/Listing.antt =====
-- What `list_pending` of src/trimum_core/approvals.py (lines 253 to 278) is for.
use trimum.Base.{
  ℕ, ◌≡◌, refl, sym, ap, ◌∙◌, ◌⊎◌, inl, inr, Bool, true, false, not, ◌||◌, Option, none, some, List,
  [], ◌∷◌, ◌++◌, map, arith, if◌then◌else◌, any, Text, same, same_iff, same_refl, Bool-cases,
  Option-cases,
}
use trimum.Base.Dict.{Dict, lookup}
use trimum.Approvals.Request.{
  Outcome, returns, raises, pending, ApprovalRequest, is_pending, is_expired,
}
use trimum.Approvals.Store.{
  Content, Store, Listing, read, list_loaded, list_from, list_pending, sorted_names, place, listed,
  get_loaded, write,
}
use trimum.Approvals.Lifecycle.{IsKeyed, settle, read-write, read-id, read-raises, write-IsKeyed}
pub mod Order
pub mod Loop

pub settle_idem : (w : ℕ) (r : ApprovalRequest) → settle w (settle w r) ≡ settle w r
unfolding settle
settle_idem w r = ground arith

pub listed-store : (o : Option ApprovalRequest) (l : Listing) → (listed o l).1 ≡ l.1
listed-store none l = refl
listed-store (some r) (returns rs, s) = refl
listed-store (some r) (raises, s) = refl

-- What one turn of the loop does to the record that it found, and to the others.
pub list_loaded-store :
    (w : ℕ) (n : Text) (s : Store) (r : ApprovalRequest)
    → IsKeyed s
    → read n s ≡ returns (some r)
    → IsKeyed (list_loaded w r s).1
      × ((j : Text)
          → read j (list_loaded w r s).1
            ≡ (if same j n then returns (some (settle w r)) else read j s))
unfolding list_loaded settle
list_loaded-store w n s r keyed h = elim (Bool-cases (is_expired w r)) [
  | inl e ↦ (
    ground (arith, write-IsKeyed (settle w r) s keyed),
    λ j. ground (arith, same_iff j n, read-write j (settle w r) s, read-id n s r keyed h),
  )
  | inr e ↦ (ground arith, λ j. ground (arith, same_iff j n))
]

-- The specification: the pending records of the directory as it was, in the order of the names,
-- that had not expired.
unfoldable pub kept : ℕ → Outcome (Option ApprovalRequest) → List ApprovalRequest
kept w raises = []
kept w (returns none) = []
kept w (returns (some r)) =
    if is_pending r.status then (if is_expired w r then [] else r ∷ []) else []

unfoldable pub live : ℕ → List Text → Store → List ApprovalRequest
unfolding kept
live w [] s = []
live w (n ∷ ns) s = kept w (read n s) ++ live w ns s

abbrev pub settled : ℕ → Outcome (Option ApprovalRequest) → Outcome (Option ApprovalRequest)
settled w raises = raises
settled w (returns none) = returns none
settled w (returns (some r)) = returns (some (settle w r))

kept-settled : (w : ℕ) (o : Outcome (Option ApprovalRequest)) → kept w (settled w o) ≡ kept w o
unfolding kept settle
kept-settled w raises = refl
kept-settled w (returns none) = refl
kept-settled w (returns (some r)) = ground arith

-- Two directories agree up to records that have expired by now.
abbrev pub AgreeAt : ℕ → Store → Store → Type 0
AgreeAt w s' s = (j : Text) → (read j s' ≡ read j s) ⊎ (read j s' ≡ settled w (read j s))

pub live-AgreeAt :
    (w : ℕ) (ns : List Text) (s' s : Store) → AgreeAt w s' s → live w ns s' ≡ live w ns s
unfolding live
live-AgreeAt w [] s' s h = refl
live-AgreeAt w (n ∷ ns) s' s h = cc (live-AgreeAt w ns s' s h, go (h n))
  where
    go :
        (read n s' ≡ read n s) ⊎ (read n s' ≡ settled w (read n s))
        → kept w (read n s') ≡ kept w (read n s)
    go (inl e) = ap (kept w) e
    go (inr e) = ap (kept w) e ∙ kept-settled w (read n s)

settled_twice :
    (w : ℕ) (o : Outcome (Option ApprovalRequest)) → settled w (settled w o) ≡ settled w o
settled_twice w raises = refl
settled_twice w (returns none) = refl
settled_twice w (returns (some r)) = rw (settle_idem w r)

-- What the loop leaves, and what it answers.
abbrev Lists : ℕ → List Text → Store → Listing → Type 0
Lists w ns s l =
    (l.0 ≡ returns (live w ns s))
    × IsKeyed l.1
    × ((j : Text) → read j l.1 ≡ (if any (same j) ns then settled w (read j s) else read j s))
