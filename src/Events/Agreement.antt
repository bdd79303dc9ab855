-- ===== src/Events/Agreement.antt =====
-- `subscribe` and `unsubscribe` of src/trimum_core/event_bus.py (lines 143 to 175) keep the index of
-- src/trimum_core/event_index.py in step with the subscriptions.
use trimum.Base.{
  ◌≡◌, refl, ap, ◌∙◌, ◌≢◌, inl, inr, some, [], ◌∷◌, arith, if◌then◌else◌, Text, All, same, same_iff,
  same_refl, Bool-cases,
}
use trimum.Base.Dict.{
  Dict, lookup, insert, erase, Distinct, lookup-insert, lookup-erase_ne, lookup-erase_self,
  insert-Distinct, erase-Distinct,
}
use trimum.Events.{Listeners, first_segment, EventIndex, bucket_of, put_bucket, EventBus}
use trimum.Events.Buckets.{pick, lookup-pick, pick-insert, pick-erase}
use trimum.Events.Scan.{in_bucket, Agrees}

-- No pattern is left without listeners.
abbrev pub Full : Dict Listeners → Type 0
Full d = All (λ x. x.1 ≢ []) d

pub insert-Full :
    (k : Text) (v : Listeners) (d : Dict Listeners) → v ≢ [] → Full d → Full (insert k v d)
unfolding insert
insert-Full k v [] h full = (h, tt)
insert-Full k v (x ∷ d) h full = elim (Bool-cases (same k x.0)) [
  | inl i ↦ rw i (h, full.1)
  | inr i ↦ rw i (full.0, insert-Full k v d h full.1)
]

pub erase-Full : (k : Text) (d : Dict Listeners) → Full d → Full (erase k d)
unfolding erase
erase-Full k [] full = tt
erase-Full k (x ∷ d) full = elim (Bool-cases (same k x.0)) [
  | inl i ↦ rw i (full.1)
  | inr i ↦ rw i (full.0, erase-Full k d full.1)
]

pub lookup-Full :
    (k : Text) (l : Listeners) (d : Dict Listeners) → lookup k d ≡ some l → Full d → l ≢ []
unfolding lookup
lookup-Full k l [] h full = cc
lookup-Full k l (x ∷ d) h full = elim (Bool-cases (same k x.0)) [
  | inl i ↦ let h' = rw i at h in let e : x.1 ≡ l = cc in rw⁻¹ e (full.0)
  | inr i ↦ let h' = rw i at h in lookup-Full k l d h' full.1
]

same_entry : (k : Text) (l : Listeners) (x : Text × Listeners) → k ≡ x.0 → x.1 ≡ l → (k, l) ≡ x
same_entry k l (k', l') h e = cc

pub insert_again :
    (k : Text) (l : Listeners) (d : Dict Listeners) → lookup k d ≡ some l → insert k l d ≡ d
unfolding lookup insert
insert_again k l [] h = cc
insert_again k l (x ∷ d) h = elim (Bool-cases (same k x.0)) [
  | inl i ↦
      let h' = rw i at h in
      let e : x.1 ≡ l = cc in
      let k_first = (same_iff k x.0).0 i in rw i (ap (λ y. y ∷ d) (same_entry k l x k_first e))
  | inr i ↦ let h' = rw i at h in rw i (ap (λ y. x ∷ y) (insert_again k l d h'))
]

-- The bus in step with its index.
pub record InStep (b : EventBus) : Type 0 where
  pub agrees : Agrees b
  pub full : Full b.subscribers

module _ (b : EventBus) (a : InStep b) (p : Text) where
  pub same_listeners : lookup p (bucket_of (first_segment p) b.index) ≡ lookup p b.subscribers
  same_listeners =
      ap (lookup p) (a.agrees.kept (first_segment p))
      ∙ lookup-pick (in_bucket (first_segment p)) p b.subscribers (same_refl (first_segment p))

  pub put-bucket :
      (first : Text) (d : Dict Listeners) (ix : EventIndex)
      → Distinct ix.buckets
      → bucket_of first (put_bucket (first_segment p) d ix)
        ≡ (if same first (first_segment p) then d else bucket_of first ix)
  put-bucket first [] ix apart = ground (
    arith,
    same_iff first (first_segment p),
    lookup-erase_ne first (first_segment p) ix.buckets,
    lookup-erase_self first ix.buckets apart,
  )
  put-bucket first (x ∷ d) ix apart = ground (
    arith,
    same_iff first (first_segment p),
    lookup-insert first (first_segment p) (x ∷ d) ix.buckets,
  )

  pub put_bucket-Distinct :
      (d : Dict Listeners) (ix : EventIndex)
      → Distinct ix.buckets
      → Distinct (put_bucket (first_segment p) d ix).buckets
  put_bucket-Distinct [] ix apart = erase-Distinct (first_segment p) ix.buckets apart
  put_bucket-Distinct (x ∷ d) ix apart = insert-Distinct (first_segment p) (x ∷ d) ix.buckets apart

  pub put_bucket-order :
      (d : Dict Listeners) (ix : EventIndex)
      → ((put_bucket (first_segment p) d ix).pattern_order ≡ ix.pattern_order)
        × ((put_bucket (first_segment p) d ix).next_order ≡ ix.next_order)
  put_bucket-order [] ix = (refl, refl)
  put_bucket-order (x ∷ d) ix = (refl, refl)

  -- The new bucket holds what is picked of the new subscriptions.
  pub new-kept :
      (v : Listeners) (first : Text)
      → (if same first (first_segment p)
          then insert p v (bucket_of (first_segment p) b.index)
          else bucket_of first b.index)
        ≡ pick (in_bucket first) (insert p v b.subscribers)
  new-kept v first = ground (
    arith,
    pick-insert (in_bucket first) p v b.subscribers,
    a.agrees.kept first,
    a.agrees.kept (first_segment p),
    same_iff first (first_segment p),
    same_iff (first_segment p) first,
  )

  pub less-kept :
      (first : Text)
      → (if same first (first_segment p)
          then erase p (bucket_of (first_segment p) b.index)
          else bucket_of first b.index)
        ≡ pick (in_bucket first) (erase p b.subscribers)
  less-kept first = ground (
    arith,
    pick-erase (in_bucket first) p b.subscribers,
    a.agrees.kept first,
    a.agrees.kept (first_segment p),
    same_iff first (first_segment p),
    same_iff (first_segment p) first,
  )
