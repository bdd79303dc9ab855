-- ===== src/Events/Scan.antt =====
-- `EventBus` of src/trimum_core/event_bus.py (lines 143 to 211) finds, through the index of
-- src/trimum_core/event_index.py, what a scan of all subscriptions finds.
use trimum.Base.{
  ℕ, suc, ◌<◌, ◌≡◌, refl, ap, ◌∙◌, sym, inl, inr, Bool, true, false, ◌&&◌, ◌||◌, List, [], ◌∷◌,
  ◌++◌, arith, if◌then◌else◌, Text, same, same_iff, Bool-cases, append-nil,
}
use trimum.Base.Dict.{Dict, lookup, Distinct}
use trimum.Events.{
  Listeners, star, first_segment, Ranked, sort, or_zero, ranked, extend_all, bucket_of, relevant,
  match_index, EventBus,
}
use trimum.Events.Ranks.{hits, hits-first, Below, sort-least}
use trimum.Events.Buckets.{pick, Ascending}

-- The listeners of every pattern that matches, in the order of the subscriptions.
unfoldable pub scan : Text → Dict Listeners → Listeners
scan event [] = []
scan event (x ∷ d) = let rest = scan event d in if hits x.0 event then x.1 ++ rest else rest

extend-ranked :
    (order : Dict ℕ) (event : Text) (d : Dict Listeners)
    → extend_all (ranked order event d) ≡ scan event d
unfolding extend_all ranked scan
extend-ranked order event [] = refl
extend-ranked order event (x ∷ d) = elim (Bool-cases (hits x.0 event)) [
  | inl i ↦ rw i (ap (λ l. x.1 ++ l) (extend-ranked order event d))
  | inr i ↦ rw i (extend-ranked order event d)
]

append-Below : (n : ℕ) (xs ys : List Ranked) → Below n xs → Below n ys → Below n (xs ++ ys)
append-Below n [] ys h g = g
append-Below n (x ∷ xs) ys h g = (h.0, append-Below n xs ys h.1 g)

-- One entry, in front of the left or the right list or of neither.
join :
    (f g h : Bool) (s : Ranked) (xs ys rs : List Ranked)
    → (h ≡ true → (f || g) ≡ true)
    → (f && g) ≡ false
    → Below s.0 xs
    → Below s.0 ys
    → sort (xs ++ ys) ≡ rs
    → sort ((if f && h then s ∷ xs else xs) ++ (if g && h then s ∷ ys else ys))
      ≡ (if h then s ∷ rs else rs)
join true true h s xs ys rs cover apart below above e = cc
join true false true s xs ys rs cover apart below above e =
    sort-least s [] (xs ++ ys) tt (append-Below s.0 xs ys below above) ∙ ap (λ l. s ∷ l) e
join true false false s xs ys rs cover apart below above e = e
join false true true s xs ys rs cover apart below above e =
    sort-least s xs ys below above ∙ ap (λ l. s ∷ l) e
join false true false s xs ys rs cover apart below above e = e
join false false true s xs ys rs cover apart below above e = let impossible = cover refl in cc
join false false false s xs ys rs cover apart below above e = e

module _ (order : Dict ℕ) (next : ℕ) (event : Text) (f g : Text → Bool) where
  ranked-Below :
      (h : Text → Bool) (n lo : ℕ) (d : Dict Listeners)
      → n < lo
      → Ascending order lo next d
      → Below n (ranked order event (pick h d))
  unfolding ranked pick
  ranked-Below h n lo [] less a = tt
  ranked-Below h n lo (x ∷ d) less (m, e, le, a) =
      let rest = ranked-Below h n (suc m) d (omega (arith, less, le)) a in
      ground (arith, rest, e, less, le)

  ranked-if :
      (b : Bool) (x : Text × Listeners) (d : Dict Listeners)
      → ranked order event (if b then x ∷ d else d) ≡ (
          if b && hits x.0 event
          then (or_zero (lookup x.0 order), x.1) ∷ ranked order event d
          else ranked order event d)
  unfolding ranked
  ranked-if true x d = refl
  ranked-if false x d = refl

  -- Two tests that part the patterns that match: the sort puts their ranks together again.
  sort-parts :
      (lo : ℕ) (d : Dict Listeners)
      → ((p : Text) → hits p event ≡ true → (f p || g p) ≡ true)
      → ((p : Text) → (f p && g p) ≡ false)
      → Ascending order lo next d
      → sort (ranked order event (pick f d) ++ ranked order event (pick g d)) ≡ ranked order event d
  unfolding ranked pick sort
  sort-parts lo [] cover apart a = refl
  sort-parts lo (x ∷ d) cover apart (m, e, le, a) =
      let rest = sort-parts (suc m) d cover apart a in
      let left = ranked-Below f m (suc m) d (ground arith) a in
      let right = ranked-Below g m (suc m) d (ground arith) a in
      let number : m ≡ or_zero (lookup x.0 order) = ap or_zero (sym e) in
      let left' = rw number at left in
      let right' = rw number at right in
      rw (ranked-if (f x.0) x (pick f d), ranked-if (g x.0) x (pick g d))
        (join (f x.0) (g x.0) (hits x.0 event) (or_zero (lookup x.0 order), x.1)
          (ranked order event (pick f d)) (ranked order event (pick g d)) (ranked order event d)
          (cover x.0) (apart x.0) left' right' rest)

-- The test for a bucket.
abbrev pub in_bucket : Text → Text → Bool
in_bucket first p = same (first_segment p) first

-- The index says the same as the subscriptions.
pub record Agrees (b : EventBus) : Type 0 where
  pub distinct : Distinct b.subscribers
  pub kept : (first : Text) → bucket_of first b.index ≡ pick (in_bucket first) b.subscribers
  pub ordered : Ascending b.index.pattern_order 0 b.index.next_order b.subscribers
  pub apart : Distinct b.index.buckets

pick-nothing : (d : Dict Listeners) → pick (λ p. false) d ≡ []
unfolding pick
pick-nothing [] = refl
pick-nothing (x ∷ d) = pick-nothing d

alone :
    (order : Dict ℕ) (next : ℕ) (event first : Text) (d : Dict Listeners)
    → ((p : Text) → hits p event ≡ true → in_bucket first p ≡ true)
    → Ascending order 0 next d
    → sort (ranked order event (pick (in_bucket first) d)) ≡ ranked order event d
unfolding ranked
alone order next event first d cover a =
    ap sort (sym (append-nil (ranked order event (pick (in_bucket first) d))))
    ∙ (ap (λ l. sort (ranked order event (pick (in_bucket first) d) ++ ranked order event l))
          (sym (pick-nothing d))
        ∙ sort-parts order next event (in_bucket first) (λ p. false) 0 d
            (λ p h. ground (arith, cover p h)) (λ p. ground arith) a)

relevant-sorted :
    (event : Text) (b : EventBus)
    → Agrees b
    → sort (relevant event b.index) ≡ ranked b.index.pattern_order event b.subscribers
unfolding relevant
relevant-sorted event b a = elim (Bool-cases (same (first_segment event) star)) [
  | inl i ↦
      let is_star = (same_iff (first_segment event) star).0 i in
      rw (i, a.kept (first_segment event))
        (alone b.index.pattern_order b.index.next_order event (first_segment event) b.subscribers
          (λ p h.
            let begins = hits-first p event h in
            ground (
              arith,
              begins,
              is_star,
              same_iff (first_segment p) star,
              same_iff (first_segment p) (first_segment event),
            ))
          a.ordered)
  | inr i ↦
      rw (i, a.kept (first_segment event), a.kept star)
        (sort-parts b.index.pattern_order b.index.next_order event (in_bucket (first_segment event))
          (in_bucket star) 0 b.subscribers
          (λ p h. let begins = hits-first p event h in ground (arith, begins))
          (λ p. ground (
            arith,
            i,
            same_iff (first_segment p) star,
            same_iff (first_segment event) star,
            same_iff (first_segment p) (first_segment event),
          ))
          a.ordered)
]

pub match-scan :
    (event : Text) (b : EventBus) → Agrees b → match_index event b.index ≡ scan event b.subscribers
unfolding match_index
match-scan event b a =
    ap extend_all (relevant-sorted event b a)
    ∙ extend-ranked b.index.pattern_order event b.subscribers
