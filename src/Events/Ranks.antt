-- ===== src/Events/Ranks.antt =====
-- `EventIndex.match` of src/trimum_core/event_index.py (lines 42 to 72 and 127 to 150): which
-- buckets can hold a match, and the sort by order.
use trimum.Base.{
  ℕ, ◌<◌, ◌≡◌, refl, ap, ◌∙◌, ◌⊎◌, inl, inr, Bool, true, false, ◌||◌, List, [], ◌∷◌, ◌++◌, arith,
  if◌then◌else◌, ◌==◌, All, Text, same, same_iff, Bool-cases,
}
use trimum.Events.{star, onto_first, split_dots, first_segment, walk, matches, Ranked, place, sort}

onto-first :
    (c : ℕ) (ws rest : List Text) (t : Text) → ws ≡ t ∷ rest → onto_first c ws ≡ (c ∷ t) ∷ rest
onto-first c [] rest t h = cc
onto-first c (w ∷ ws) rest t h = cc

split-first : (t : Text) → (ws : List Text) × (split_dots t ≡ first_segment t ∷ ws)
unfolding split_dots first_segment
split-first [] = ([], refl)
split-first (c ∷ t) = let (ws, h) = split-first t in by_dot ws h (c == b'.')
  where
    by_dot :
        (ws : List Text)
        → split_dots t ≡ first_segment t ∷ ws
        → (b : Bool)
        → (vs : List Text) × ((if b then [] ∷ split_dots t else onto_first c (split_dots t))
            ≡ (if b then [] else c ∷ first_segment t) ∷ vs)
    by_dot ws h true = (split_dots t, refl)
    by_dot ws h false = (ws, onto-first c (split_dots t) ws (first_segment t) h)

-- The pattern is "*" or matches.
abbrev pub hits : Text → Text → Bool
hits p event = same p star || matches p event

walk-first :
    (p a : Text) (ps actual : List Text)
    → walk (p ∷ ps) (a ∷ actual) ≡ true
    → (same p star ≡ true) ⊎ (same p a ≡ true)
unfolding walk
walk-first p a ps actual h = ground (arith, h)

star_first : same (first_segment star) star ≡ true
unfolding first_segment same
star_first = refl

-- A pattern that matches begins with a star or with the first segment of the event.
pub hits-first :
    (p event : Text)
    → hits p event ≡ true
    → (same (first_segment p) star ≡ true) ⊎ (same (first_segment p) (first_segment event) ≡ true)
unfolding matches
hits-first p event h = elim (Bool-cases (same p star)) [
  | inl i ↦ inl (rw ((same_iff p star).0 i) star_first)
  | inr i ↦
      let (ps, e) = split-first p in
      let (actual, e') = split-first event in
      let walked : walk (split_dots p) (split_dots event) ≡ true = ground (arith, h, i) in
      walk-first (first_segment p) (first_segment event) ps actual (rw (e, e') at walked)
]

abbrev pub Below : ℕ → List Ranked → Type 0
Below n xs = All (λ x. n < x.0) xs

place-least : (x : Ranked) (ys : List Ranked) → Below x.0 ys → place x ys ≡ x ∷ ys
unfolding place
place-least x [] h = refl
place-least x (y ∷ ys) h = ground (arith, h.0)

place-Below : (n : ℕ) (x : Ranked) (ys : List Ranked) → n < x.0 → Below n ys → Below n (place x ys)
unfolding place
place-Below n x [] g h = (g, tt)
place-Below n x (y ∷ ys) g h = ground (arith, g, h, place-Below n x ys)

sort-Below : (n : ℕ) (xs : List Ranked) → Below n xs → Below n (sort xs)
unfolding sort
sort-Below n [] h = tt
sort-Below n (x ∷ xs) h = place-Below n x (sort xs) h.0 (sort-Below n xs h.1)

place_after : (s x : Ranked) (ys : List Ranked) → s.0 < x.0 → place x (s ∷ ys) ≡ s ∷ place x ys
unfolding place
place_after s x ys h = ground (arith, h)

-- The least entry comes to the front.
pub sort-least :
    (s : Ranked) (xs ys : List Ranked)
    → Below s.0 xs
    → Below s.0 ys
    → sort (xs ++ s ∷ ys) ≡ s ∷ sort (xs ++ ys)
unfolding sort
sort-least s [] ys h g = place-least s (sort ys) (sort-Below s.0 ys g)
sort-least s (x ∷ xs) ys h g =
    ap (place x) (sort-least s xs ys h.1 g) ∙ place_after s x (sort (xs ++ ys)) h.0
