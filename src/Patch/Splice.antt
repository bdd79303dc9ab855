-- ===== src/Patch/Splice.antt =====
-- What the hunks of src/trimum_core/patch_ops.py do to a file.
use trimum.Base.{
  ℕ, zero, suc, ◌+◌, ◌-◌, ◌≡◌, refl, ap, ◌∙◌, ◌⊎◌, inl, inr, ◌≢◌, true, false, some, List, [], ◌∷◌,
  ◌++◌, arith, ltb, length, length-append, drop, get_elem?, drop_append, Text, same, same_iff,
  Bool-cases, Option-cases,
}
use Prim.Native.Nat.{max}
use trimum.Patch.Hunks.{
  accepted, rejected, Side, context, removed, added, BodyLine, Hunk, content, old_len, agrees,
  keeps, walk, splice, apply_from,
}

-- The lines that a body shows of the old file, and of the new one.
unfoldable pub old_side : List BodyLine → List Text
unfolding content
old_side [] = []
old_side (b ∷ bs) = elim b.side [ added ↦ old_side bs | _ ↦ content b ∷ old_side bs ]

unfoldable pub new_side : List BodyLine → List Text
unfolding content
new_side [] = []
new_side (b ∷ bs) = elim b.side [ removed ↦ new_side bs | _ ↦ content b ∷ new_side bs ]

pub length-old_side : (bs : List BodyLine) → length (old_side bs) ≡ old_len bs
unfolding old_side old_len
length-old_side [] = refl
length-old_side (b ∷ bs) = ground (arith, length-old_side bs)

-- The old file shows these lines from this position on.
abbrev pub Shows : List Text → ℕ → List Text → Type 0
Shows old pos [] = Unit
Shows old pos (l ∷ ls) = (get_elem? old pos ≡ some l) × Shows old (suc pos) ls

agrees-cases :
    (old : List Text) (pos : ℕ) (l : Text)
    → ((agrees old pos l ≡ true) × (get_elem? old pos ≡ some l))
      ⊎ ((agrees old pos l ≡ false) × (get_elem? old pos ≢ some l))
unfolding agrees
agrees-cases old pos l = elim (Option-cases (get_elem? old pos)) [
  | inl e ↦ rw (e, agrees) (inr (refl, λ h. cc))
  | inr (m, e) ↦
      rw (e, agrees)
        (elim (Bool-cases (same m l)) [
          | inl q ↦ inl (q, ap some ((same_iff m l).0 q))
          | inr q ↦ inr (q, λ h. ground (arith, same_iff m l))
        ])
]

-- What the walk over a body answers: the new side if the old file shows the old side.
abbrev pub Walks : List Text → ℕ → List BodyLine → Type 0
Walks old pos bs =
    ((walk old pos bs ≡ accepted (new_side bs)) × Shows old pos (old_side bs))
    ⊎ ((walk old pos bs ≡ rejected) × (Shows old pos (old_side bs) → ⊥))

added-Walks :
    (old : List Text) (pos : ℕ) (b : BodyLine) (bs : List BodyLine)
    → b.side ≡ added
    → Walks old pos bs
    → Walks old pos (b ∷ bs)
unfolding walk old_side new_side
added-Walks old pos b bs e w = rw (e, walk, old_side, new_side) (go w)
  where
    go :
        Walks old pos bs
        → ((keeps (content b) (walk old pos bs) ≡ accepted (content b ∷ new_side bs))
            × Shows old pos (old_side bs))
          ⊎ ((keeps (content b) (walk old pos bs) ≡ rejected) × (Shows old pos (old_side bs) → ⊥))
    go (inl (h, k)) = inl (rw h, k)
    go (inr (h, k)) = inr (rw h, k)

removed-Walks :
    (old : List Text) (pos : ℕ) (b : BodyLine) (bs : List BodyLine)
    → b.side ≡ removed
    → Walks old (suc pos) bs
    → Walks old pos (b ∷ bs)
unfolding walk old_side new_side
removed-Walks old pos b bs e w =
    rw (e, walk, old_side, new_side)
      (elim (agrees-cases old pos (content b)) [
        | inl (t, g) ↦
            rw t (elim w [ inl (h, k) ↦ inl (h, (g, k)) | inr (h, k) ↦ inr (h, λ (_, m). k m) ])
        | inr (f, n) ↦ rw f (inr (refl, λ (g, _). n g))
      ])

context-Walks :
    (old : List Text) (pos : ℕ) (b : BodyLine) (bs : List BodyLine)
    → b.side ≡ context
    → Walks old (suc pos) bs
    → Walks old pos (b ∷ bs)
unfolding walk old_side new_side
context-Walks old pos b bs e w =
    rw (e, walk, old_side, new_side)
      (elim (agrees-cases old pos (content b)) [
        | inl (t, g) ↦
            rw t
              (elim w [ inl (h, k) ↦ inl (rw h, (g, k)) | inr (h, k) ↦ inr (rw h, λ (_, m). k m) ])
        | inr (f, n) ↦ rw f (inr (refl, λ (g, _). n g))
      ])

side-cases : (s : Side) → (s ≡ context) ⊎ (s ≡ removed) ⊎ (s ≡ added)
side-cases context = inl refl
side-cases removed = inr (inl refl)
side-cases added = inr (inr refl)

pub walk-Walks : (old : List Text) (pos : ℕ) (bs : List BodyLine) → Walks old pos bs
unfolding walk old_side new_side
walk-Walks old pos [] = inl (refl, tt)
walk-Walks old pos (b ∷ bs) = elim (side-cases b.side) [
  | inl e ↦ context-Walks old pos b bs e (walk-Walks old (suc pos) bs)
  | inr (inl e) ↦ removed-Walks old pos b bs e (walk-Walks old (suc pos) bs)
  | inr (inr e) ↦ added-Walks old pos b bs e (walk-Walks old pos bs)
]

get-drop :
    (old : List Text) (pos : ℕ) (l : Text)
    → get_elem? old pos ≡ some l
    → drop pos old ≡ l ∷ drop (suc pos) old
get-drop [] pos l h = cc
get-drop (x ∷ xs) zero l h = cc
get-drop (x ∷ xs) (suc pos) l h = get-drop xs pos l h

drop-get :
    (old : List Text) (pos : ℕ) (l : Text) (t : List Text)
    → drop pos old ≡ l ∷ t
    → (get_elem? old pos ≡ some l) × (drop (suc pos) old ≡ t)
drop-get [] zero l t h = cc
drop-get [] (suc pos) l t h = cc
drop-get (x ∷ xs) zero l t h = (cc, cc)
drop-get (x ∷ xs) (suc pos) l t h = drop-get xs pos l t h

pub Shows-drop :
    (old : List Text) (pos : ℕ) (ls : List Text)
    → Shows old pos ls
    → drop pos old ≡ ls ++ drop (pos + length ls) old
Shows-drop old pos [] h = ap (λ (n : ℕ). drop n old) (omega arith)
Shows-drop old pos (l ∷ ls) h =
    get-drop old pos l h.0
    ∙ ap (λ t. l ∷ t)
        (Shows-drop old (suc pos) ls h.1 ∙ ap (λ (n : ℕ). ls ++ drop n old) (omega arith))

pub drop-Shows :
    (old : List Text) (pos : ℕ) (ls post : List Text) → drop pos old ≡ ls ++ post → Shows old pos ls
drop-Shows old pos [] post h = tt
drop-Shows old pos (l ∷ ls) post h =
    let (here, rest) = drop-get old pos l (ls ++ post) h in
    (here, drop-Shows old (suc pos) ls post rest)

pub drop_at : (op rest : List Text) (a : ℕ) → length op ≡ a → drop a (op ++ rest) ≡ rest
drop_at op rest a e =
    ap (λ n. drop n (op ++ rest)) (plus_zero (length op) a e) ∙ drop_append op rest 0
  where
    plus_zero : (m n : ℕ) → m ≡ n → n ≡ m + 0
    plus_zero m n q = omega arith

-- The hunk fits the old file at its position.
abbrev pub Fits : List Text → ℕ → List BodyLine → List Text → List Text → Type 0
Fits old a bs op post = (length op ≡ a) × (old ≡ op ++ (old_side bs ++ post))

pub length-Fits :
    (old : List Text) (a : ℕ) (bs : List BodyLine) (op post : List Text)
    → Fits old a bs op post
    → length old ≡ a + (old_len bs + length post)
length-Fits old a bs op post (e, split) = rw split (
    omega (
      arith,
      length-append op (old_side bs ++ post),
      length-append (old_side bs) post,
      length-old_side bs,
    ))

-- A hunk that fits is written at its place, and the loop goes on.
pub apply_from-step :
    (old new : List Text) (a : ℕ) (bs : List BodyLine) (op post : List Text) (hs : List Hunk)
    → Fits old a bs op post
    → apply_from old new (record { start = suc a; body = bs } ∷ hs)
      ≡ apply_from old (splice new a (old_len bs) (new_side bs)) hs
unfolding apply_from
apply_from-step old new a bs op post hs fits =
    let inside : ltb (length old + 1) (suc a + old_len bs) ≡ false =
      ground (arith, length-Fits old a bs op post fits) in
    let at_a : max (suc a) 1 - 1 ≡ a = omega arith in
    let at_b : suc a - 1 ≡ a = omega arith in
    let shows : Shows old a (old_side bs) =
      drop-Shows old a (old_side bs) post
        (rw (fits.1) (drop_at op (old_side bs ++ post) a fits.0)) in
    elim (walk-Walks old a bs) [
      | inl (w, _) ↦ rw (inside, at_a, w, at_b) refl
      | inr (_, n) ↦ absurd (n shows)
    ]
