-- ===== src/Patch/Apply.antt =====
-- `_apply_hunks` of src/trimum_core/patch_ops.py (lines 473 to 529) beside the meaning of a
-- unified diff.
use trimum.Base.{
  ℕ, suc, ◌+◌, ◌-◌, ◌≤◌, ◌≡◌, refl, ap, sym, ◌∙◌, ◌↔◌, inl, inr, false, List, [], ◌∷◌, ◌++◌, arith,
  append_assoc, ltb, length, length-append, take, drop, take_append, drop_append, take-append-drop,
  length-take_le, Text, All, Bool-cases,
}
use Prim.Native.Nat.{max}
use trimum.Patch.Hunks.{
  accepted, rejected, Side, context, removed, added, BodyLine, Hunk, old_len, splice, apply_from,
  apply_hunks,
}
use trimum.Patch.Splice.{
  old_side, new_side, length-old_side, Fits, apply_from-step, walk-Walks, Shows-drop,
}

splice_at :
    (np ls post out : List Text) (a n : ℕ)
    → length np ≡ a
    → length ls ≡ n
    → splice (np ++ (ls ++ post)) a n out ≡ np ++ (out ++ post)
unfolding splice
splice_at np ls post out a n ea en =
    let at_front : take a (np ++ (ls ++ post)) ≡ np =
      ap (λ m. take m (np ++ (ls ++ post))) (sym ea) ∙ take_append np (ls ++ post) in
    let at_back : drop (a + n) (np ++ (ls ++ post)) ≡ post =
      ap (λ m. drop m (np ++ (ls ++ post))) (behind ea en)
      ∙ drop_append np (ls ++ post) (length ls + 0)
      ∙ drop_append ls post 0 in
    rw (at_front, at_back) refl
  where
    behind : length np ≡ a → length ls ≡ n → a + n ≡ length np + (length ls + 0)
    behind p q = omega arith

one_left : (old new : List Text) → apply_from old new [] ≡ accepted new
unfolding apply_from
one_left old new = refl

rejects : {l : List Text} → rejected ≡ accepted l → ⊥
rejects h = cc

accepted_inj : {l m : List Text} → accepted l ≡ accepted m → l ≡ m
accepted_inj h = cc

-- What an accepted hunk says of the file.
single-inv :
    (old new : List Text) (a : ℕ) (bs : List BodyLine)
    → apply_from old old (record { start = suc a; body = bs } ∷ []) ≡ accepted new
    → (a + old_len bs ≤ length old)
      × (drop a old ≡ old_side bs ++ drop (a + length (old_side bs)) old)
      × (new ≡ splice old a (old_len bs) (new_side bs))
unfolding apply_from
single-inv old new a bs h =
    let at_a : max (suc a) 1 - 1 ≡ a = omega arith in
    let at_b : suc a - 1 ≡ a = omega arith in
    elim (Bool-cases (ltb (length old + 1) (suc a + old_len bs))) [
      | inl e ↦ absurd (rejects (rw e at h))
      | inr e ↦ elim (walk-Walks old a bs) [
        | inr (w, _) ↦ absurd (rejects (rw (e, at_a, w) at h))
        | inl (w, shows) ↦
            let done : accepted (splice old a (old_len bs) (new_side bs)) ≡ accepted new =
              rw (e, at_a, w, at_b) at h in
            (ground arith, Shows-drop old a (old_side bs) shows, accepted_inj (sym done))
      ]
    ]

-- One hunk is accepted exactly when the file holds its old side at its place, and then its new
-- side stands there in place of it, and the rest of the file is as it was.
pub apply_hunks-single :
    (old new : List Text) (a : ℕ) (bs : List BodyLine)
    → (apply_hunks old (record { start = suc a; body = bs } ∷ []) ≡ accepted new) ↔ (
        (pre : List Text) × (post : List Text) × Fits old a bs pre post
        × (new ≡ pre ++ (new_side bs ++ post)))
unfolding apply_hunks
apply_hunks-single old new a bs = (there, back)
  where
    back :
        ((pre : List Text) × (post : List Text) × Fits old a bs pre post
          × (new ≡ pre ++ (new_side bs ++ post)))
        → apply_from old old (record { start = suc a; body = bs } ∷ []) ≡ accepted new
    back (pre, post, fits, e) =
        apply_from-step old old a bs pre post [] fits
        ∙ one_left old (splice old a (old_len bs) (new_side bs))
        ∙ ap accepted (
            ap (λ l. splice l a (old_len bs) (new_side bs)) (fits.1)
            ∙ splice_at pre (old_side bs) post (new_side bs) a (old_len bs) (fits.0)
                (length-old_side bs)
            ∙ sym e)

    there :
        apply_from old old (record { start = suc a; body = bs } ∷ []) ≡ accepted new
        → (pre : List Text) × (post : List Text) × Fits old a bs pre post
          × (new ≡ pre ++ (new_side bs ++ post))
    there h =
        let (inside, shows, e) = single-inv old new a bs h in
        let same_len : a + length (old_side bs) ≡ a + old_len bs =
          omega (arith, length-old_side bs) in
        let post = drop (a + old_len bs) old in
        (
          take a old,
          post,
          (
            length-take_le a old (omega arith),
            sym (
                ap (λ l. take a old ++ l)
                  (ap (λ n. old_side bs ++ drop n old) (sym same_len) ∙ sym shows)
                ∙ take-append-drop a old),
          ),
          e,
        )

-- The meaning of a unified diff: `rest` is what is left of the old file behind its line `k`, and
-- every hunk names the place of its old side in the old file.
pub data Patched : ℕ → List Text → List Hunk → List Text → Type 0 where
  done : (k : ℕ) (rest : List Text) → Patched k rest [] rest
  hunk :
      (k : ℕ) (pre post : List Text) (bs : List BodyLine) (hs : List Hunk) (tail : List Text)
      → Patched (k + length pre + old_len bs) post hs tail
      → Patched k
          (pre ++ (old_side bs ++ post))
          (record { start = suc (k + length pre); body = bs } ∷ hs)
          (pre ++ (new_side bs ++ tail))

-- A hunk that has as many new lines as old ones.
abbrev pub IsBalanced : Hunk → Type 0
IsBalanced h = length (new_side h.body) ≡ old_len h.body

Patched-apply :
    {k : ℕ} {rest : List Text} {hs : List Hunk} {res : List Text} (old op np : List Text)
    → Patched k rest hs res
    → All IsBalanced hs
    → length op ≡ k
    → length np ≡ k
    → old ≡ op ++ rest
    → apply_from old (np ++ rest) hs ≡ accepted (np ++ res)
Patched-apply old op np (done k rest) b eo en split = one_left old (np ++ rest)
Patched-apply old op np (hunk k pre post bs hs tail p) b eo en split =
    let a = k + length pre in
    let os = old_side bs in
    let ns = new_side bs in
    let fits : Fits old a bs (op ++ pre) post =
      (omega (arith, length-append op pre), split ∙ sym (append_assoc op pre (os ++ post))) in
    let written : splice (np ++ (pre ++ (os ++ post))) a (old_len bs) ns
        ≡ ((np ++ pre) ++ ns) ++ post =
      ap (λ l. splice l a (old_len bs) ns) (sym (append_assoc np pre (os ++ post)))
      ∙ splice_at (np ++ pre) os post ns a (old_len bs) (omega (arith, length-append np pre))
          (length-old_side bs)
      ∙ sym (append_assoc (np ++ pre) ns post) in
    apply_from-step old (np ++ (pre ++ (os ++ post))) a bs (op ++ pre) post hs fits
    ∙ ap (λ l. apply_from old l hs) written
    ∙ Patched-apply old ((op ++ pre) ++ os) ((np ++ pre) ++ ns) p (b.1)
        (omega (arith, length-append (op ++ pre) os, length-append op pre, length-old_side bs))
        (omega (arith, length-append (np ++ pre) ns, length-append np pre, b.0))
        (fits.1 ∙ sym (append_assoc (op ++ pre) os post))
    ∙ ap accepted (append_assoc (np ++ pre) ns tail ∙ append_assoc np pre (ns ++ tail))

-- A diff whose hunks all keep the number of lines is applied as a unified diff means it.
pub apply_hunks-Patched :
    (old res : List Text) (hs : List Hunk)
    → Patched 0 old hs res
    → All IsBalanced hs
    → apply_hunks old hs ≡ accepted res
unfolding apply_hunks
apply_hunks-Patched old res hs p b = Patched-apply old [] [] p b refl refl refl

abbrev pub line : Side → Text → BodyLine
line s t = record { side = s; text = t; no_newline = false }

-- The diff that puts `x` in front of the first line and turns the third line into `y`.
abbrev pub two_hunks : (a b c x y : Text) → List Hunk
two_hunks a b c x y =
    record { start = 1; body = line added x ∷ line context a ∷ [] }
    ∷ record { start = 3; body = line removed c ∷ line added y ∷ [] }
    ∷ []

-- A hunk that adds a line moves the later ones to a wrong place: the diff that inserts a line at
-- the top of a file and replaces its third line is accepted, and replaces the second line.
pub apply_hunks_misplaces :
    (a b c x y : Text) (rest : List Text)
    → Patched 0 (a ∷ b ∷ c ∷ rest) (two_hunks a b c x y) (x ∷ a ∷ b ∷ y ∷ rest)
      × (apply_hunks (a ∷ b ∷ c ∷ rest) (two_hunks a b c x y) ≡ accepted (x ∷ a ∷ y ∷ c ∷ rest))
unfolding apply_hunks old_side new_side splice old_len
apply_hunks_misplaces a b c x y rest = (
  hunk 0 [] (b ∷ c ∷ rest) (line added x ∷ line context a ∷ []) _ (b ∷ y ∷ rest)
      (hunk 1 (b ∷ []) rest (line removed c ∷ line added y ∷ []) [] rest (done 3 rest)),
  apply_from-step old old 0 (line added x ∷ line context a ∷ []) [] (b ∷ c ∷ rest)
        (record { start = 3; body = line removed c ∷ line added y ∷ [] } ∷ []) (refl, refl)
      ∙ apply_from-step old (x ∷ a ∷ b ∷ c ∷ rest) 2 (line removed c ∷ line added y ∷ [])
          (a ∷ b ∷ []) rest [] (refl, refl)
      ∙ one_left old (x ∷ a ∷ y ∷ c ∷ rest),
)
  where
    old : List Text
    old = a ∷ b ∷ c ∷ rest
