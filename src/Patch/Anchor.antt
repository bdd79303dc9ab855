-- ===== src/Patch/Anchor.antt =====
-- `replace_anchor` of src/trimum_core/patch_ops.py (lines 262 to 320), with `str.count` and
-- `str.replace`. The differences that a result shows are left out. Files hold UTF-8 texts.
use trimum.Base.{
  ℕ, zero, suc, ◌+◌, ◌-◌, ◌≡◌, ◌≢◌, ◌⊎◌, inl, inr, refl, ap, ◌∙◌, Bool, true, false, not, [], ◌∷◌,
  ◌++◌, arith, if◌then◌else◌, ◌==◌, ==_iff, length, drop, drop_append, Text, same, same_iff,
  starts_with, starts_with→append, Bool-cases,
}
use trimum.Patch.Session.{
  Outcome, returns, cwd_jail_violation, file_not_found, patch_rejected, Disk, read_file, write_edit,
}

-- From the place behind `k` characters: how often the anchor stands there, one behind another.
unfoldable pub count_from : Text → ℕ → Text → ℕ
count_from a k [] = 0
count_from a zero (c ∷ s) =
    let inside = count_from a (length a - 1) s in
    let onward = count_from a zero s in if starts_with a (c ∷ s) then suc inside else onward
count_from a (suc k) (c ∷ s) = count_from a k s

unfoldable pub replace_from : Text → Text → ℕ → Text → Text
replace_from a r k [] = []
replace_from a r zero (c ∷ s) =
    let inside = replace_from a r (length a - 1) s in
    let onward = replace_from a r zero s in
    if starts_with a (c ∷ s) then r ++ inside else c ∷ onward
replace_from a r (suc k) (c ∷ s) = replace_from a r k s

-- The empty text stands before every character and at the end.
unfoldable pub between : Text → Text → Text
between r [] = r
between r (c ∷ s) = r ++ c ∷ between r s

-- `s.count(a)`
unfoldable pub text_count : Text → Text → ℕ
unfolding count_from
text_count [] s = length s + 1
text_count (c ∷ a) s = count_from (c ∷ a) 0 s

-- `s.replace(a, r)`
unfoldable pub text_replace : Text → Text → Text → Text
unfolding replace_from between
text_replace [] r s = between r s
text_replace (c ∷ a) r s = replace_from (c ∷ a) r 0 s

-- The status of a result, with the snapshot of one that was applied.
pub data Result : Type 0 where
  preview : Result
  applied : Text → Result

abbrev pub result_of : Outcome Text × Disk → Outcome Result × Disk
result_of (returns s, d) = (returns (applied s), d)
result_of (cwd_jail_violation, d) = (cwd_jail_violation, d)
result_of (file_not_found, d) = (file_not_found, d)
result_of (patch_rejected, d) = (patch_rejected, d)

-- The arguments behind the path; `in_session` says whether a session is named.
pub record Edit : Type 0 where
  pub anchor : Text
  pub replacement : Text
  pub count : ℕ
  pub dry_run : Bool
  pub in_session : Bool

module _ (guarded : Text → Bool) (basename : Text → Text) where
  unfoldable pub replace_loaded : Text → Edit → Text → Disk → Outcome Result × Disk
  unfolding text_count text_replace write_edit
  replace_loaded path e old d =
      let new = text_replace e.anchor e.replacement old in
      if not (text_count e.anchor old == e.count)
      then (patch_rejected, d)
      else if same new old
      then (patch_rejected, d)
      else if e.dry_run
      then (returns preview, d)
      else if not e.in_session
      then (patch_rejected, d)
      else result_of (write_edit guarded basename path new d)

  abbrev pub replace_read : Text → Edit → Disk → Outcome Text → Outcome Result × Disk
  replace_read path e d (returns old) = replace_loaded path e old d
  replace_read path e d (cwd_jail_violation) = (cwd_jail_violation, d)
  replace_read path e d (file_not_found) = (file_not_found, d)
  replace_read path e d (patch_rejected) = (patch_rejected, d)

  unfoldable pub replace_anchor : Text → Edit → Disk → Outcome Result × Disk
  unfolding replace_loaded
  replace_anchor path e d = replace_read path e d (read_file guarded basename path d)

-- The meaning of a replacement: from the front, the text holds the anchor `n` times, one behind
-- another, and becomes `t`.
pub data Replaces (a r : Text) : Text → ℕ → Text → Type 0 where
  at_end : Replaces a r [] 0 []
  hit : (s : Text) (n : ℕ) (t : Text) → Replaces a r s n t → Replaces a r (a ++ s) (suc n) (r ++ t)
  miss :
      (c : ℕ) (s : Text) (n : ℕ) (t : Text)
      → starts_with a (c ∷ s) ≡ false
      → Replaces a r s n t
      → Replaces a r (c ∷ s) n (c ∷ t)

begins :
    (c : ℕ) (a : Text) (d : ℕ) (s : Text)
    → starts_with (c ∷ a) (d ∷ s) ≡ true
    → d ∷ s ≡ (c ∷ a) ++ drop (length a) s
begins c a d s h =
    let (r, e) = starts_with→append (c ∷ a) (d ∷ s) h in
    let tails : s ≡ a ++ r = cc in
    let heads : d ≡ c = cc in
    let rest : drop (length a) s ≡ r =
      ap (drop (length a)) tails ∙ ap (λ n. drop n (a ++ r)) (omega arith) ∙ drop_append a r 0 in
    rw (heads, rest) (ap (λ t. c ∷ t) tails)

from-Replaces :
    (c : ℕ) (a r : Text) (k : ℕ) (s : Text)
    → Replaces (c ∷ a) r (drop k s) (count_from (c ∷ a) k s) (replace_from (c ∷ a) r k s)
unfolding count_from replace_from
from-Replaces c a r zero [] = at_end
from-Replaces c a r (suc k) [] = at_end
from-Replaces c a r zero (d ∷ s) = elim (Bool-cases (starts_with (c ∷ a) (d ∷ s))) [
  | inl e ↦
      let len : suc (length a) - 1 ≡ length a = omega arith in
      rw (e, len, begins c a d s e)
        (hit (drop (length a) s) (count_from (c ∷ a) (length a) s)
          (replace_from (c ∷ a) r (length a) s) (from-Replaces c a r (length a) s))
  | inr e ↦ rw e (
      miss d s (count_from (c ∷ a) 0 s) (replace_from (c ∷ a) r 0 s) e (from-Replaces c a r zero s))
]
from-Replaces c a r (suc k) (d ∷ s) = from-Replaces c a r k s

-- For an anchor that is not empty, `count` and `replace` do what a replacement means.
pub text_replace-Replaces :
    (c : ℕ) (a r s : Text) → Replaces (c ∷ a) r s (text_count (c ∷ a) s) (text_replace (c ∷ a) r s)
unfolding text_count text_replace
text_replace-Replaces c a r s = from-Replaces c a r 0 s

result_of-disk : (x : Outcome Text × Disk) → (result_of x).1 ≡ x.1
result_of-disk (returns s, d) = refl
result_of-disk (cwd_jail_violation, d) = refl
result_of-disk (file_not_found, d) = refl
result_of-disk (patch_rejected, d) = refl

differs : (s t : Text) → same s t ≡ false → s ≢ t
differs s t h = ground (arith, same_iff s t)

module _ (guarded : Text → Bool) (basename : Text → Text) where
  -- What a call that wrote the text `new` over the text `old` says.
  abbrev pub Wrote : Text → Edit → Text → Disk → Disk → Type 0
  Wrote path e old d d' =
      (text_count e.anchor old ≡ e.count)
      × (text_replace e.anchor e.replacement old ≢ old)
      × (e.dry_run ≡ false)
      × (e.in_session ≡ true)
      × (d' ≡ (write_edit guarded basename path (text_replace e.anchor e.replacement old) d).1)

  loaded-cases :
      (path : Text) (e : Edit) (old : Text) (d : Disk)
      → ((replace_loaded guarded basename path e old d).1 ≡ d)
        ⊎ Wrote path e old d (replace_loaded guarded basename path e old d).1
  unfolding replace_loaded
  loaded-cases path e old d =
      let new = text_replace e.anchor e.replacement old in
      elim (Bool-cases (text_count e.anchor old == e.count)) [
        | inr h1 ↦ rw h1 (inl refl)
        | inl h1 ↦ elim (Bool-cases (same new old)) [
          | inl h2 ↦ rw (h1, h2) (inl refl)
          | inr h2 ↦ elim (Bool-cases e.dry_run) [
            | inl h3 ↦ rw (h1, h2, h3) (inl refl)
            | inr h3 ↦ elim (Bool-cases e.in_session) [
              | inr h4 ↦ rw (h1, h2, h3, h4) (inl refl)
              | inl h4 ↦
                  rw (h1, h2, h3, h4)
                    (inr (
                      (==_iff (text_count e.anchor old) e.count).0 h1,
                      differs new old h2,
                      refl,
                      refl,
                      result_of-disk (write_edit guarded basename path new d),
                    ))
            ]
          ]
        ]
      ]

  -- Either `replace_anchor` leaves the disk as it was, or the file held the anchor exactly as often
  -- as was asked, its text changes, a session is named, the call is no trial, and the disk is what
  -- the write of the edit makes of it.
  pub replace_anchor-write_edit :
      (path : Text) (e : Edit) (d : Disk)
      → ((replace_anchor guarded basename path e d).1 ≡ d)
        ⊎ ((old : Text) × (read_file guarded basename path d ≡ returns old)
            × Wrote path e old d (replace_anchor guarded basename path e d).1)
  unfolding replace_anchor
  replace_anchor-write_edit path e d = go (read_file guarded basename path d) refl
    where
      go :
          (o : Outcome Text)
          → read_file guarded basename path d ≡ o
          → ((replace_read guarded basename path e d o).1 ≡ d)
            ⊎ ((old : Text) × (o ≡ returns old)
                × Wrote path e old d (replace_read guarded basename path e d o).1)
      go (returns old) h = elim (loaded-cases path e old d) [
        | inl same_disk ↦ inl same_disk
        | inr wrote ↦ inr (old, refl, wrote)
      ]
      go (cwd_jail_violation) h = inl refl
      go (file_not_found) h = inl refl
      go (patch_rejected) h = inl refl
