-- ===== src/Delegation/Tools.antt =====
-- The tools that `plan_delegation` of src/trimum_core/delegation.py (lines 203 to 234) selects of a
-- parent's list.
use trimum.Base.{
  ◌≢◌, ◌&&◌, ◌==◌, any, same, same_iff, ◌≡◌, refl, ◌⊎◌, inl, inr, Bool, true, false, not, ◌||◌,
  List, [], ◌∷◌, ◌++◌, All, Has, arith, Bool-cases, Text, codes, nonempty, member,
}
use trimum.Base.Strings.{strip}
use trimum.Capability.Block.{tool_allowed, covers}
use trimum.Delegation.Plan.{
  Selection, chosen, refused, choose, permitted, overreaching, select_tools,
}

-- An entry of a list matches a text: once stripped it is no blank, and it is the star, or the wild
-- cards of it match, or those of its family when it has no dot.
abbrev pub Matched : (Text → Text → Bool) → Text → Text → Type 0
Matched glob t entry =
    let q = strip entry in
    (q ≢ [])
    × ((q ≡ codes "*")
        ⊎ (glob t q ≡ true)
        ⊎ (All (λ c. c ≢ b'.') q × (glob t (q ++ codes ".*") ≡ true)))

-- A text stands in the list or is matched by an entry of it.
abbrev pub Given : (Text → Text → Bool) → List Text → Text → Type 0
Given glob tools t = Has t tools ⊎ ((entry : Text) × Has entry tools × Matched glob t entry)

no_dot : (q : Text) → any (λ c. c == b'.') q ≡ false → All (λ c. c ≢ b'.') q
no_dot [] h = tt
no_dot (c ∷ q) h = (ground (arith, h), no_dot q (ground (arith, h)))

covers-Matched :
    (glob : Text → Text → Bool) (t entry : Text) → covers glob t entry ≡ true → Matched glob t entry
unfolding covers
covers-Matched glob t entry h = go (strip entry) h
  where
    go :
        (q : Text)
        → (nonempty q
            && (same q (codes "*")
                || glob t q
                || (not (any (λ c. c == b'.') q) && glob t (q ++ codes ".*"))))
          ≡ true
        → (q ≢ [])
          × ((q ≡ codes "*")
              ⊎ (glob t q ≡ true)
              ⊎ (All (λ c. c ≢ b'.') q × (glob t (q ++ codes ".*") ≡ true)))
    go [] k = cc
    go (c ∷ q) k = (
      λ e. cc,
      elim (Bool-cases (same (c ∷ q) (codes "*"))) [
        | inl star ↦ inl ((same_iff (c ∷ q) (codes "*")).0 star)
        | inr other ↦ inr (elim (Bool-cases (glob t (c ∷ q))) [
          | inl found ↦ inl found
          | inr missed ↦
              inr (
                no_dot (c ∷ q) (ground (arith, k, other, missed)),
                ground (arith, k, other, missed),
              )
        ])
      ],
    )

tool_allowed-Matched :
    (glob : Text → Text → Bool) (t : Text) (ps : List Text)
    → tool_allowed glob t ps ≡ true
    → (entry : Text) × Has entry ps × Matched glob t entry
unfolding tool_allowed
tool_allowed-Matched glob t [] h = cc
tool_allowed-Matched glob t (p ∷ ps) h = elim (Bool-cases (covers glob t p)) [
  | inl here ↦ (p, inl refl, covers-Matched glob t p here)
  | inr there ↦
      let (entry, k, m) = tool_allowed-Matched glob t ps (rw there at h) in (entry, inr k, m)
]

permitted-All :
    (glob : Text → Text → Bool) (parent ts : List Text)
    → All (Given glob parent) (permitted glob parent ts)
unfolding permitted
permitted-All glob parent [] = tt
permitted-All glob parent (t ∷ ts) = elim (Bool-cases (tool_allowed glob t parent)) [
  | inl h ↦ rw h (inr (tool_allowed-Matched glob t parent h), permitted-All glob parent ts)
  | inr h ↦ rw h (permitted-All glob parent ts)
]

pub Has-All : {P : Text → Type 0} (ts : List Text) → ((t : Text) → Has t ts → P t) → All P ts
Has-All [] h = tt
Has-All (t ∷ ts) h = (h t (inl refl), Has-All ts (λ s g. h s (inr g)))

unfoldable pub Tools : (Text → Text → Bool) → List Text → Selection → Type 0
Tools glob parent (refused why) = Unit
Tools glob parent (chosen ts) = All (Given glob parent) ts

pub select-Tools :
    (glob : Text → Text → Bool) (parent ts : List Text)
    → Tools glob parent (select_tools glob parent ts)
unfolding Tools select_tools
select-Tools glob parent ts = elim (Bool-cases (member (codes "*") ts)) [
  | inl h ↦ rw h (Has-All parent (λ t g. inl g))
  | inr h ↦
      rw h
        (on (permitted glob parent ts) (overreaching glob parent ts) (permitted-All glob parent ts))
]
  where
    on : (ps os : List Text) → All (Given glob parent) ps → Tools glob parent (choose ps os)
    on [] os h = tt
    on (p ∷ ps) os h = h
