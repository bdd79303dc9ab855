-- ===== src/Patch/Hunks.antt =====
-- `_apply_hunks` of src/trimum_core/patch_ops.py (lines 473 to 529). A line carries its terminator.
use trimum.Base.{
  ℕ, suc, ◌+◌, ◌-◌, Bool, true, false, ◌||◌, none, some, List, [], ◌∷◌, ◌++◌, reverse,
  if◌then◌else◌, ◌==◌, ltb, length, take, drop, get_elem?, Text, same,
}
use Prim.Native.Nat.{max}

pub data Outcome (A : Type 0) : Type 0 where
  accepted : A → Outcome A
  rejected : Outcome A

-- The first character of a body line.
pub data Side : Type 0 where
  context removed added : Side

-- A body line: its side, the text behind the first character, and whether the marker
-- "\ No newline at end of file" follows it.
pub record BodyLine : Type 0 where
  pub side : Side
  pub text : Text
  pub no_newline : Bool

pub record Hunk : Type 0 where
  pub start : ℕ
  pub body : List BodyLine

-- `rstrip("\r\n")`
unfoldable pub drop_ends : Text → Text
drop_ends [] = []
drop_ends (c ∷ s) = if c == 10 || c == 13 then drop_ends s else c ∷ s

unfoldable pub content : BodyLine → Text
unfolding drop_ends
content b = if b.no_newline then reverse (drop_ends (reverse b.text)) else b.text

abbrev pub is_old : Side → Bool
is_old added = false
is_old _ = true

abbrev pub is_new : Side → Bool
is_new removed = false
is_new _ = true

-- How many lines of the old file the body covers.
unfoldable pub old_len : List BodyLine → ℕ
old_len [] = 0
old_len (b ∷ bs) = (if is_old b.side then 1 else 0) + old_len bs

-- The line at the position is the one that the diff shows.
unfoldable pub agrees : List Text → ℕ → Text → Bool
agrees old pos line = elim (get_elem? old pos) [ none ↦ false | some l ↦ same l line ]

abbrev pub keeps : Text → Outcome (List Text) → Outcome (List Text)
keeps l rejected = rejected
keeps l (accepted ls) = accepted (l ∷ ls)

-- The inner loop, from a position of the old file: the lines that replace the covered ones.
unfoldable pub walk : List Text → ℕ → List BodyLine → Outcome (List Text)
unfolding content agrees
walk old pos [] = accepted []
walk old pos (b ∷ bs) = elim b.side [
  | added ↦ keeps (content b) (walk old pos bs)
  | removed ↦ elim (agrees old pos (content b)) [ false ↦ rejected | true ↦ walk old (suc pos) bs ]
  | context ↦ elim (agrees old pos (content b)) [
    | false ↦ rejected
    | true ↦ keeps (content b) (walk old (suc pos) bs)
  ]
]

-- `new_lines[a:a + n] = out`
unfoldable pub splice : List Text → ℕ → ℕ → List Text → List Text
splice ls a n out = take a ls ++ (out ++ drop (a + n) ls)

-- The outer loop: every hunk is checked against the old file and written at its old position.
unfoldable pub apply_from : List Text → List Text → List Hunk → Outcome (List Text)
unfolding old_len walk splice
apply_from old new [] = accepted new
apply_from old new (h ∷ hs) =
    if ltb (length old + 1) (h.start + old_len h.body)
    then rejected
    else elim (walk old (max h.start 1 - 1) h.body) [
      | rejected ↦ rejected
      | accepted out ↦ apply_from old (splice new (h.start - 1) (old_len h.body) out) hs
    ]

unfoldable pub apply_hunks : List Text → List Hunk → Outcome (List Text)
unfolding apply_from
apply_hunks old hs = apply_from old old hs
