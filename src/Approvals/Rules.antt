-- ===== src/Approvals/Rules.antt =====
-- The declarative allow rules of src/trimum_core/approvals.py (lines 101 to 133 and 311 to 317).
use trimum.Base.{
  ◌≡◌, refl, ap, ◌∙◌, ◌↔◌, ◌⊎◌, inl, inr, Bool, true, false, not, ◌&&◌, List, [], ◌∷◌, ◌++◌, arith,
  if◌then◌else◌, All, Text, nonempty, same, same_iff, starts_with, starts_with_append,
  starts_with→append, Bool-cases,
}
use trimum.Approvals.Request.{Outcome, returns, raises}
pub mod Matching

-- A value of a rule: the key is missing, a text, another false value, or another true one. No
-- value is a tuple, which no configuration file holds.
pub data Value : Type 0 where
  absent falsy truthy : Value
  text : Text → Value

-- An element of the table: `allow tool cwd`, or no dictionary.
pub data Rule : Type 0 where
  stray : Rule
  allow : (tool cwd : Value) → Rule

-- What a caller passes for the table.
pub data Table : Type 0 where
  no_list : Table
  rules : List Rule → Table

-- `rule_tool and rule_tool != tool`, for `rule_tool = rule.get("tool", "") or ""`
unfoldable pub other_tool : Value → Text → Bool
other_tool absent tool = false
other_tool falsy tool = false
other_tool truthy tool = true
other_tool (text t) tool = nonempty t && not (same t tool)

-- `cwd.startswith(rule.get("cwd", ""))`: a value that is no text is a TypeError.
unfoldable pub in_cwd : Value → Text → Outcome Bool
in_cwd absent cwd = returns true
in_cwd falsy cwd = raises
in_cwd truthy cwd = raises
in_cwd (text c) cwd = returns (starts_with c cwd)

abbrev pub then_else : Outcome Bool → Outcome Bool → Outcome Bool
then_else (returns true) rest = returns true
then_else (returns false) rest = rest
then_else raises rest = raises

-- The `for` loop.
unfoldable pub scan : List Rule → Text → Text → Outcome Bool
unfolding other_tool in_cwd
scan [] tool cwd = returns false
scan (stray ∷ rs) tool cwd = scan rs tool cwd
scan (allow t c ∷ rs) tool cwd =
    let rest = scan rs tool cwd in if other_tool t tool then rest else then_else (in_cwd c cwd) rest

-- `except Exception: return False`
abbrev pub caught : Outcome Bool → Bool
caught (returns b) = b
caught raises = false

unfoldable pub match_allow_rules : Table → Text → Text → Bool
unfolding scan
match_allow_rules no_list tool cwd = false
match_allow_rules (rules rs) tool cwd = caught (scan rs tool cwd)

unfoldable pub dicts : List Rule → List Rule
dicts [] = []
dicts (stray ∷ rs) = dicts rs
dicts (allow t c ∷ rs) = allow t c ∷ dicts rs

-- `load_allow_rules`: what the configuration gives, or its exception.
unfoldable pub load_allow_rules : Outcome Table → List Rule
unfolding dicts
load_allow_rules raises = []
load_allow_rules (returns no_list) = []
load_allow_rules (returns (rules rs)) = dicts rs

unfoldable pub preauthorized : Outcome Table → Text → Text → Bool
unfolding load_allow_rules match_allow_rules
preauthorized config tool cwd = match_allow_rules (rules (load_allow_rules config)) tool cwd

-- The rule names this tool or none, and its directory text begins `cwd`.
abbrev pub NamesTool : Value → Text → Type 0
NamesTool absent tool = Unit
NamesTool falsy tool = Unit
NamesTool truthy tool = ⊥
NamesTool (text t) tool = (t ≡ []) ⊎ (t ≡ tool)

abbrev pub Covers : Value → Text → Type 0
Covers absent cwd = Unit
Covers (text c) cwd = (r : Text) × (cwd ≡ c ++ r)
Covers _ cwd = ⊥

-- The rule is passed over: it is no dictionary, names another tool, or has a directory text that
-- does not begin `cwd`.
abbrev pub IsPassed : Text → Text → Rule → Type 0
IsPassed tool cwd stray = Unit
IsPassed tool cwd (allow t (text c)) = (NamesTool t tool → ⊥) ⊎ (((r : Text) × (cwd ≡ c ++ r)) → ⊥)
IsPassed tool cwd (allow t c) = NamesTool t tool → ⊥

-- `rs` holds a rule that names the tool and covers the directory, behind rules that are all
-- passed over.
pub record Fires (tool cwd : Text) (rs : List Rule) : Type 0 where
  pub before : List Rule
  pub tool_value : Value
  pub cwd_value : Value
  pub after : List Rule
  pub split : rs ≡ before ++ allow tool_value cwd_value ∷ after
  pub passed : All (IsPassed tool cwd) before
  pub names : NamesTool tool_value tool
  pub covers : Covers cwd_value cwd
