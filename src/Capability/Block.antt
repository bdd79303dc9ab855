-- ===== src/Capability/Block.antt =====
-- `normalise`, `tool_allowed` and `evaluate` of src/trimum_core/capability.py (lines 41 to 176), on
-- blocks whose values are texts. The text of a reason is a rendering of the data of `Reason`.
-- `glob name pattern` is `fnmatch.fnmatch`, and `now` is the time as a text.
use trimum.Base.{
  ℕ, Bool, true, false, not, ◌&&◌, ◌||◌, Option, none, some, List, [], ◌∷◌, ◌++◌, ◌==◌, ltb, any,
  if◌then◌else◌, Text, codes, same, nonempty,
}
use trimum.Base.Strings.{lower, strip}
use trimum.Approvals.Store.{name_leb}

-- The value of "tools": none, one text, a list of them, or of another type.
pub data ToolsValue : Type 0 where
  absent other : ToolsValue
  one : Text → ToolsValue
  many : List Text → ToolsValue

-- A capability block as it is stored; one that is no dictionary has no values.
pub record RawBlock : Type 0 where
  pub tools : ToolsValue
  pub max_risk : Option Text
  pub expires_at : Option Text
  pub scope : Option Text

-- `MAX_RISK_VALUES`
pub data MaxRisk : Type 0 where
  inherit low medium high : MaxRisk

pub data Problem : Type 0 where
  tools_type : Problem
  bad_max_risk : Text → Problem

pub record Block : Type 0 where
  pub tools : List Text
  pub max_risk : MaxRisk
  pub expires_at : Option Text
  pub scope : Text

-- `str(value or default)`
unfoldable pub text_or : Text → Option Text → Text
text_or d none = d
text_or d (some []) = d
text_or d (some (c ∷ t)) = c ∷ t

-- The list comprehension over the items of a list.
unfoldable pub clean : List Text → List Text
unfolding strip
clean [] = []
clean (t ∷ ts) = if nonempty (strip t) then strip t ∷ clean ts else clean ts

abbrev pub everything : List Text
everything = codes "*" ∷ []

abbrev pub or_everything : List Text → List Text
or_everything [] = everything
or_everything (t ∷ ts) = t ∷ ts

unfoldable pub tools_of : ToolsValue → List Text
unfolding clean
tools_of absent = everything
tools_of (one t) = t ∷ []
tools_of (many ts) = or_everything (clean ts)
tools_of other = everything

unfoldable pub parse_max_risk : Text → Option MaxRisk
parse_max_risk t =
    if same t (codes "inherit")
    then some inherit
    else if same t (codes "low")
    then some low
    else if same t (codes "medium")
    then some medium
    else if same t (codes "high")
    then some high
    else none

abbrev pub or_inherit : Option MaxRisk → MaxRisk
or_inherit none = inherit
or_inherit (some m) = m

unfoldable pub max_risk_text : RawBlock → Text
unfolding text_or strip lower
max_risk_text b = lower (strip (text_or (codes "inherit") b.max_risk))

abbrev pub tools_problems : ToolsValue → List Problem
tools_problems other = tools_type ∷ []
tools_problems _ = []

abbrev pub risk_problems : Text → Option MaxRisk → List Problem
risk_problems t none = bad_max_risk t ∷ []
risk_problems t (some _) = []

-- `caps.get("expires_at") or None`
abbrev pub or_none : Option Text → Option Text
or_none none = none
or_none (some []) = none
or_none (some (c ∷ t)) = some (c ∷ t)

unfoldable pub normalise : RawBlock → Block × List Problem
unfolding tools_of parse_max_risk max_risk_text
normalise b =
    let t = max_risk_text b in
    (
      record {
        tools = tools_of b.tools;
        max_risk = or_inherit (parse_max_risk t);
        expires_at = or_none b.expires_at;
        scope = lower (strip (text_or [] b.scope));
      },
      tools_problems b.tools ++ risk_problems t (parse_max_risk t),
    )

abbrev pub has_problem : List Problem → Bool
has_problem [] = false
has_problem (_ ∷ _) = true

pub data Strictness : Type 0 where
  confirm deny : Strictness

pub data Reason : Type 0 where
  incomplete : List Problem → Reason
  untrusted : Reason
  expired : Text → Reason
  tool_denied : Text → List Text → Reason
  above_max_risk : Text → MaxRisk → Reason

pub data Source : Type 0 where
  agent_cert : Text → Source
  identity : Source
  installed_package : Text → Source

pub record Tightening : Type 0 where
  pub action : Strictness
  pub reason : Reason
  pub source : Source
  pub detail : Block

-- `RISK_ORDER.get(level, RISK_ORDER[DEFAULT_RISK])`
unfoldable pub risk_order : Text → ℕ
risk_order t =
    if same t (codes "low")
    then 0
    else if same t (codes "high")
    then 2
    else if same t (codes "critical")
    then 3
    else 1

-- The level that a ceiling lets pass, if it is one.
abbrev pub ceiling_order : MaxRisk → Option ℕ
ceiling_order inherit = none
ceiling_order low = some 0
ceiling_order medium = some 1
ceiling_order high = some 2

abbrev pub is_above : ℕ → Option ℕ → Bool
is_above n none = false
is_above n (some m) = ltb m n

-- `expires_at and str(expires_at) <= now`
abbrev pub has_expired : Text → Option Text → Bool
has_expired now none = false
has_expired now (some t) = name_leb t now

-- A call: the tool, its risk, and the time.
pub record ToolCall : Type 0 where
  pub tool : Text
  pub risk : Text
  pub now : Text

unfoldable pub risk_level : Text → Text
unfolding lower
risk_level [] = codes "medium"
risk_level (c ∷ t) = lower (c ∷ t)

module _ (glob : Text → Text → Bool) where
  -- One entry of the whitelist.
  unfoldable pub covers : Text → Text → Bool
  unfolding strip
  covers name pattern =
      let t = strip pattern in
      nonempty t
      && (same t (codes "*")
          || glob name t
          || (not (any (λ c. c == b'.') t) && glob name (t ++ codes ".*")))

  unfoldable pub tool_allowed : Text → List Text → Bool
  unfolding covers
  tool_allowed name [] = false
  tool_allowed name (p ∷ ps) = if covers name p then true else tool_allowed name ps

  unfoldable pub evaluate : RawBlock → Source → ToolCall → Option Tightening
  unfolding normalise tool_allowed risk_order risk_level
  evaluate raw source c =
      let (b, problems) = normalise raw in
      if has_problem problems
      then some
          (record { action = confirm; reason = incomplete problems; source = source; detail = b })
      else if same b.scope (codes "untrusted")
      then some (record { action = confirm; reason = untrusted; source = source; detail = b })
      else if has_expired c.now b.expires_at
      then some (record {
        action = deny;
        reason = expired (text_or [] b.expires_at);
        source = source;
        detail = b;
      })
      else if not (tool_allowed c.tool b.tools)
      then some (record {
        action = deny;
        reason = tool_denied c.tool b.tools;
        source = source;
        detail = b;
      })
      else if is_above (risk_order (risk_level c.risk)) (ceiling_order b.max_risk)
      then some (record {
        action = confirm;
        reason = above_max_risk (risk_level c.risk) b.max_risk;
        source = source;
        detail = b;
      })
      else none
