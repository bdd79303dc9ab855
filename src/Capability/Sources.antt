-- ===== src/Capability/Sources.antt =====
-- `tighten` of src/trimum_core/capability.py (lines 203 to 253), over what the certificate of the
-- agent, the identity of the user and the register of packages hold: an empty block is `none`, and
-- `names` are the packages among the three names that were installed without a check.
use trimum.Base.{
  Bool, true, false, Option, none, some, List, [], ◌∷◌, ◌++◌, map, Text, codes, if◌then◌else◌,
}
use trimum.Capability.Block.{
  RawBlock, ToolsValue, Source, agent_cert, identity, installed_package, Tightening, Strictness,
  confirm, deny, ToolCall, evaluate,
}

abbrev pub Candidate : Type 0
Candidate = Source × RawBlock

abbrev pub from_agent : Text → Option RawBlock → List Candidate
from_agent agent none = []
from_agent agent (some b) = (agent_cert agent, b) ∷ []

abbrev pub from_identity : Option RawBlock → List Candidate
from_identity none = []
from_identity (some b) = (identity, b) ∷ []

abbrev pub untrusted_block : RawBlock
untrusted_block = record {
  tools = ToolsValue.many (codes "*" ∷ []);
  max_risk = some (codes "inherit");
  expires_at = none;
  scope = some (codes "untrusted");
}

unfoldable pub candidates : Text → Option RawBlock → Option RawBlock → List Text → List Candidate
candidates agent cert user names =
    from_agent agent cert
    ++ (from_identity user ++ map (λ n. (installed_package n, untrusted_block)) names)

abbrev pub keep : Option Tightening → List Tightening → List Tightening
keep none vs = vs
keep (some v) vs = v ∷ vs

abbrev pub is_action : Strictness → Strictness → Bool
is_action confirm confirm = true
is_action deny deny = true
is_action _ _ = false

-- The first verdict with this action.
unfoldable pub first_with : Strictness → List Tightening → Option Tightening
first_with a [] = none
first_with a (v ∷ vs) = if is_action a v.action then some v else first_with a vs

abbrev pub or_else : Option Tightening → Option Tightening → Option Tightening
or_else none o = o
or_else (some v) o = some v

-- The loops over `STRICTNESS`. No verdict allows.
unfoldable pub strictest : List Tightening → Option Tightening
unfolding first_with
strictest vs = or_else (first_with deny vs) (first_with confirm vs)

module _ (glob : Text → Text → Bool) where
  unfoldable pub verdicts : ToolCall → List Candidate → List Tightening
  unfolding evaluate
  verdicts c [] = []
  verdicts c (x ∷ xs) = keep (evaluate glob x.1 x.0 c) (verdicts c xs)

  unfoldable pub tighten :
      ToolCall → Text → Option RawBlock → Option RawBlock → List Text → Option Tightening
  unfolding candidates verdicts strictest
  tighten c agent cert user names = strictest (verdicts c (candidates agent cert user names))
