-- ===== src/Capability/Examples.antt =====
-- Concrete calls of src/trimum_core/capability.py.
use Prim.Native.Nat.{max}
use trimum.Base.{Bool, none, some, [], ◌∷◌, ◌≡◌, ◌↔◌, refl, Text, codes, same}
use trimum.Base.Strings.{strip}
use trimum.Capability.Block.{
  ToolsValue, RawBlock, Source, agent_cert, ToolCall, Tightening, deny, tool_denied, normalise,
  evaluate,
}
use trimum.Capability.Sources.{tighten}
use trimum.Capability.Levels.{level, of_source, of_packages}
use trimum.Capability.Verdicts.{Grants, tighten-strongest, evaluate-Grants}

-- A search without wild cards.
abbrev exact : Text → Text → Bool
exact name pattern = same name pattern

abbrev shell_only : RawBlock
shell_only = record {
  tools = ToolsValue.many (codes "shell" ∷ []);
  max_risk = some (codes "low");
  expires_at = none;
  scope = none;
}

abbrev push : ToolCall
push = record { tool = codes "git.push"; risk = codes "low"; now = codes "2026" }

tighten-strongest_example :
    level (tighten exact push (codes "coder") (some shell_only) none (codes "pkg" ∷ []))
    ≡ max (of_source exact push (Source.agent_cert (codes "coder")) (some shell_only)) (
        max (of_source exact push Source.identity none) (of_packages exact push (codes "pkg" ∷ [])))
tighten-strongest_example =
    tighten-strongest exact push (codes "coder") (some shell_only) none (codes "pkg" ∷ [])

evaluate-Grants_example :
    (evaluate exact shell_only Source.identity push ≡ none) ↔ Grants exact push shell_only
evaluate-Grants_example = evaluate-Grants exact shell_only Source.identity push

blank : strip (codes "  ") ≡ []
unfolding strip
blank = refl

abbrev refusal : Tightening
refusal = record {
  action = deny;
  reason = tool_denied (codes "git.push") (codes "shell" ∷ []);
  source = agent_cert (codes "coder");
  detail = (normalise shell_only).0;
}

refused : tighten exact push (codes "coder") (some shell_only) none [] ≡ some refusal
unfolding tighten same
refused = refl
