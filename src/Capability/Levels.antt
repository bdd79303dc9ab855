-- ===== src/Capability/Levels.antt =====
-- How much the sources of `tighten` of src/trimum_core/capability.py (lines 203 to 253) take away.
use Prim.Native.Nat.{max}
use trimum.Base.{
  ℕ, ◌≡◌, ◌⊎◌, inl, refl, ap, ◌∙◌, Bool, Option, none, some, List, [], ◌∷◌, map, arith, Text, codes,
  Has,
}
use trimum.Capability.Block.{
  ToolsValue, RawBlock, Strictness, confirm, deny, Tightening, Source, ToolCall, evaluate,
}
use trimum.Capability.Sources.{
  Candidate, candidates, untrusted_block, first_with, strictest, verdicts, keep,
}

-- How much a verdict takes away.
abbrev pub level : Option Tightening → ℕ
level none = 0
level (some v) = elim v.action [ confirm ↦ 1 | deny ↦ 2 ]

pub first_with-cases :
    (a : Strictness) (vs : List Tightening)
    → (first_with a vs ≡ none)
      ⊎ ((v : Tightening) × (first_with a vs ≡ some v) × (v.action ≡ a) × Has v vs)
unfolding first_with
first_with-cases a [] = inl refl
first_with-cases confirm (v ∷ vs) = ground (arith, first_with-cases confirm vs)
first_with-cases deny (v ∷ vs) = ground (arith, first_with-cases deny vs)

strictest-cons :
    (v : Tightening) (vs : List Tightening)
    → level (strictest (v ∷ vs)) ≡ max (level (some v)) (level (strictest vs))
unfolding strictest first_with
strictest-cons v vs = ground (arith, first_with-cases deny vs, first_with-cases confirm vs)

module _ (glob : Text → Text → Bool) (c : ToolCall) where
  -- The strictest level of all candidates, by looking at each of them.
  unfoldable pub strongest : List Candidate → ℕ
  unfolding evaluate
  strongest [] = 0
  strongest (x ∷ xs) = max (level (evaluate glob x.1 x.0 c)) (strongest xs)

  -- The level of one source of capabilities, where it has any.
  abbrev pub of_source : Source → Option RawBlock → ℕ
  of_source source none = 0
  of_source source (some b) = level (evaluate glob b source c)

  -- The strictest level of the packages among the names of the call that were installed without a
  -- check: each has every tool and the scope `untrusted`.
  unfoldable pub of_packages : List Text → ℕ
  unfolding evaluate
  of_packages [] = 0
  of_packages (n ∷ ns) =
      let block : RawBlock = record {
        tools = ToolsValue.many (codes "*" ∷ []);
        max_risk = some (codes "inherit");
        expires_at = none;
        scope = some (codes "untrusted");
      } in
      max (level (evaluate glob block (Source.installed_package n) c)) (of_packages ns)

  strongest-packages :
      (ns : List Text)
      → strongest (map (λ n. (Source.installed_package n, untrusted_block)) ns) ≡ of_packages ns
  unfolding strongest of_packages
  strongest-packages [] = refl
  strongest-packages (n ∷ ns) = cc (strongest-packages ns)

  pub strongest-candidates :
      (agent : Text) (cert user : Option RawBlock) (ns : List Text)
      → strongest (candidates agent cert user ns)
        ≡ max
            (of_source (Source.agent_cert agent) cert)
            (max (of_source Source.identity user) (of_packages ns))
  unfolding strongest candidates
  strongest-candidates agent none none ns = rw (strongest-packages ns) (omega arith)
  strongest-candidates agent none (some u) ns = rw (strongest-packages ns) (omega arith)
  strongest-candidates agent (some b) none ns = rw (strongest-packages ns) (omega arith)
  strongest-candidates agent (some b) (some u) ns = rw (strongest-packages ns) refl

  pub strictest-strongest :
      (xs : List Candidate) → level (strictest (verdicts glob c xs)) ≡ strongest xs
  unfolding verdicts strongest strictest first_with
  strictest-strongest [] = refl
  strictest-strongest (x ∷ xs) =
      add (evaluate glob x.1 x.0 c) (verdicts glob c xs)
      ∙ ap (max (level (evaluate glob x.1 x.0 c))) (strictest-strongest xs)
    where
      add :
          (o : Option Tightening) (vs : List Tightening)
          → level (strictest (keep o vs)) ≡ max (level o) (level (strictest vs))
      add none vs = omega arith
      add (some v) vs = strictest-cons v vs
