-- ===== src/Capability/Verdicts.antt =====
-- The verdicts of src/trimum_core/capability.py on one block and on all of them.
use Prim.Native.Nat.{max}
use trimum.Base.{
  not, ℕ, ◌≤◌, ◌≡◌, ◌≢◌, ◌↔◌, ◌⊎◌, inl, inr, refl, ◌∙◌, Bool, true, false, Option, none, some, List,
  [], ◌∷◌, arith, Text, codes, same, same_iff, if◌then◌else◌, All, Has, Bool-cases,
}
use trimum.Base.Strings.{strip}
use trimum.Approvals.Store.{name_leb}
use trimum.Capability.Block.{
  ToolsValue, RawBlock, Problem, normalise, confirm, deny, Tightening, Source, ToolCall, covers,
  tool_allowed, evaluate, risk_order, risk_level, ceiling_order, is_above, has_expired, has_problem,
  clean, tools_of,
}
use trimum.Capability.Levels.{
  level, of_source, of_packages, first_with-cases, strictest-strongest, strongest-candidates,
}
use trimum.Capability.Sources.{Candidate, candidates, strictest, verdicts, tighten, keep}

-- Every source can only take away: the level of the whole (no restriction, confirm, deny) is the
-- strictest of the level of the agent's certificate, that of the user's identity, and those of the
-- packages that were installed without a check.
pub tighten-strongest :
    (glob : Text → Text → Bool) (c : ToolCall) (agent : Text) (cert user : Option RawBlock)
    (names : List Text)
    → level (tighten glob c agent cert user names)
      ≡ max
          (of_source glob c (Source.agent_cert agent) cert)
          (max (of_source glob c Source.identity user) (of_packages glob c names))
unfolding tighten
tighten-strongest glob c agent cert user names =
    strictest-strongest glob c (candidates agent cert user names)
    ∙ strongest-candidates glob c agent cert user names

-- The block is read without a problem, it is not marked untrusted, it has not expired, some entry
-- of its list covers the tool, and its ceiling is not below the risk.
abbrev pub Grants : (Text → Text → Bool) → ToolCall → RawBlock → Type 0
Grants glob c raw =
    let (b, problems) = normalise raw in
    (problems ≡ [])
    × (b.scope ≢ codes "untrusted")
    × ((b.expires_at ≡ none) ⊎ ((t : Text) × (b.expires_at ≡ some t) × (name_leb t c.now ≡ false)))
    × ((p : Text) × Has p b.tools × (covers glob c.tool p ≡ true))
    × ((ceiling_order b.max_risk ≡ none)
        ⊎ ((n : ℕ) × (ceiling_order b.max_risk ≡ some n) × (risk_order (risk_level c.risk) ≤ n)))

tool_allowed-cases :
    (glob : Text → Text → Bool) (name : Text) (ps : List Text)
    → (tool_allowed glob name ps ≡ true) ↔ ((p : Text) × Has p ps × (covers glob name p ≡ true))
unfolding tool_allowed
tool_allowed-cases glob name [] = (λ h. cc, λ (p, h, _). absurd h)
tool_allowed-cases glob name (q ∷ ps) = elim (Bool-cases (covers glob name q)) [
  | inl e ↦ rw e (λ _. (q, inl refl, e), λ _. refl)
  | inr e ↦
      let (there, back) = tool_allowed-cases glob name ps in
      rw e (
        λ h. let (p, k, f) = there h in (p, inr k, f),
        λ (p, k, f). elim k [ inl here ↦ cc | inr later ↦ back (p, later, f) ],
      )
]

-- When a chain of five tests comes to its end.
passes :
    {A : Type 0} (p u x t a : Bool) (v1 v2 v3 v4 v5 : A)
    → ((if p
          then some v1
          else if u
          then some v2
          else if x
          then some v3
          else if not t
          then some v4
          else if a
          then some v5
          else none)
        ≡ none)
      ↔ ((p ≡ false) × (u ≡ false) × (x ≡ false) × (t ≡ true) × (a ≡ false))
passes p u x t a v1 v2 v3 v4 v5 = ground arith

no_problem : (ps : List Problem) → (has_problem ps ≡ false) ↔ (ps ≡ [])
no_problem [] = (λ _. refl, λ _. refl)
no_problem (p ∷ ps) = (λ h. cc, λ h. cc)

differs : (s t : Text) → (same s t ≡ false) ↔ (s ≢ t)
differs s t = ground (arith, same_iff s t)

not_expired :
    (now : Text) (o : Option Text)
    → (has_expired now o ≡ false)
      ↔ ((o ≡ none) ⊎ ((t : Text) × (o ≡ some t) × (name_leb t now ≡ false)))
not_expired now none = (λ _. inl refl, λ _. refl)
not_expired now (some t) =
    (λ h. inr (t, refl, h), elim [ inl h ↦ cc | inr (u, e, h) ↦ ground arith ])

not_above :
    (n : ℕ) (o : Option ℕ)
    → (is_above n o ≡ false) ↔ ((o ≡ none) ⊎ ((m : ℕ) × (o ≡ some m) × (n ≤ m)))
not_above n none = (λ _. inl refl, λ _. refl)
not_above n (some m) =
    (λ h. inr (m, refl, ground arith), elim [ inl h ↦ cc | inr (k, e, h) ↦ ground arith ])

-- A block takes nothing away exactly when it grants the call.
pub evaluate-Grants :
    (glob : Text → Text → Bool) (raw : RawBlock) (source : Source) (c : ToolCall)
    → (evaluate glob raw source c ≡ none) ↔ Grants glob c raw
unfolding evaluate
evaluate-Grants glob raw source c =
    let (b, problems) = normalise raw in
    let readable = no_problem problems in
    let trusted = differs b.scope (codes "untrusted") in
    let timely = not_expired c.now b.expires_at in
    let listed = tool_allowed-cases glob c.tool b.tools in
    let modest = not_above (risk_order (risk_level c.risk)) (ceiling_order b.max_risk) in
    let chain =
      passes (has_problem problems) (same b.scope (codes "untrusted"))
        (has_expired c.now b.expires_at) (tool_allowed glob c.tool b.tools)
        (is_above (risk_order (risk_level c.risk)) (ceiling_order b.max_risk)) _ _ _ _ _ in
    (
      λ h.
          let (p, u, x, t, a) = chain.0 h in
          (readable.0 p, trusted.0 u, timely.0 x, listed.0 t, modest.0 a),
      λ (p, u, x, t, a). chain.1 (readable.1 p, trusted.1 u, timely.1 x, listed.1 t, modest.1 a),
    )

-- A list of tools that are all blank is read as no list at all: the block then allows every tool.
pub evaluate-clean :
    (glob : Text → Text → Bool) (raw : RawBlock) (ts : List Text) (source : Source) (c : ToolCall)
    → All (λ t. strip t ≡ []) ts
    → evaluate glob (record raw { tools = ToolsValue.many ts }) source c
      ≡ evaluate glob (record raw { tools = ToolsValue.absent }) source c
unfolding evaluate normalise tools_of clean
evaluate-clean glob raw ts source c h = rw (blank ts h) refl
  where
    blank : (us : List Text) → All (λ t. strip t ≡ []) us → clean us ≡ []
    blank [] k = refl
    blank (u ∷ us) k = rw (k.0) (blank us k.1)

strictest-Has : (v : Tightening) (vs : List Tightening) → strictest vs ≡ some v → Has v vs
unfolding strictest
strictest-Has v vs h = ground (arith, first_with-cases deny vs, first_with-cases confirm vs)

verdicts-Has :
    (glob : Text → Text → Bool) (c : ToolCall) (v : Tightening) (xs : List Candidate)
    → Has v (verdicts glob c xs)
    → (x : Candidate) × Has x xs × (evaluate glob x.1 x.0 c ≡ some v)
unfolding verdicts
verdicts-Has glob c v [] h = absurd h
verdicts-Has glob c v (x ∷ xs) h =
    go (evaluate glob x.1 x.0 c) refl h
      (λ k. let (y, there, e) = verdicts-Has glob c v xs k in (y, inr there, e))
  where
    go :
        (o : Option Tightening)
        → evaluate glob x.1 x.0 c ≡ o
        → Has v (keep o (verdicts glob c xs))
        → (Has v (verdicts glob c xs)
            → (y : Candidate) × Has y (x ∷ xs) × (evaluate glob y.1 y.0 c ≡ some v))
        → (y : Candidate) × Has y (x ∷ xs) × (evaluate glob y.1 y.0 c ≡ some v)
    go none e k later = later k
    go (some w) e (inl q) later = (x, inl refl, cc)
    go (some w) e (inr k) later = later k

-- A restriction of the whole is the verdict of one of the sources.
pub tighten-evaluate :
    (glob : Text → Text → Bool) (c : ToolCall) (agent : Text) (cert user : Option RawBlock)
    (names : List Text) (v : Tightening)
    → tighten glob c agent cert user names ≡ some v
    → (x : Candidate) × Has x (candidates agent cert user names)
      × (evaluate glob x.1 x.0 c ≡ some v)
unfolding tighten
tighten-evaluate glob c agent cert user names v h =
    let xs = candidates agent cert user names in
    verdicts-Has glob c v xs (strictest-Has v (verdicts glob c xs) h)
