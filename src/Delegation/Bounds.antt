-- ===== src/Delegation/Bounds.antt =====
-- What a child agent gets of what its parent has (`plan_delegation` of
-- src/trimum_core/delegation.py, lines 151 to 271).
use trimum.Base.{
  ℕ, ◌≡◌, ◌≤◌, refl, ap, ◌∙◌, ◌⊎◌, inl, inr, Bool, true, false, not, ◌||◌, Option, none, some, [],
  ◌∷◌, ◌++◌, take, All, arith, if◌then◌else◌, Text, codes, nonempty,
}
use trimum.Base.Strings.{strip}
use trimum.Approvals.Store.{name_leb}
use trimum.Capability.Block.{
  RawBlock, Block, MaxRisk, inherit, low, medium, high, normalise, has_problem,
}
use trimum.Delegation.Tools.{Given, Tools, Has-All, select-Tools}
use trimum.Delegation.Plan.{
  Budget, lesser, DelegationRequest, DelegationPlan, PlanStatus, ready, Rejection, empty_task,
  planned, intersect_risk, intersect_expiry, Selection, chosen, refused, budget_of, child_budget,
  select_tools, intersect, restrict, with_budget, plan_delegation, raw_or_none, task_id_of,
}

-- The highest level that a maximum lets pass without a question, where 3 is critical.
abbrev pub ceiling : MaxRisk → ℕ
ceiling low = 0
ceiling medium = 1
ceiling high = 2
ceiling inherit = 3

abbrev pub ends_by : Option Text → Option Text → Bool
ends_by child none = true
ends_by none (some p) = false
ends_by (some c) (some p) = name_leb c p

-- How a plan is bounded by the parent's block and budget: the tools text by text.
pub record Within (glob : Text → Text → Bool) (parent : Block) (budget : Budget)
    (p : DelegationPlan) : Type 0 where
  pub tools : All (Given glob parent.tools) p.capabilities.tools
  pub risk : ceiling p.capabilities.max_risk ≤ ceiling parent.max_risk
  pub expiry : ends_by p.capabilities.expires_at parent.expires_at ≡ true
  pub scope : p.capabilities.scope ≡ parent.scope
  pub steps : p.budget.steps ≤ budget.steps
  pub tokens : p.budget.tokens ≤ budget.tokens

name_leb_refl : (t : Text) → name_leb t t ≡ true
unfolding name_leb
name_leb_refl [] = refl
name_leb_refl (c ∷ t) = ground (arith, name_leb_refl t)

name_leb_total : (s t : Text) → name_leb s t ≡ false → name_leb t s ≡ true
unfolding name_leb
name_leb_total [] t h = cc
name_leb_total (x ∷ s) [] h = refl
name_leb_total (x ∷ s) (y ∷ t) h = ground (arith, name_leb_total s t)

risk-ceiling : (p r : MaxRisk) → ceiling (intersect_risk p r) ≤ ceiling p
risk-ceiling inherit inherit = omega arith
risk-ceiling inherit low = omega arith
risk-ceiling inherit medium = omega arith
risk-ceiling inherit high = omega arith
risk-ceiling low r = ground arith
risk-ceiling medium r = ground arith
risk-ceiling high r = ground arith

expiry_ends : (p r : Option Text) → ends_by (intersect_expiry p r) p ≡ true
expiry_ends none r = refl
expiry_ends (some p) none = name_leb_refl p
expiry_ends (some p) (some r) = ground (arith, name_leb_refl p, name_leb_total p r)

ends_refl : (p : Option Text) → ends_by p p ≡ true
ends_refl none = refl
ends_refl (some p) = name_leb_refl p

lesser_le : (a b : ℕ) → lesser a b ≤ b
lesser_le a b = ground arith

child_le :
    (parent asked : Option Budget)
    → ((child_budget parent asked).steps ≤ (budget_of parent).steps)
      × ((child_budget parent asked).tokens ≤ (budget_of parent).tokens)
child_le parent none = (omega arith, omega arith)
child_le parent (some b) =
    (lesser_le b.steps (budget_of parent).steps, lesser_le b.tokens (budget_of parent).tokens)

-- A plan that holds the parent's block is within it.
intersect-Within :
    (glob : Text → Text → Bool) (p : DelegationPlan) (r : Block) (b limit : Budget) (s : Selection)
    → Tools glob p.capabilities.tools s
    → b.steps ≤ limit.steps
    → b.tokens ≤ limit.tokens
    → p.status ≡ ready
    → (with_budget b (intersect p r s)).status ≡ ready
    → Within glob p.capabilities limit (with_budget b (intersect p r s))
unfolding Tools
intersect-Within glob p r b limit (refused why) t hs ht q h = absurd cc
intersect-Within glob p r b limit (chosen ts) t hs ht q h = rw q record {
  tools = t;
  risk = risk-ceiling p.capabilities.max_risk r.max_risk;
  expiry = expiry_ends p.capabilities.expires_at r.expires_at;
  scope = refl;
  steps = hs;
  tokens = ht;
}

restrict-Within :
    (glob : Text → Text → Bool) (p : DelegationPlan) (o : Option RawBlock) (r : Block)
    (b limit : Budget)
    → b.steps ≤ limit.steps
    → b.tokens ≤ limit.tokens
    → p.status ≡ ready
    → (with_budget b (restrict glob p o r)).status ≡ ready
    → Within glob p.capabilities limit (with_budget b (restrict glob p o r))
unfolding restrict
restrict-Within glob p none r b limit hs ht q h = rw q record {
  tools = Has-All p.capabilities.tools (λ t g. inl g);
  risk = omega arith;
  expiry = ends_refl p.capabilities.expires_at;
  scope = refl;
  steps = hs;
  tokens = ht;
}
restrict-Within glob p (some raw) r b limit hs ht q h =
    intersect-Within glob p r b limit (select_tools glob p.capabilities.tools r.tools)
      (select-Tools glob p.capabilities.tools r.tools) hs ht q h

planned_cases :
    (b c : Bool) (x y p : DelegationPlan)
    → (if not b then empty_task else if c then planned x else planned y) ≡ planned p
    → (x ≡ p) ⊎ (y ≡ p)
planned_cases true true x y p h = inl cc
planned_cases true false x y p h = inr cc
planned_cases false c x y p h = cc

-- In a plan that is ready each text of the child's list of tools stands in the parent's list or is
-- matched by an entry of it (the star, the wild cards, or the family of an entry without a dot), also
-- when the text is itself a pattern; the child's maximum risk, its expiry and its budget of steps and
-- tokens are not beyond the parent's, and its scope is the parent's.
pub plan-Within :
    (glob : Text → Text → Bool) (raw : RawBlock) (request : DelegationRequest)
    (limit : Option Budget) (task_id fresh : Text) (p : DelegationPlan)
    → plan_delegation glob raw request limit task_id fresh ≡ planned p
    → p.status ≡ ready
    → Within glob (normalise raw).0 (budget_of limit) p
unfolding plan_delegation
plan-Within glob raw request limit task_id fresh p e h =
    let (parent, problems) = normalise raw in
    let (asked, asked_problems) = normalise (raw_or_none request.capabilities) in
    let tid = task_id_of task_id fresh in
    let base : DelegationPlan = record {
      task_id = tid;
      agent_id = request.agent_type ++ codes "-" ++ take 8 tid;
      agent_type = request.agent_type;
      task = strip request.task;
      capabilities = parent;
      budget = budget_of limit;
      status = ready;
      tightenings = [];
    } in
    let b = child_budget limit request.budget in
    let bad : DelegationPlan = record base {
      status = PlanStatus.rejected (Rejection.capability_unreadable problems asked_problems);
    } in
    let good = with_budget b (restrict glob base request.capabilities asked) in
    elim (planned_cases (nonempty (strip request.task))
      (has_problem problems || has_problem asked_problems) bad good p e) [
        | inl q ↦ let bad_ready : bad.status ≡ ready = ap (λ x. x.status) q ∙ h in absurd cc
        | inr q ↦
            let (le_steps, le_tokens) = child_le limit request.budget in
            let w =
              restrict-Within glob base request.capabilities asked b (budget_of limit) le_steps
                le_tokens refl (ap (λ x. x.status) q ∙ h) in
            rw q at w
      ]
