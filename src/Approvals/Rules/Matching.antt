-- ===== src/Approvals/Rules/Matching.antt =====
-- When the allow rules of src/trimum_core/approvals.py (lines 101 to 133 and 311 to 317) match.
use trimum.Base.{
  ◌≡◌, refl, ap, ◌∙◌, ◌↔◌, ◌⊎◌, inl, inr, true, false, List, [], ◌∷◌, ◌++◌, arith, All, Text, same,
  same_iff, starts_with, starts_with_append, starts_with→append, Bool-cases,
}
use trimum.Approvals.Request.{returns, raises}
use trimum.Approvals.Rules.{
  Value, absent, falsy, truthy, text, Rule, stray, allow, Table, no_list, rules, other_tool, in_cwd,
  then_else, scan, caught, match_allow_rules, dicts, preauthorized, NamesTool, Covers, IsPassed,
  Fires,
}

other_tool-cases :
    (t : Value) (tool : Text)
    → ((other_tool t tool ≡ true) × (NamesTool t tool → ⊥))
      ⊎ ((other_tool t tool ≡ false) × NamesTool t tool)
unfolding other_tool
other_tool-cases absent tool = inr (refl, tt)
other_tool-cases falsy tool = inr (refl, tt)
other_tool-cases truthy tool = inl (refl, λ h. h)
other_tool-cases (text []) tool = inr (refl, inl refl)
other_tool-cases (text (x ∷ t)) tool = elim (Bool-cases (same (x ∷ t) tool)) [
  | inl e ↦ inr (rw e refl, inr ((same_iff (x ∷ t) tool).0 e))
  | inr e ↦
      inl (rw e refl, elim [ inl h ↦ cc | inr h ↦ ground (arith, (same_iff (x ∷ t) tool).1 h) ])
]

starts_with-cases :
    (c cwd : Text)
    → ((starts_with c cwd ≡ true) × (r : Text) × (cwd ≡ c ++ r))
      ⊎ ((starts_with c cwd ≡ false) × (((r : Text) × (cwd ≡ c ++ r)) → ⊥))
starts_with-cases c cwd = elim (Bool-cases (starts_with c cwd)) [
  | inl e ↦ let (r, k) = starts_with→append c cwd e in inl (e, r, k)
  | inr e ↦ inr (e, λ (r, k). cc (ap (starts_with c) k, starts_with_append c r))
]

Fires-skip :
    {tool cwd : Text} {rs : List Rule} (r : Rule)
    → IsPassed tool cwd r
    → Fires tool cwd rs
    → Fires tool cwd (r ∷ rs)
Fires-skip r p f = record {
  before = r ∷ f.before;
  tool_value = f.tool_value;
  cwd_value = f.cwd_value;
  after = f.after;
  split = ap (λ l. r ∷ l) f.split;
  passed = (p, f.passed);
  names = f.names;
  covers = f.covers;
}

Fires-here :
    {tool cwd : Text} (t c : Value) (rs : List Rule)
    → NamesTool t tool
    → Covers c cwd
    → Fires tool cwd (allow t c ∷ rs)
Fires-here t c rs n v = record {
  before = [];
  tool_value = t;
  cwd_value = c;
  after = rs;
  split = refl;
  passed = tt;
  names = n;
  covers = v;
}

Passed-tool :
    (tool cwd : Text) (t c : Value) → (NamesTool t tool → ⊥) → IsPassed tool cwd (allow t c)
Passed-tool tool cwd t absent h = h
Passed-tool tool cwd t falsy h = h
Passed-tool tool cwd t truthy h = h
Passed-tool tool cwd t (text c) h = inl h

-- A rule for the tool: its directory decides, or the rules behind it.
named-Fires :
    (t v : Value) (rs : List Rule) (tool cwd : Text)
    → NamesTool t tool
    → then_else (in_cwd v cwd) (scan rs tool cwd) ≡ returns true
    → (scan rs tool cwd ≡ returns true → Fires tool cwd rs)
    → Fires tool cwd (allow t v ∷ rs)
unfolding in_cwd
named-Fires t absent rs tool cwd n k later = Fires-here t absent rs n tt
named-Fires t falsy rs tool cwd n k later = cc
named-Fires t truthy rs tool cwd n k later = cc
named-Fires t (text d) rs tool cwd n k later = elim (starts_with-cases d cwd) [
  | inl (e, r, q) ↦ Fires-here t (text d) rs n (r, q)
  | inr (e, no_rest) ↦ Fires-skip (allow t (text d)) (inr no_rest) (later (rw e at k))
]

scan-Fires :
    (rs : List Rule) (tool cwd : Text) → scan rs tool cwd ≡ returns true → Fires tool cwd rs
unfolding scan
scan-Fires [] tool cwd h = cc
scan-Fires (stray ∷ rs) tool cwd h = Fires-skip stray tt (scan-Fires rs tool cwd h)
scan-Fires (allow t c ∷ rs) tool cwd h = elim (other_tool-cases t tool) [
  | inl (e, no_name) ↦
      Fires-skip (allow t c) (Passed-tool tool cwd t c no_name) (scan-Fires rs tool cwd (rw e at h))
  | inr (e, n) ↦ named-Fires t c rs tool cwd n (rw e at h) (scan-Fires rs tool cwd)
]

scan-here :
    (t c : Value) (rs : List Rule) (tool cwd : Text)
    → NamesTool t tool
    → Covers c cwd
    → scan (allow t c ∷ rs) tool cwd ≡ returns true
unfolding scan
scan-here t absent rs tool cwd n v = elim (other_tool-cases t tool) [
  | inl (e, no_name) ↦ absurd (no_name n)
  | inr (e, _) ↦ rw e
]
scan-here t falsy rs tool cwd n v = elim v [ ]
scan-here t truthy rs tool cwd n v = elim v [ ]
scan-here t (text d) rs tool cwd n (r, q) = elim (other_tool-cases t tool) [
  | inl (e, no_name) ↦ absurd (no_name n)
  | inr (e, _) ↦ rw (e, q, starts_with_append d r)
]

scan-skip :
    (r : Rule) (rs : List Rule) (tool cwd : Text)
    → IsPassed tool cwd r
    → scan (r ∷ rs) tool cwd ≡ scan rs tool cwd
unfolding scan
scan-skip stray rs tool cwd h = refl
scan-skip (allow t absent) rs tool cwd h = ground (arith, other_tool-cases t tool)
scan-skip (allow t falsy) rs tool cwd h = ground (arith, other_tool-cases t tool)
scan-skip (allow t truthy) rs tool cwd h = ground (arith, other_tool-cases t tool)
scan-skip (allow t (text d)) rs tool cwd h =
    ground (arith, other_tool-cases t tool, starts_with-cases d cwd)

scan-append :
    (before rs : List Rule) (tool cwd : Text)
    → All (IsPassed tool cwd) before
    → scan (before ++ rs) tool cwd ≡ scan rs tool cwd
scan-append [] rs tool cwd h = refl
scan-append (r ∷ before) rs tool cwd h =
    scan-skip r (before ++ rs) tool cwd h.0 ∙ scan-append before rs tool cwd h.1

-- A command is allowed by the table exactly when some rule names its tool and covers its
-- directory, and every rule before that one is passed over: a rule for the tool whose directory
-- value is no text stops the search, and the answer is no.
pub match_allow_rules_iff :
    (rs : List Rule) (tool cwd : Text)
    → (match_allow_rules (rules rs) tool cwd ≡ true) ↔ Fires tool cwd rs
unfolding match_allow_rules
match_allow_rules_iff rs tool cwd = (
  λ h. scan-Fires rs tool cwd (ground (arith, h)),
  λ f.
      let e : scan rs tool cwd ≡ returns true = rw (f.split) (
        scan-append f.before (allow f.tool_value f.cwd_value ∷ f.after) tool cwd f.passed
        ∙ scan-here f.tool_value f.cwd_value f.after tool cwd f.names f.covers) in
      ap caught e,
)

scan-dicts : (rs : List Rule) (tool cwd : Text) → scan (dicts rs) tool cwd ≡ scan rs tool cwd
unfolding scan dicts
scan-dicts [] tool cwd = refl
scan-dicts (stray ∷ rs) tool cwd = scan-dicts rs tool cwd
scan-dicts (allow t c ∷ rs) tool cwd = rw (scan-dicts rs tool cwd)

-- Loading the table from the configuration changes no verdict, and a configuration that cannot be
-- read allows nothing.
pub preauthorized-match :
    (table : Table) (tool cwd : Text)
    → (preauthorized (returns table) tool cwd ≡ match_allow_rules table tool cwd)
      × (preauthorized raises tool cwd ≡ false)
unfolding preauthorized
preauthorized-match no_list tool cwd = (refl, refl)
preauthorized-match (rules rs) tool cwd = (ap caught (scan-dicts rs tool cwd), refl)
