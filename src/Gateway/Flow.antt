-- ===== src/Gateway/Flow.antt =====
-- The early returns of `ToolGateway.execute` of src/trimum_core/tool_gateway.py (lines 547 to 984):
-- a part of it goes on with a value, returns a response, or lets an exception out.
use trimum.Base.{◌≡◌, refl, List, [], ◌∷◌}
use trimum.Gateway.{Response, Gateway}

pub data Step (A : Type 0) : Type 0 where
  going : A → Step A
  refused : Response → Step A
  crashed : Step A

abbrev pub Flow : Type 0 → Type 0
Flow A = Gateway → Step A × Gateway

abbrev pub bind_step : {A B : Type 0} → Step A × Gateway → (A → Flow B) → Step B × Gateway
bind_step (going a, s) f = f a s
bind_step (refused q, s) f = (refused q, s)
bind_step (crashed, s) f = (crashed, s)

infixl 5 ◌>>=◌
abbrev pub ◌>>=◌ : {A B : Type 0} → Flow A → (A → Flow B) → Flow B
◌>>=◌ m f s = bind_step (m s) f

abbrev pub pure : {A : Type 0} → A → Flow A
pure a s = (going a, s)

-- The parts one after another, each with the value of the one before it.
unfoldable pub chain : {A : Type 0} → List (A → Flow A) → A → Flow A
chain [] a = pure a
chain (f ∷ fs) a = f a >>= chain fs

step-eq-going :
    {A B : Type 0} (x : Step A × Gateway) (f : A → Flow B) {b : B} {t : Gateway}
    → bind_step x f ≡ (going b, t)
    → (a : A) × (u : Gateway) × (x ≡ (going a, u)) × (f a u ≡ (going b, t))
step-eq-going (going a, u) f h = (a, u, refl, h)
step-eq-going (refused q, u) f h = cc
step-eq-going (crashed, u) f h = cc

pub >>=-eq-going :
    {A B : Type 0} (m : Flow A) (f : A → Flow B) (s t : Gateway) {b : B}
    → (m >>= f) s ≡ (going b, t)
    → (a : A) × (u : Gateway) × (m s ≡ (going a, u)) × (f a u ≡ (going b, t))
>>=-eq-going m f s t h = step-eq-going (m s) f h
