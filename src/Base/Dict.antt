-- ===== src/Base/Dict.antt =====
-- A Python dict keyed by texts, in insertion order, and the library's set operations on it.
use mathlib.Core.Path.{◌≡◌, refl}
use mathlib.Core.Logic.{◌≢◌}
use mathlib.Core.Bool.{Bool, true, false}
use mathlib.Core.List.{List, [], ◌∷◌}
use mathlib.Core.Option.{Option, none, some}
use native.Mathlib.Omega.{arith}
use trimum.Base.Tests.{if◌then◌else◌}
use trimum.Base.Texts.{Text, same, same_iff}

abbrev pub Dict {ℓ} : Type ℓ → Type ℓ
Dict V = List (Text × V)

abbrev pub is_some {ℓ} : {A : Type ℓ} → Option A → Bool
is_some none = false
is_some (some _) = true

module _ {ℓ} {V : Type ℓ} where
  unfoldable pub lookup : Text → Dict V → Option V
  lookup k [] = none
  lookup k (e ∷ d) = if same k e.0 then some e.1 else lookup k d

  -- `k in d`
  abbrev pub contains : Text → Dict V → Bool
  contains k d = is_some (lookup k d)

  -- `d[k] = v`: a key that is there keeps its place.
  unfoldable pub insert : Text → V → Dict V → Dict V
  insert k v [] = (k, v) ∷ []
  insert k v (e ∷ d) = if same k e.0 then (k, v) ∷ d else e ∷ insert k v d

  -- `del d[k]`
  unfoldable pub erase : Text → Dict V → Dict V
  erase k [] = []
  erase k (e ∷ d) = if same k e.0 then d else e ∷ erase k d

  pub lookup-insert :
      (j k : Text) (v : V) (d : Dict V)
      → lookup j (insert k v d) ≡ (if same j k then some v else lookup j d)
  unfolding lookup insert
  lookup-insert j k v [] = refl
  lookup-insert j k v (e ∷ d) =
      ground (arith, same_iff j k, same_iff k e.0, same_iff j e.0, lookup-insert j k v d)

  pub lookup-insert_self : (k : Text) (v : V) (d : Dict V) → lookup k (insert k v d) ≡ some v
  lookup-insert_self k v d = ground (arith, lookup-insert k k v d, same_iff k k)

  pub lookup-insert_ne :
      (j k : Text) (v : V) (d : Dict V) → j ≢ k → lookup j (insert k v d) ≡ lookup j d
  lookup-insert_ne j k v d h = ground (arith, lookup-insert j k v d, same_iff j k)

  pub lookup-erase_ne : (j k : Text) (d : Dict V) → j ≢ k → lookup j (erase k d) ≡ lookup j d
  unfolding lookup erase
  lookup-erase_ne j k [] h = refl
  lookup-erase_ne j k (e ∷ d) h =
      ground (arith, same_iff j k, same_iff k e.0, same_iff j e.0, lookup-erase_ne j k d h)

  -- No key stands twice.
  abbrev pub Distinct : Dict V → Type ℓ
  Distinct [] = Unit
  Distinct (e ∷ d) = (lookup e.0 d ≡ none) × Distinct d

  pub insert-Distinct : (k : Text) (v : V) (d : Dict V) → Distinct d → Distinct (insert k v d)
  unfolding lookup insert
  insert-Distinct k v [] h = (refl, tt)
  insert-Distinct k v (e ∷ d) h =
      ground
        (arith, same_iff k e.0, same_iff e.0 k, lookup-insert e.0 k v d, insert-Distinct k v d h.1)

  pub erase-Distinct : (k : Text) (d : Dict V) → Distinct d → Distinct (erase k d)
  unfolding lookup erase
  erase-Distinct k [] h = tt
  erase-Distinct k (e ∷ d) h =
      ground (arith, same_iff k e.0, lookup-erase_ne e.0 k d, erase-Distinct k d h.1)

  pub lookup-erase_self : (k : Text) (d : Dict V) → Distinct d → lookup k (erase k d) ≡ none
  unfolding lookup erase
  lookup-erase_self k [] h = refl
  lookup-erase_self k (e ∷ d) h = ground (arith, same_iff k e.0, lookup-erase_self k d h.1)
