-- ===== src/Gateway/Permitted.antt =====
-- What `_check_agent_permissions` of src/trimum_core/tool_gateway.py lets through.
use trimum.Base.{
  ◌≡◌, refl, sym, ◌↔◌, ◌≢◌, ◌⊎◌, inl, inr, Bool, true, false, Option, none, some, List, [], ◌∷◌,
  arith, any, All, Has, Text, same, same_iff, starts_with, Bool-cases,
}
use trimum.Base.Strings.{lower, split_from}
use trimum.Gateway
use trimum.Gateway.{Manifest}
use trimum.Gateway.Agent.{
  rstrip, first_word, FileTool, file_tool, path_words, paths_of, path_allowed, exec_allowed,
  denied_word, check_paths, check_words, check_file, whitelisted, check_agent_permissions,
}

-- An entry of the whitelist is the first word, case ignored, or the command begins with it.
abbrev IsListed : Text → List Text → Type 0
IsListed cmd es =
    (a : Text) × Has a es × ((first_word cmd ≡ lower a) ⊎ (starts_with (lower a) cmd ≡ true))

-- Some pattern, less its stars and slashes at the end, begins the path.
abbrev IsCovered : List Text → Text → Type 0
IsCovered allowed p =
    (a : Text) × Has a allowed × (starts_with (rstrip b'/' (rstrip b'*' a)) p ≡ true)

abbrev pub FilesCovered : Gateway.Permissions → Text → Option FileTool → Type 0
FilesCovered p cmd none = Unit
FilesCovered p cmd (some t) = All (IsCovered (paths_of t p)) (path_words (split_from [] cmd))

abbrev pub Permitted : Text → Manifest → Option Text → Type 0
Permitted cmd m tool =
    All (λ d. first_word cmd ≢ lower d) m.permissions.deny_exec
    × ((m.permissions.exec ≡ []) ⊎ IsListed cmd m.permissions.exec)
    × FilesCovered m.permissions cmd (file_tool tool)

denied_word_iff :
    (word : Text) (ds : List Text) → (denied_word word ds ≡ false) ↔ All (λ d. word ≢ lower d) ds
unfolding denied_word
denied_word_iff word [] = ground arith
denied_word_iff word (d ∷ ds) = ground (arith, same_iff word (lower d), denied_word_iff word ds)

exec_allowed→IsListed :
    (cmd : Text) (es : List Text) → exec_allowed cmd (first_word cmd) es ≡ true → IsListed cmd es
unfolding exec_allowed
exec_allowed→IsListed cmd [] h = cc
exec_allowed→IsListed cmd (a ∷ es) h = elim (Bool-cases (same (first_word cmd) (lower a))) [
  | inl e ↦ (a, inl refl, inl ((same_iff (first_word cmd) (lower a)).0 e))
  | inr e ↦ elim (Bool-cases (starts_with (lower a) cmd)) [
    | inl e' ↦ (a, inl refl, inr e')
    | inr e' ↦ let (b, at, why) = exec_allowed→IsListed cmd es (ground arith) in (b, inr at, why)
  ]
]

IsListed→exec_allowed :
    (cmd a : Text) (es : List Text)
    → Has a es
    → (first_word cmd ≡ lower a) ⊎ (starts_with (lower a) cmd ≡ true)
    → exec_allowed cmd (first_word cmd) es ≡ true
unfolding exec_allowed
IsListed→exec_allowed cmd a [] at why = elim at [ ]
IsListed→exec_allowed cmd a (e ∷ es) (inl h) why =
    rw (sym h) (ground (arith, same_iff (first_word cmd) (lower a)))
IsListed→exec_allowed cmd a (e ∷ es) (inr h) why =
    ground (arith, IsListed→exec_allowed cmd a es h why)

any-Has :
    (f : Text → Bool) (xs : List Text) → (any f xs ≡ true) ↔ ((a : Text) × Has a xs × (f a ≡ true))
any-Has f [] = (λ h. cc, λ (a, at, h). elim at [ ])
any-Has f (x ∷ xs) = let (find, back) = any-Has f xs in (here find, λ (a, at, h). there back a at h)
  where
    here :
        (any f xs ≡ true → (a : Text) × Has a xs × (f a ≡ true))
        → any f (x ∷ xs) ≡ true
        → (a : Text) × Has a (x ∷ xs) × (f a ≡ true)
    here find h = elim (Bool-cases (f x)) [
      | inl e ↦ (x, inl refl, e)
      | inr e ↦ let (a, at, why) = find (ground arith) in (a, inr at, why)
    ]

    there :
        ((a : Text) × Has a xs × (f a ≡ true) → any f xs ≡ true)
        → (a : Text) → Has a (x ∷ xs)
        → f a ≡ true
        → any f (x ∷ xs) ≡ true
    there back a (inl e) h = rw (sym e, h) refl
    there back a (inr at) h = let rest = back (a, at, h) in ground arith

path_allowed_iff :
    (allowed : List Text) (p : Text) → (path_allowed allowed p ≡ true) ↔ IsCovered allowed p
unfolding path_allowed
path_allowed_iff allowed p = any-Has (λ a. starts_with (rstrip b'/' (rstrip b'*' a)) p) allowed

check_paths_iff :
    (name : Text) (allowed ps : List Text)
    → (check_paths name allowed ps ≡ none) ↔ All (IsCovered allowed) ps
unfolding check_paths
check_paths_iff name allowed [] = ground arith
check_paths_iff name allowed (p ∷ ps) =
    ground (arith, path_allowed_iff allowed p, check_paths_iff name allowed ps)

check_words_iff :
    (name : Text) (t : FileTool) (allowed ps : List Text)
    → (check_words name t allowed ps ≡ none) ↔ All (IsCovered allowed) ps
unfolding check_words check_paths
check_words_iff name t allowed [] = ground arith
check_words_iff name t [] (p ∷ ps) = (λ h. cc, λ ((a, at, why), rest). elim at [ ])
check_words_iff name t (a ∷ es) (p ∷ ps) = check_paths_iff name (a ∷ es) (p ∷ ps)

check_file_iff :
    (name cmd : Text) (p : Gateway.Permissions) (t : Option FileTool)
    → (check_file name p (split_from [] cmd) t ≡ none) ↔ FilesCovered p cmd t
unfolding check_file
check_file_iff name cmd p none = ground arith
check_file_iff name cmd p (some t) =
    check_words_iff name t (paths_of t p) (path_words (split_from [] cmd))

whitelisted_iff :
    (cmd : Text) (es : List Text)
    → (whitelisted cmd (first_word cmd) es ≡ true) ↔ ((es ≡ []) ⊎ IsListed cmd es)
unfolding whitelisted
whitelisted_iff cmd [] = (λ h. inl refl, λ h. refl)
whitelisted_iff cmd (a ∷ es) = (λ h. inr (exec_allowed→IsListed cmd (a ∷ es) h), back)
  where
    back :
        ((a ∷ es) ≡ []) ⊎ IsListed cmd (a ∷ es) → exec_allowed cmd (first_word cmd) (a ∷ es) ≡ true
    back (inl e) = cc
    back (inr (b, at, why)) = IsListed→exec_allowed cmd b (a ∷ es) at why

-- A command of an agent with a manifest is let through exactly when no entry of `deny_exec` is its
-- first word, case ignored, the whitelist is empty or lists the command, and, for the tools
-- file.read and file.write, every word that looks like a path begins with an entry of the agent's
-- paths, less the stars and slashes at the entry's end.
pub check_agent_permissions_iff :
    (cmd : Text) (m : Manifest) (tool : Option Text)
    → (check_agent_permissions cmd (some m) tool ≡ none) ↔ Permitted cmd m tool
unfolding check_agent_permissions
check_agent_permissions_iff cmd m tool = ground (
  arith,
  denied_word_iff (first_word cmd) m.permissions.deny_exec,
  whitelisted_iff cmd m.permissions.exec,
  check_file_iff m.name cmd m.permissions (file_tool tool),
)
