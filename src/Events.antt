-- ===== src/Events.antt =====
-- The subscriptions of src/trimum_core/event_bus.py (lines 143 to 211) and their index in
-- src/trimum_core/event_index.py (lines 26 to 150). A callback is a number: callbacks are compared.
use trimum.Base.{
  ℕ, zero, suc, ◌+◌, ◌-◌, Bool, true, false, ◌||◌, Option, none, some, List, [], ◌∷◌, ◌++◌, length,
  drop, if◌then◌else◌, ◌==◌, ltb, leb, Text, codes, same,
}
use trimum.Base.Dict.{Dict, lookup, insert, erase}
pub mod Ranks
pub mod Buckets
pub mod Scan
pub mod Agreement
pub mod Runs
mod Examples

abbrev pub Listeners : Type 0
Listeners = List ℕ

abbrev pub star : Text
star = codes "*"

-- A character in front of the first segment.
abbrev pub onto_first : ℕ → List Text → List Text
onto_first c [] = (c ∷ []) ∷ []
onto_first c (w ∷ ws) = (c ∷ w) ∷ ws

-- `t.split(".")`
unfoldable pub split_dots : Text → List Text
split_dots [] = [] ∷ []
split_dots (c ∷ t) = let rest = split_dots t in if c == b'.' then [] ∷ rest else onto_first c rest

-- `_first_segment`
unfoldable pub first_segment : Text → Text
first_segment [] = []
first_segment (c ∷ t) = let rest = first_segment t in if c == b'.' then [] else c ∷ rest

-- A star before the last segment: `rest` segments of the pattern follow it, and take as many
-- segments at the end.
abbrev pub after_star : List Text → List Text → (List Text → Bool) → Bool
after_star [] actual k = true
after_star (p ∷ ps) actual k =
    if leb (length actual) (length (p ∷ ps))
    then false
    else k (drop (length actual - length (p ∷ ps)) actual)

-- The loop of `matches`.
unfoldable pub walk : List Text → List Text → Bool
unfolding same
walk [] [] = true
walk [] (a ∷ actual) = false
walk (p ∷ ps) [] = false
walk (p ∷ ps) (a ∷ actual) =
    if same p star
    then after_star ps (a ∷ actual) (walk ps)
    else let rest = walk ps actual in if same p a then rest else false

unfoldable pub matches : Text → Text → Bool
unfolding walk split_dots
matches pattern actual =
    if same pattern star
    then true
    else if ltb (length (split_dots actual)) (length (split_dots pattern))
    then false
    else walk (split_dots pattern) (split_dots actual)

pub record EventIndex : Type 0 where
  pub buckets : Dict (Dict Listeners)
  pub pattern_order : Dict ℕ
  pub next_order : ℕ

abbrev pub or_empty {ℓ} : {A : Type ℓ} → Option (List A) → List A
or_empty none = []
or_empty (some l) = l

abbrev pub bucket_of : Text → EventIndex → Dict Listeners
bucket_of first ix = or_empty (lookup first ix.buckets)

abbrev pub with_new : Option Listeners → Text → EventIndex → EventIndex
with_new (some l) pattern ix = ix
with_new none pattern ix = record ix {
  pattern_order = insert pattern ix.next_order ix.pattern_order;
  next_order = ix.next_order + 1;
}

-- `setdefault(pattern, []).append(callback)`
abbrev pub add_to : Text → ℕ → Dict Listeners → Dict Listeners
add_to pattern callback d = insert pattern (or_empty (lookup pattern d) ++ callback ∷ []) d

unfoldable pub add_listener : Text → ℕ → EventIndex → EventIndex
unfolding first_segment lookup insert
add_listener pattern callback ix =
    let first = first_segment pattern in
    let bucket = bucket_of first ix in
    record (with_new (lookup pattern bucket) pattern ix) {
      buckets = insert first (add_to pattern callback bucket) ix.buckets;
    }

-- `list.remove`, `none` for a ValueError.
abbrev pub onto : ℕ → Option Listeners → Option Listeners
onto c none = none
onto c (some l) = some (c ∷ l)

unfoldable pub remove_first : ℕ → Listeners → Option Listeners
remove_first c [] = none
remove_first c (d ∷ l) = let rest = remove_first c l in if c == d then some l else onto d rest

-- A bucket that is empty is deleted.
abbrev pub put_bucket : Text → Dict Listeners → EventIndex → EventIndex
put_bucket first [] ix = record ix { buckets = erase first ix.buckets }
put_bucket first (x ∷ d) ix = record ix { buckets = insert first (x ∷ d) ix.buckets }

abbrev pub without_order : Text → EventIndex → EventIndex
without_order pattern ix = record ix { pattern_order = erase pattern ix.pattern_order }

-- The listeners that are left of a pattern.
abbrev pub drop_listener : Text → Option Listeners → Dict Listeners → EventIndex → EventIndex
drop_listener pattern none bucket ix = ix
drop_listener pattern (some []) bucket ix =
    put_bucket (first_segment pattern) (erase pattern bucket) (without_order pattern ix)
drop_listener pattern (some (c ∷ l)) bucket ix =
    put_bucket (first_segment pattern) (insert pattern (c ∷ l) bucket) ix

abbrev pub then_remove : ℕ → Option Listeners → Option Listeners
then_remove callback none = none
then_remove callback (some l) = remove_first callback l

unfoldable pub remove_listener : Text → ℕ → EventIndex → EventIndex
unfolding first_segment lookup insert erase remove_first
remove_listener pattern callback ix =
    let bucket = bucket_of (first_segment pattern) ix in
    drop_listener pattern (then_remove callback (lookup pattern bucket)) bucket ix

abbrev pub Ranked : Type 0
Ranked = ℕ × Listeners

-- `matched.sort(key=lambda item: item[0])`
unfoldable pub place : Ranked → List Ranked → List Ranked
place x [] = x ∷ []
place x (y ∷ ys) = let rest = place x ys in if leb x.0 y.0 then x ∷ y ∷ ys else y ∷ rest

unfoldable pub sort : List Ranked → List Ranked
unfolding place
sort [] = []
sort (x ∷ xs) = place x (sort xs)

abbrev pub or_zero : Option ℕ → ℕ
or_zero none = 0
or_zero (some n) = n

-- The patterns of a bucket that match, with their order.
unfoldable pub ranked : Dict ℕ → Text → Dict Listeners → List Ranked
unfolding lookup matches same
ranked order event [] = []
ranked order event ((p, l) ∷ d) =
    let rest = ranked order event d in
    if same p star || matches p event then (or_zero (lookup p order), l) ∷ rest else rest

unfoldable pub extend_all : List Ranked → Listeners
extend_all [] = []
extend_all (x ∷ xs) = x.1 ++ extend_all xs

-- The buckets of the first segment and of the star, once if they are the same.
unfoldable pub relevant : Text → EventIndex → List Ranked
unfolding ranked lookup first_segment same
relevant event ix =
    let first = first_segment event in
    let mine = ranked ix.pattern_order event (bucket_of first ix) in
    if same first star then mine else mine ++ ranked ix.pattern_order event (bucket_of star ix)

unfoldable pub match_index : Text → EventIndex → Listeners
unfolding relevant sort extend_all
match_index event ix = extend_all (sort (relevant event ix))

-- The subscriptions of the bus, and its index.
pub record EventBus : Type 0 where
  pub subscribers : Dict Listeners
  pub index : EventIndex

unfoldable pub subscribe : Text → ℕ → EventBus → EventBus
unfolding add_listener lookup insert
subscribe pattern callback b = record {
  subscribers = add_to pattern callback b.subscribers;
  index = add_listener pattern callback b.index;
}

abbrev pub left_after : ℕ → Listeners → Option Listeners → Listeners
left_after callback l none = l
left_after callback l (some l') = l'

-- An empty list of subscribers is deleted.
abbrev pub put_back : Text → Listeners → Dict Listeners → Dict Listeners
put_back pattern [] d = erase pattern d
put_back pattern (c ∷ l) d = insert pattern (c ∷ l) d

abbrev pub unsubscribed : Text → ℕ → Option Listeners → EventBus → EventBus
unsubscribed pattern callback none b = b
unsubscribed pattern callback (some l) b = record {
  subscribers = put_back pattern (left_after callback l (remove_first callback l)) b.subscribers;
  index = remove_listener pattern callback b.index;
}

unfoldable pub unsubscribe : Text → ℕ → EventBus → EventBus
unfolding lookup insert erase remove_first remove_listener
unsubscribe pattern callback b = unsubscribed pattern callback (lookup pattern b.subscribers) b
