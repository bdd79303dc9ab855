-- ===== src/Resources/TokenSums.antt =====
-- The sums of `TokenUsageTracker.get_usage` in src/trimum_core/resource_controller.py.
use Prim.Native.Nat.{max}
use trimum.Base.{
  sym, append-nil, append_assoc, length-append, ℕ, ◌*◌, ◌≤◌, ◌≡◌, refl, ap, ◌∙◌, some, List, [],
  ◌∷◌, ◌++◌, map, arith, length, All,
}
use trimum.Resources.Tokens.{
  TokenUsage, Slot, no_slot, or_nil, zip, recent, entries_in_window, slot_of, cleaned,
  cleanup_agent, record_usage, sum_usage, no_usage, get_usage, record_usages,
}

entries : Slot → List (ℕ × TokenUsage)
entries s = zip (or_nil s.timestamps) (or_nil s.usages)

abbrev IsPaired : Slot → Type 0
IsPaired s = length (or_nil s.timestamps) ≡ length (or_nil s.usages)

zip_back : (es : List (ℕ × TokenUsage)) → zip (map (λ p. p.0) es) (map (λ p. p.1) es) ≡ es
zip_back [] = refl
zip_back (e ∷ es) = ap (λ l. e ∷ l) (zip_back es)

same_length : (es : List (ℕ × TokenUsage)) → length (map (λ p. p.0) es) ≡ length (map (λ p. p.1) es)
same_length [] = refl
same_length (e ∷ es) = omega (arith, same_length es)

zip_snoc :
    (ts : List ℕ) (us : List TokenUsage) (t : ℕ) (u : TokenUsage)
    → length ts ≡ length us
    → zip (ts ++ t ∷ []) (us ++ u ∷ []) ≡ zip ts us ++ (t, u) ∷ []
zip_snoc [] [] t u h = refl
zip_snoc [] (v ∷ us) t u h = absurd (omega arith)
zip_snoc (s ∷ ts) [] t u h = absurd (omega arith)
zip_snoc (s ∷ ts) (v ∷ us) t u h = ap (λ l. (s, v) ∷ l) (zip_snoc ts us t u (omega arith))

-- A wider window at an earlier time takes nothing away from a later and narrower one.
recent-recent :
    (k m now past : ℕ) (es : List (ℕ × TokenUsage))
    → k ≤ m
    → past ≤ now
    → recent k now (recent m past es) ≡ recent k now es
unfolding recent
recent-recent k m now past [] h g = refl
recent-recent k m now past (e ∷ es) h g = ground (arith, recent-recent k m now past es h g)

recent-append :
    (k now : ℕ) (es fs : List (ℕ × TokenUsage))
    → recent k now (es ++ fs) ≡ recent k now es ++ recent k now fs
unfolding recent
recent-append k now [] fs = refl
recent-append k now (e ∷ es) fs = ground (arith, recent-append k now es fs)

slot_of-IsPaired : (es : List (ℕ × TokenUsage)) → IsPaired (slot_of es)
slot_of-IsPaired [] = refl
slot_of-IsPaired (e ∷ es) = same_length (e ∷ es)

slot_of_entries : (es : List (ℕ × TokenUsage)) → entries (slot_of es) ≡ es
unfolding entries
slot_of_entries [] = refl
slot_of_entries (e ∷ es) = zip_back (e ∷ es)

cleaned-recent :
    (k sec now past : ℕ) (s : Slot) (us : List TokenUsage) (ts : List ℕ)
    → k ≤ sec
    → past ≤ now
    → entries s ≡ zip ts us
    → recent k now (entries (cleaned sec past s us ts)) ≡ recent k now (entries s)
cleaned-recent k sec now past s [] ts h g e = refl
cleaned-recent k sec now past s (u ∷ us) [] h g e = refl
cleaned-recent k sec now past s (u ∷ us) (t ∷ ts) h g e =
    ap (recent k now) (slot_of_entries (recent sec past (zip (t ∷ ts) (u ∷ us))))
    ∙ recent-recent k sec now past (zip (t ∷ ts) (u ∷ us)) h g
    ∙ ap (recent k now) (sym e)

cleaned-IsPaired :
    (sec past : ℕ) (s : Slot) (us : List TokenUsage) (ts : List ℕ)
    → IsPaired s
    → IsPaired (cleaned sec past s us ts)
cleaned-IsPaired sec past s [] ts h = h
cleaned-IsPaired sec past s (u ∷ us) [] h = h
cleaned-IsPaired sec past s (u ∷ us) (t ∷ ts) h =
    slot_of-IsPaired (recent sec past (zip (t ∷ ts) (u ∷ us)))

record_usages-recent :
    (window now : ℕ) (cs : List (ℕ × TokenUsage)) (s : Slot)
    → IsPaired s
    → All (λ c. c.0 ≤ now) cs
    → recent (window * 60) now (entries (record_usages window cs s))
      ≡ recent (window * 60) now (entries s) ++ recent (window * 60) now cs
unfolding record_usages record_usage cleanup_agent entries
record_usages-recent window now [] s paired h = sym (append-nil _)
record_usages-recent window now (c ∷ cs) s paired h =
    let k = window * 60 in
    let ts = or_nil s.timestamps ++ c.0 ∷ [] in
    let us = or_nil s.usages ++ c.1 ∷ [] in
    let grown : Slot = record { usages = some us; timestamps = some ts } in
    let sec = max window 30 * 60 in
    let even : IsPaired grown = omega (
      arith,
      length-append (or_nil s.timestamps) (c.0 ∷ []),
      length-append (or_nil s.usages) (c.1 ∷ []),
    ) in
    let here : recent k now (entries (cleaned sec c.0 grown us ts))
        ≡ recent k now (entries s) ++ recent k now (c ∷ []) =
      cleaned-recent k sec now c.0 grown us ts (omega arith) h.0 refl
      ∙ ap (recent k now) (zip_snoc (or_nil s.timestamps) (or_nil s.usages) c.0 c.1 paired)
      ∙ recent-append k now (entries s) (c ∷ []) in
    record_usages-recent window now cs (cleaned sec c.0 grown us ts)
      (cleaned-IsPaired sec c.0 grown us ts even) h.1
    ∙ ap (λ l. l ++ recent k now cs) here
    ∙ append_assoc (recent k now (entries s)) (recent k now (c ∷ [])) (recent k now cs)
    ∙ ap (λ l. recent k now (entries s) ++ l) (sym (recent-append k now (c ∷ []) cs))

-- The usage that the tracker reports is the sum over exactly the recorded calls that lie inside the
-- window, whatever the clean-ups dropped before, as long as none was recorded after now.
pub get_usage-record_usages :
    (window now : ℕ) (cs : List (ℕ × TokenUsage))
    → All (λ c. c.0 ≤ now) cs
    → get_usage window now (record_usages window cs no_slot)
      ≡ sum_usage no_usage (recent (window * 60) now cs)
unfolding get_usage entries entries_in_window recent
get_usage-record_usages window now cs h =
    ap (sum_usage no_usage) (record_usages-recent window now cs no_slot refl h)
