-- ===== src/Evidence/Cycles/Repeated.antt =====
-- packages/evidence/src/derive.ts: a response that repeats the trades of another changes nothing.
use zegel.Common.{
  ℕ, ◌≡◌, refl, subst, false, Option, none, some, List, [], ◌∷◌, All, Bool-cases, inl, inr, arith,
}
use zegel.Common.Text.{Text, text_eq_refl}
use zegel.Common.JsMap.{lacks, lacks-append}
use zegel.Evidence.Cycles.{
  Bounds, NormalizedCycle, Cycles, kept_cycle, closed_of, closed_cycle, add_cycle, add_entries,
  is_outside,
}
use zegel.Evidence.Sources.{Runtime, PositionHistoryEntry, PositionCycle, UpstreamToken, to_ms}
use zegel.Evidence.Numbers.{Double}

abbrev key_of : Option (Text × NormalizedCycle) → Option Text
key_of none = none
key_of (some (k, n)) = some k

abbrev IsKnown : Cycles → Option Text → Type 0
IsKnown m none = Unit
IsKnown m (some k) = lacks k m ≡ false

kept_cycle-key :
    (r : Runtime) (w : Bounds) (i j : ℕ) (t : Option UpstreamToken) (c : PositionCycle)
    (o : Option Double)
    → key_of (kept_cycle r w i t c o) ≡ key_of (kept_cycle r w j t c o)
kept_cycle-key r w i j t c none = refl
kept_cycle-key r w i j t c (some at) = elim (Bool-cases (is_outside r.numbers w at)) [
  | inl e ↦ rw e refl
  | inr e ↦ rw e refl
]

-- The key of an entry does not depend on the source that it comes from.
closed_of-key :
    (r : Runtime) (w : Bounds) (i j : ℕ) (t : Option UpstreamToken) (o : Option PositionCycle)
    → key_of (closed_of r w i t o) ≡ key_of (closed_of r w j t o)
closed_of-key r w i j t none = refl
closed_of-key r w i j t (some c) = elim (Bool-cases c.is_open) [
  | inl e ↦ rw e refl
  | inr e ↦ rw e (kept_cycle-key r w i j t c (to_ms r.numbers c.exit_date))
]

add_cycle-IsKnown :
    (o : Option (Text × NormalizedCycle)) (m : Cycles) → IsKnown (add_cycle o m) (key_of o)
add_cycle-IsKnown none m = tt
add_cycle-IsKnown (some (k, n)) m = ground (arith, lacks-append k m ((k, n) ∷ []), text_eq_refl k)

add_cycle_keeps :
    (o : Option (Text × NormalizedCycle)) (m : Cycles) (x : Option Text)
    → IsKnown m x
    → IsKnown (add_cycle o m) x
add_cycle_keeps o m none h = tt
add_cycle_keeps none m (some j) h = h
add_cycle_keeps (some (k, n)) m (some j) h = ground (arith, lacks-append j m ((k, n) ∷ []))

add_cycle_again :
    (o : Option (Text × NormalizedCycle)) (m : Cycles) → IsKnown m (key_of o) → add_cycle o m ≡ m
add_cycle_again none m h = refl
add_cycle_again (some (k, n)) m h = rw h refl

add_entries_keeps :
    (r : Runtime) (w : Bounds) (i : ℕ) (es : List PositionHistoryEntry) (m : Cycles)
    (x : Option Text)
    → IsKnown m x
    → IsKnown (add_entries r w i es m) x
unfolding add_entries
add_entries_keeps r w i [] m x h = h
add_entries_keeps r w i (e ∷ es) m x h =
    add_entries_keeps r w i es (add_cycle (closed_cycle r w i e) m) x
      (add_cycle_keeps (closed_cycle r w i e) m x h)

add_entries-IsKnown :
    (r : Runtime) (w : Bounds) (i : ℕ) (es : List PositionHistoryEntry) (m : Cycles)
    → All (λ e. IsKnown (add_entries r w i es m) (key_of (closed_cycle r w i e))) es
unfolding add_entries
add_entries-IsKnown r w i [] m = tt
add_entries-IsKnown r w i (e ∷ es) m = (
  add_entries_keeps r w i es (add_cycle (closed_cycle r w i e) m) (key_of (closed_cycle r w i e))
      (add_cycle-IsKnown (closed_cycle r w i e) m),
  add_entries-IsKnown r w i es (add_cycle (closed_cycle r w i e) m),
)

add_entries_again :
    (r : Runtime) (w : Bounds) (i j : ℕ) (es : List PositionHistoryEntry) (m : Cycles)
    → All (λ e. IsKnown m (key_of (closed_cycle r w i e))) es
    → add_entries r w j es m ≡ m
unfolding add_entries closed_cycle
add_entries_again r w i j [] m h = refl
add_entries_again r w i j (e ∷ es) m (p, h) =
    rw
      (add_cycle_again (closed_of r w j e.token e.cycle) m
        (subst (IsKnown m) (closed_of-key r w i j e.token e.cycle) p))
      (add_entries_again r w i j es m h)

-- Reading the same entries once more, from whichever source, adds no trade and changes none.
pub add_entries-repeated :
    (r : Runtime) (w : Bounds) (i j : ℕ) (es : List PositionHistoryEntry) (m : Cycles)
    → add_entries r w j es (add_entries r w i es m) ≡ add_entries r w i es m
add_entries-repeated r w i j es m =
    add_entries_again r w i j es (add_entries r w i es m) (add_entries-IsKnown r w i es m)
