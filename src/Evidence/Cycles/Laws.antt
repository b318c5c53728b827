-- ===== src/Evidence/Cycles/Laws.antt =====
-- packages/evidence/src/derive.ts: the closed trades of a bundle lie in its window and stand once each.
use zegel.Common.{
  ℕ, ◌≡◌, refl, sym, ap, subst, ◌∙◌, Bool, true, false, Option, none, some, List, [], ◌∷◌, ◌++◌,
  All, if◌then◌else◌, Bool-cases, Option-cases, inl, inr, arith,
}
use zegel.Common.Text.{Text, text_eq_symm}
use zegel.Common.JsMap.{lacks, HasDistinctKeys, values, lacks-append}
use zegel.Evidence.Numbers.{Double, Arithmetic}
use zegel.Evidence.Bundle.{EvidenceBundle}
use zegel.Evidence.Cycles.{
  Bounds, NormalizedCycle, Cycles, is_outside, normalized, kept_cycle, closed_cycle, closed_of,
  add_cycle, add_entries, add_sources, entries_of, collect_cycles, bounds_of, insert_cycle,
  sort_cycles, closed_cycles, cycle_before,
}
use zegel.Evidence.Sources.{
  Runtime, UsableSource, UpstreamToken, PositionCycle, PositionHistoryEntry, to_ms, usable_sources,
}
use zegel.Evidence.Specs.{positions_history}

-- What holds of the cycles that the loop has collected.
record AreCollected (r : Runtime) (w : Bounds) (m : Cycles) : Type 0 where
  distinct : HasDistinctKeys m
  inside : All (λ e. is_outside r.numbers w e.1.exit_ms ≡ false) m

append-HasDistinctKeys :
    (k : Text) (c : NormalizedCycle) (m : Cycles)
    → lacks k m ≡ true
    → HasDistinctKeys m
    → HasDistinctKeys (m ++ (k, c) ∷ [])
append-HasDistinctKeys k c [] free h = (refl, tt)
append-HasDistinctKeys k c ((j, d) ∷ m) free (f, h) = (
  ground (arith, text_eq_symm j k, lacks-append j m ((k, c) ∷ [])),
  append-HasDistinctKeys k c m (ground arith) h,
)

All-append_one :
    (P : Text × NormalizedCycle → Type 0) (e : Text × NormalizedCycle) (m : Cycles)
    → All P m
    → P e
    → All P (m ++ e ∷ [])
All-append_one P e [] h p = (p, tt)
All-append_one P e (d ∷ m) (q, h) p = (q, All-append_one P e m h p)

-- The exit of a cycle that is there.
abbrev exit_or : Double → Option (Text × NormalizedCycle) → Double
exit_or d none = d
exit_or d (some (k, n)) = n.exit_ms

if_false {ℓ} : {A : Type ℓ} (b : Bool) (x y : A) → b ≡ false → (if b then x else y) ≡ y
if_false b x y e = rw e refl

if_true {ℓ} : {A : Type ℓ} (b : Bool) (x y : A) → b ≡ true → (if b then x else y) ≡ x
if_true b x y e = rw e refl

kept_cycle-inside :
    (r : Runtime) (w : Bounds) (i : ℕ) (t : Option UpstreamToken) (c : PositionCycle)
    (o : Option Double) (k : Text) (n : NormalizedCycle)
    → kept_cycle r w i t c o ≡ some (k, n)
    → is_outside r.numbers w n.exit_ms ≡ false
kept_cycle-inside r w i t c none k n e = absurd cc
kept_cycle-inside r w i t c (some at) k n e =
    let out = is_outside r.numbers w at in
    let kept = some (normalized r i t c at) in
    elim (Bool-cases (is_outside r.numbers w at)) [
      | inl outside ↦
          (let none_kept : Path (Option (Text × NormalizedCycle)) none (some (k, n)) =
              sym (if_true out none kept outside) ∙ e in
            absurd cc)
      | inr inside ↦
          (let whole : some (normalized r i t c at) ≡ some (k, n) =
              sym (if_false out none kept inside) ∙ e in
            subst (λ d. is_outside r.numbers w d ≡ false) (ap (exit_or at) whole) inside)
    ]

-- The same entry, seen through its cycle.
of_cycle-inside :
    (r : Runtime) (w : Bounds) (i : ℕ) (t : Option UpstreamToken) (o : Option PositionCycle)
    (k : Text) (n : NormalizedCycle)
    → closed_of r w i t o ≡ some (k, n)
    → is_outside r.numbers w n.exit_ms ≡ false
of_cycle-inside r w i t none k n h = absurd cc
of_cycle-inside r w i t (some c) k n h = elim (Bool-cases c.is_open) [
  | inl open_still ↦
      (let none_kept : Path (Option (Text × NormalizedCycle)) none (some (k, n)) =
          sym
            (if_true c.is_open none (kept_cycle r w i t c (to_ms r.numbers c.exit_date)) open_still)
          ∙ h in
        absurd cc)
  | inr closed ↦ kept_cycle-inside r w i t c (to_ms r.numbers c.exit_date) k n (
      sym (if_false c.is_open none (kept_cycle r w i t c (to_ms r.numbers c.exit_date)) closed) ∙ h)
]

add_inside :
    (r : Runtime) (w : Bounds) (k : Text) (n : NormalizedCycle) (m : Cycles)
    → is_outside r.numbers w n.exit_ms ≡ false
    → AreCollected r w m
    → AreCollected r w (add_cycle (some (k, n)) m)
add_inside r w k n m inside h = elim (Bool-cases (lacks k m)) [
  | inl free ↦ rw free (record {
    distinct = append-HasDistinctKeys k n m free h.distinct;
    inside =
        All-append_one (λ e. is_outside r.numbers w e.1.exit_ms ≡ false) (k, n) m h.inside inside;
  })
  | inr taken ↦ rw taken h
]

add_cycle-AreCollected :
    (r : Runtime) (w : Bounds) (i : ℕ) (e : PositionHistoryEntry) (m : Cycles)
    → AreCollected r w m
    → AreCollected r w (add_cycle (closed_cycle r w i e) m)
unfolding closed_cycle
add_cycle-AreCollected r w i e m h = elim (Option-cases (closed_cycle r w i e)) [
  | inl nothing ↦ rw nothing h
  | inr ((k, n), found) ↦
      rw found (add_inside r w k n m (of_cycle-inside r w i e.token e.cycle k n found) h)
]

add_entries-AreCollected :
    (r : Runtime) (w : Bounds) (i : ℕ) (es : List PositionHistoryEntry) (m : Cycles)
    → AreCollected r w m
    → AreCollected r w (add_entries r w i es m)
unfolding add_entries
add_entries-AreCollected r w i [] m h = h
add_entries-AreCollected r w i (e ∷ es) m h =
    add_entries-AreCollected r w i es (add_cycle (closed_cycle r w i e) m)
      (add_cycle-AreCollected r w i e m h)

add_sources-AreCollected :
    (r : Runtime) (w : Bounds) (ss : List UsableSource) (m : Cycles)
    → AreCollected r w m
    → AreCollected r w (add_sources r w ss m)
unfolding add_sources
add_sources-AreCollected r w [] m h = h
add_sources-AreCollected r w (s ∷ ss) m h =
    add_sources-AreCollected r w ss
      (add_entries r w s.index (entries_of (r.readers.history s.body)) m)
      (add_entries-AreCollected r w s.index (entries_of (r.readers.history s.body)) m h)

insert_cycle-All :
    (a : Arithmetic) (P : NormalizedCycle → Type 0) (x : NormalizedCycle)
    (ys : List NormalizedCycle)
    → P x
    → All P ys
    → All P (insert_cycle a x ys)
unfolding insert_cycle
insert_cycle-All a P x [] p h = (p, tt)
insert_cycle-All a P x (y ∷ ys) p (q, h) = elim (Bool-cases (cycle_before a y x)) [
  | inl e ↦ rw e (q, insert_cycle-All a P x ys p h)
  | inr e ↦ rw e (p, (q, h))
]

sort_values-inside :
    (r : Runtime) (w : Bounds) (m : Cycles)
    → All (λ e. is_outside r.numbers w e.1.exit_ms ≡ false) m
    → All (λ c. is_outside r.numbers w c.exit_ms ≡ false) (sort_cycles r.numbers (values m))
unfolding values sort_cycles
sort_values-inside r w [] h = tt
sort_values-inside r w ((k, n) ∷ m) (p, h) =
    insert_cycle-All r.numbers (λ c. is_outside r.numbers w c.exit_ms ≡ false) n
      (sort_cycles r.numbers (values m)) p (sort_values-inside r w m h)

-- For every bundle no two of the trades that are collected have the same key, and the exit of
-- each trade that is counted lies neither before the start of the bundle's window nor after its
-- end.
pub closed_cycles-inside :
    (r : Runtime) (b : EvidenceBundle)
    → HasDistinctKeys (collect_cycles r b)
      × All
          (λ c. is_outside r.numbers (bounds_of r.numbers b) c.exit_ms ≡ false)
          (closed_cycles r b)
unfolding closed_cycles collect_cycles
closed_cycles-inside r b =
    let w = bounds_of r.numbers b in
    let none_yet : AreCollected r w [] = record { distinct = tt; inside = tt } in
    let all_in = add_sources-AreCollected r w (usable_sources b positions_history) [] none_yet in
    (
      all_in.distinct,
      sort_values-inside r w (add_sources r w (usable_sources b positions_history) [])
          all_in.inside,
    )
