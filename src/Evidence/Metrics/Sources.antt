-- ===== src/Evidence/Metrics/Sources.antt =====
-- packages/evidence/src/derive.ts: what the claims do not depend on.
use zegel.Common.{ℕ, ◌≡◌, refl, sym, ap, ◌≢◌, ◌∙◌, Option, none, some, List, [], ◌∷◌, ◌++◌, arith}
use zegel.Common.Text.{Text, codes}
use zegel.Evidence.Bundle.{EvidenceSource, EvidenceBundle, Unavailable}
use zegel.Evidence.Specs.{positions_history, trades, token_security, funding}
use zegel.Evidence.Cycles.{bounds_of, closed_cycles, collect_cycles}
use zegel.Evidence.Sources.{
  Runtime, UsableSource, usable_source, usable_sources, usable_from, insert_source, sort_sources,
  pushed,
}
use zegel.Evidence.Metrics.{derive_metrics, claims_of_bundle}

-- Sources that differ at most in their order, where indices differ, and in sources that are marked
-- unavailable.
pub data SameEvidence : List EvidenceSource → List EvidenceSource → Type 0 where
  no_sources : SameEvidence [] []
  kept :
      (s : EvidenceSource) {l k : List EvidenceSource}
      → SameEvidence l k
      → SameEvidence (s ∷ l) (s ∷ k)
  swapped :
      (s t : EvidenceSource) (l : List EvidenceSource)
      → s.index ≢ t.index
      → SameEvidence (s ∷ t ∷ l) (t ∷ s ∷ l)
  dropped :
      (s : EvidenceSource) (u : Unavailable) (l : List EvidenceSource)
      → s.unavailable ≡ some u
      → SameEvidence (s ∷ l) l
  reversed : {l k : List EvidenceSource} → SameEvidence l k → SameEvidence k l
  in_turn : {l k j : List EvidenceSource} → SameEvidence l k → SameEvidence k j → SameEvidence l j

insert_source_comm :
    (x y : UsableSource) (l : List UsableSource)
    → x.index ≢ y.index
    → insert_source x (insert_source y l) ≡ insert_source y (insert_source x l)
unfolding insert_source
insert_source_comm x y [] d = ground arith
insert_source_comm x y (z ∷ l) d = ground (arith, insert_source_comm x y l d)

abbrev placed : Option UsableSource → List UsableSource → List UsableSource
placed none l = l
placed (some u) l = insert_source u l

sort_sources-pushed :
    (o : Option UsableSource) (l : List UsableSource)
    → sort_sources (pushed o l) ≡ placed o (sort_sources l)
unfolding sort_sources
sort_sources-pushed none l = refl
sort_sources-pushed (some u) l = refl

usable_source-index :
    (e : Text) (s : EvidenceSource) (u : UsableSource)
    → usable_source e s ≡ some u
    → u.index ≡ s.index
unfolding usable_source
usable_source-index e s u h = ground arith

placed_comm :
    (o p : Option UsableSource) (l : List UsableSource) (i j : ℕ)
    → ((u : UsableSource) → o ≡ some u → u.index ≡ i)
    → ((u : UsableSource) → p ≡ some u → u.index ≡ j)
    → i ≢ j
    → placed o (placed p l) ≡ placed p (placed o l)
placed_comm none p l i j f g d = refl
placed_comm (some u) none l i j f g d = refl
placed_comm (some u) (some v) l i j f g d =
    let e = f u refl in let e' = g v refl in insert_source_comm u v l (ground arith)

usable_source-unavailable :
    (e : Text) (s : EvidenceSource) (u : Unavailable)
    → s.unavailable ≡ some u
    → usable_source e s ≡ none
unfolding usable_source
usable_source-unavailable e s u h = ground arith

sorted-SameEvidence :
    (e : Text) (l k : List EvidenceSource)
    → SameEvidence l k
    → sort_sources (usable_from e l) ≡ sort_sources (usable_from e k)
unfolding usable_from
sorted-SameEvidence e _ _ no_sources = refl
sorted-SameEvidence e _ _ (kept s {l = l} {k = k} h) =
    sort_sources-pushed (usable_source e s) (usable_from e l)
    ∙ ap (placed (usable_source e s)) (sorted-SameEvidence e l k h)
    ∙ sym (sort_sources-pushed (usable_source e s) (usable_from e k))
sorted-SameEvidence e _ _ (swapped s t l d) =
    rw
      (
        sort_sources-pushed (usable_source e s) (pushed (usable_source e t) (usable_from e l)),
        sort_sources-pushed (usable_source e t) (usable_from e l),
        sort_sources-pushed (usable_source e t) (pushed (usable_source e s) (usable_from e l)),
        sort_sources-pushed (usable_source e s) (usable_from e l),
      )
      (placed_comm (usable_source e s) (usable_source e t) (sort_sources (usable_from e l)) s.index
        t.index (λ u. usable_source-index e s u) (λ u. usable_source-index e t u) d)
sorted-SameEvidence e _ _ (dropped s u l h) =
    ap (λ o. sort_sources (pushed o (usable_from e l))) (usable_source-unavailable e s u h)
sorted-SameEvidence e _ _ (reversed {l = l} {k = k} h) = sym (sorted-SameEvidence e l k h)
sorted-SameEvidence e _ _ (in_turn {l = l} {k = k} {j = j} h m) =
    sorted-SameEvidence e l k h ∙ sorted-SameEvidence e k j m

-- The claims of a bundle do not change when its sources are reordered, as long as two that change
-- places have different indices, nor when sources that are marked unavailable are added or taken
-- away.
pub claims_of_bundle-SameEvidence :
    (r : Runtime) (b : EvidenceBundle) (l : List EvidenceSource)
    → SameEvidence b.sources l
    → claims_of_bundle r (record b { sources = l }) ≡ claims_of_bundle r b
unfolding claims_of_bundle derive_metrics closed_cycles collect_cycles bounds_of usable_sources
claims_of_bundle-SameEvidence r b l h =
    rw
      (
        sorted-SameEvidence (codes "GET " ++ positions_history) b.sources l h,
        sorted-SameEvidence (codes "GET " ++ trades) b.sources l h,
        sorted-SameEvidence (codes "GET " ++ token_security) b.sources l h,
        sorted-SameEvidence (codes "GET " ++ funding) b.sources l h,
      )
      refl
