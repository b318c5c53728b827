-- ===== src/Evidence/RateLimit/Laws.antt =====
-- packages/evidence/src/ratelimit.ts: what the observer keeps of a run of responses.
use zegel.Common.{
  ℕ, suc, ◌+◌, ◌-◌, ◌≤◌, ◌≡◌, refl, ap, sym, ◌∙◌, zero, false, Bool-cases, inl, inr, Option, none,
  some, List, [], ◌∷◌, ◌++◌, length, drop, ltb, length-append, length-drop, arith,
}
use mathlib.Core.List.{append_assoc, append-nil}
use native.Mathlib.Nat.{zero-add}
use zegel.Evidence.Numbers.{Double, Arithmetic}
use zegel.Evidence.RateLimit.{
  Snapshot, Observer, create_rate_limit_observer, cost_of, capped, record_snapshot,
}

-- The observer after the responses, the first one first.
abbrev pub record_all : Arithmetic → Observer → List Snapshot → Observer
record_all a o [] = o
record_all a o (s ∷ ss) = record_all a (record_snapshot a o s) ss

-- The costs added up from the left, as they come in.
abbrev pub cost_total : Arithmetic → Double → List Snapshot → Double
cost_total a d [] = d
cost_total a d (s ∷ ss) = cost_total a (a.add d (cost_of a s.cost)) ss

abbrev pub last_of : Option Snapshot → List Snapshot → Option Snapshot
last_of o [] = o
last_of o (s ∷ ss) = last_of (some s) ss

-- The last `n` elements of a list.
abbrev pub take_last : ℕ → List Snapshot → List Snapshot
take_last n xs = drop (length xs - n) xs

none_over : (n : ℕ) (xs : List Snapshot) → ltb n (length xs) ≡ false → length xs - n ≡ 0
none_over n xs h = ground arith

capped-take_last : (n : ℕ) (xs : List Snapshot) → capped n xs ≡ take_last n xs
capped-take_last n xs = elim (Bool-cases (ltb n (length xs))) [
  | inl long ↦ rw long refl
  | inr short ↦ rw (short, none_over n xs short) refl
]

drop-append_le :
    (k : ℕ) (xs ys : List Snapshot) → k ≤ length xs → drop k (xs ++ ys) ≡ drop k xs ++ ys
drop-append_le zero xs ys h = refl
drop-append_le (suc k) [] ys h = absurd (omega arith)
drop-append_le (suc k) (x ∷ xs) ys h = drop-append_le k xs ys (omega arith)

drop-nil : (n : ℕ) → drop {A = Snapshot} n [] ≡ []
drop-nil zero = refl
drop-nil (suc n) = refl

drop-suc :
    (k j : ℕ) (x : Snapshot) (xs : List Snapshot) → drop (suc k + j) (x ∷ xs) ≡ drop (k + j) xs
drop-suc k j x xs = let e : suc k + j ≡ suc (k + j) = omega arith in rw e refl

drop-drop : (j k : ℕ) (xs : List Snapshot) → drop j (drop k xs) ≡ drop (k + j) xs
drop-drop j zero xs = ap (λ (n : ℕ). drop n xs) (sym (zero-add j))
drop-drop j (suc k) [] = drop-nil j ∙ sym (drop-nil (suc k + j))
drop-drop j (suc k) (x ∷ xs) = drop-drop j k xs ∙ sym (drop-suc k j x xs)

take_last-append :
    (n : ℕ) (xs ys : List Snapshot) → take_last n (take_last n xs ++ ys) ≡ take_last n (xs ++ ys)
take_last-append n xs ys =
    let k = length xs - n in
    ap (λ l. drop (length (take_last n xs ++ ys) - n) l)
      (sym (drop-append_le k xs ys (omega arith)))
    ∙ drop-drop (length (take_last n xs ++ ys) - n) k (xs ++ ys)
    ∙ ap (λ m. drop m (xs ++ ys))
        (omega (arith, length-append (take_last n xs) ys, length-append xs ys, length-drop k xs))

-- The run goes on from the snapshots seen so far.
record_all-from :
    (a : Arithmetic) (n : ℕ) (o : Option Snapshot) (d : Double) (seen ss : List Snapshot)
    → record_all a
        (record { history_limit = n; latest = o; spent = d; history = take_last n seen })
        ss
      ≡ record {
        history_limit = n;
        latest = last_of o ss;
        spent = cost_total a d ss;
        history = take_last n (seen ++ ss);
      }
unfolding record_snapshot
record_all-from a n o d seen [] = rw (append-nil seen) refl
record_all-from a n o d seen (s ∷ ss) =
    rw
      (
        capped-take_last n (take_last n seen ++ s ∷ []),
        take_last-append n seen (s ∷ []),
        record_all-from a n (some s) (a.add d (cost_of a s.cost)) (seen ++ s ∷ []) ss,
        append_assoc seen (s ∷ []) ss,
      )
      refl

-- After any run of responses, an observer that starts empty keeps the last of the snapshots as its
-- latest, the sum of all costs as its spent credits, and the last `limit` snapshots, oldest first, as
-- its history.
pub record_all_lem :
    (a : Arithmetic) (limit : ℕ) (ss : List Snapshot)
    → record_all a (create_rate_limit_observer a limit) ss ≡ record {
      history_limit = limit;
      latest = last_of none ss;
      spent = cost_total a (a.of_nat 0) ss;
      history = take_last limit ss;
    }
unfolding create_rate_limit_observer
record_all_lem a limit ss =
    ap
      (λ h.
        record_all a
          (record { history_limit = limit; latest = none; spent = (a.of_nat 0); history = h }) ss)
      (sym (drop-nil (0 - limit)))
    ∙ record_all-from a limit none (a.of_nat 0) [] ss
