-- ===== src/Evidence/Verify/Stated.antt =====
-- packages/evidence/src/verify.ts: the claims stated and those derived, name by name.
use zegel.Common.{
  ◌≡◌, ◌≢◌, refl, sym, ap, subst, ◌∙◌, ◌↔◌, Bool, true, false, Option, none, some, List, [], ◌∷◌,
  All, arith, inl, inr, Option-cases, Bool-cases, if◌then◌else◌,
}
use zegel.Common.Text.{Text, text_eq, text_eq_iff, text_eq_refl, text_eq_symm}
use zegel.Common.JsMap.{get, set, lacks, HasDistinctKeys, get-set, set-HasDistinctKeys}
use zegel.Common.Result.{ok}
use zegel.Sdk.Canonical.{Value, string, boolean, array, canonicalize}
use zegel.Evidence.Bundle.{Claim}
use zegel.Evidence.Derivation.{op_text, unit_text, threshold_value}
use zegel.Evidence.Verify.{
  Checker, claims_from, claims_by_id, actual_value, index_items, field_value,
}
use zegel.Evidence.Verify.Laws.{All-mono, AgreesWith}

-- The last claim of a name, if there is one.
abbrev pub last_or : Option Claim → Option Claim → Option Claim
last_or none o = o
last_or (some c) o = some c

unfoldable pub last_with : Text → List Claim → Option Claim
last_with id [] = none
last_with id (c ∷ cs) = last_or (last_with id cs) (if text_eq c.id id then some c else none)

-- Two values with the same canonical form.
abbrev pub SameForm : Checker → Value → Value → Type 0
SameForm k x y = (t : Text) × (canonicalize k.writer x ≡ ok t) × (canonicalize k.writer y ≡ ok t)

-- Two claims whose seven fields have the same canonical forms.
pub record SameClaim (k : Checker) (x y : Claim) : Type 0 where
  pub statement : SameForm k (string x.statement) (string y.statement)
  pub op : SameForm k (string (op_text x.op)) (string (op_text y.op))
  pub unit : SameForm k (string (unit_text x.unit)) (string (unit_text y.unit))
  pub passed : SameForm k (boolean x.passed) (boolean y.passed)
  pub actual :
      SameForm k (actual_value k.runtime.numbers x.actual) (actual_value k.runtime.numbers y.actual)
  pub threshold :
      SameForm k
        (threshold_value k.runtime.numbers x.threshold)
        (threshold_value k.runtime.numbers y.threshold)
  pub sources :
      SameForm k
        (array (index_items k.runtime.numbers x.sources))
        (array (index_items k.runtime.numbers y.sources))

-- Both are missing, or both are there and the same.
abbrev pub SameStated : Checker → Option Claim → Option Claim → Type 0
SameStated k none none = Unit {0}
SameStated k (some x) (some y) = SameClaim k x y
SameStated k _ _ = ⊥

pub AgreesWith-iff : (k : Checker) (x y : Claim) → AgreesWith k y (some x) ↔ SameClaim k x y
unfolding field_value
AgreesWith-iff k x y = (
  (λ (a, (b, (c, (d, (e, (f, (g, t))))))). record {
    statement = a;
    op = b;
    unit = c;
    passed = d;
    actual = e;
    threshold = f;
    sources = g;
  }),
  (λ h. (h.statement, (h.op, (h.unit, (h.passed, (h.actual, (h.threshold, (h.sources, tt)))))))),
)

last_or-if :
    (o : Option Claim) (t : Bool) (c : Claim) (e : Option Claim)
    → last_or o (if t then some c else e) ≡ last_or (last_or o (if t then some c else none)) e
last_or-if none true c e = refl
last_or-if none false c e = refl
last_or-if (some d) t c e = refl

last_or-none : (o : Option Claim) → last_or o none ≡ o
last_or-none none = refl
last_or-none (some c) = refl

some-inj : (x y : Claim) → Path (Option Claim) (some x) (some y) → x ≡ y
some-inj x y h = cc

get-claims_from :
    (id : Text) (cs : List Claim) (m : List (Text × Claim))
    → get id (claims_from cs m) ≡ last_or (last_with id cs) (get id m)
unfolding claims_from last_with
get-claims_from id [] m = refl
get-claims_from id (c ∷ cs) m =
    get-claims_from id cs (set c.id c m)
    ∙ ap (last_or (last_with id cs)) (get-set id c.id c m)
    ∙ last_or-if (last_with id cs) (text_eq c.id id) c (get id m)

claims_from-HasDistinctKeys :
    (cs : List Claim) (m : List (Text × Claim))
    → HasDistinctKeys m
    → HasDistinctKeys (claims_from cs m)
unfolding claims_from
claims_from-HasDistinctKeys [] m h = h
claims_from-HasDistinctKeys (c ∷ cs) m h =
    claims_from-HasDistinctKeys cs (set c.id c m) (set-HasDistinctKeys c.id c m h)

get-claims_by_id : (id : Text) (cs : List Claim) → get id (claims_by_id cs) ≡ last_with id cs
unfolding get
get-claims_by_id id cs = get-claims_from id cs [] ∙ last_or-none (last_with id cs)

-- What a map of distinct keys finds under the key of an entry.
found_past :
    (k : Text) (c : Claim) (m n : List (Text × Claim))
    → lacks k n ≡ true
    → All (λ e. get e.0 m ≡ some e.1) n
    → All (λ e. get e.0 ((k, c) ∷ m) ≡ some e.1) n
unfolding get
found_past k c m [] free h = tt
found_past k c m ((j, d) ∷ n) free (p, h) =
    (ground (arith, text_eq_symm j k), found_past k c m n (ground arith) h)

found_again : (m : List (Text × Claim)) → HasDistinctKeys m → All (λ e. get e.0 m ≡ some e.1) m
unfolding get
found_again [] h = tt
found_again ((k, c) ∷ m) (free, h) =
    (rw (text_eq_refl k) refl, found_past k c m m free (found_again m h))

present_iff : (id : Text) (m : List (Text × Claim)) → (lacks id m ≡ true) ↔ (get id m ≡ none)
unfolding get
present_iff id [] = (λ h. refl, λ h. refl)
present_iff id ((j, c) ∷ m) = ground (arith, present_iff id m)

-- What holds of every entry holds of what is found under a key.
All-get :
    (P : Text → Claim → Type 0) (m : List (Text × Claim))
    → All (λ e. P e.0 e.1) m
    → (id : Text) (c : Claim) → get id m ≡ some c
    → P id c
unfolding get
All-get P [] h id c e = absurd cc
All-get P ((j, d) ∷ m) (p, h) id c e = elim (Bool-cases (text_eq j id)) [
  | inl t ↦
      let same : j ≡ id = (text_eq_iff j id).0 t in
      let value : d ≡ c = ground arith in subst (P id) value (subst (λ x. P x d) same p)
  | inr t ↦ All-get P m h id c (ground arith)
]

get-All :
    (P : Text → Claim → Type 0) (m : List (Text × Claim))
    → HasDistinctKeys m
    → ((id : Text) (c : Claim) → get id m ≡ some c → P id c)
    → All (λ e. P e.0 e.1) m
get-All P m d h =
    All-mono (λ e. get e.0 m ≡ some e.1) (λ e. P e.0 e.1) m (λ e g. h e.0 e.1 g) (found_again m d)

-- Nothing that one list of claims has is missing in the other, and what both have agrees.
pub record HasEqualMaps (k : Checker) (stated derived : List Claim) : Type 0 where
  pub none_absent : All (λ e. lacks e.0 (claims_by_id stated) ≡ false) (claims_by_id derived)
  pub none_added : All (λ e. lacks e.0 (claims_by_id derived) ≡ false) (claims_by_id stated)
  pub equal : All (λ e. AgreesWith k e.1 (get e.0 (claims_by_id stated))) (claims_by_id derived)

SameStated-of_cases :
    (k : Checker) (o e : Option Claim)
    → ((c : Claim) → e ≡ some c → (d : Claim) × (o ≡ some d))
    → ((c : Claim) → o ≡ some c → (d : Claim) × (e ≡ some d))
    → ((c : Claim) → e ≡ some c → AgreesWith k c o)
    → SameStated k o e
SameStated-of_cases k none none f g h = tt
SameStated-of_cases k none (some c) f g h = let q = (f c refl).1 in absurd cc
SameStated-of_cases k (some c) none f g h = let q = (g c refl).1 in absurd cc
SameStated-of_cases k (some x) (some y) f g h = (AgreesWith-iff k x y).0 (h y refl)

found_where_present :
    (id : Text) (cs : List Claim)
    → lacks id (claims_by_id cs) ≡ false
    → (d : Claim) × (last_with id cs ≡ some d)
found_where_present id cs h = elim (Option-cases (last_with id cs)) [
  | inr x ↦ x
  | inl n ↦ let t = (present_iff id (claims_by_id cs)).1 (get-claims_by_id id cs ∙ n) in absurd cc
]

HasEqualMaps-SameStated :
    (k : Checker) (stated derived : List Claim)
    → HasEqualMaps k stated derived
    → (id : Text) → SameStated k (last_with id stated) (last_with id derived)
HasEqualMaps-SameStated k stated derived m id =
    let s = claims_by_id stated in
    let d = claims_by_id derived in
    SameStated-of_cases k (last_with id stated) (last_with id derived)
      (λ c e.
        found_where_present id stated (
          All-get (λ j x. lacks j s ≡ false) d m.none_absent id c
            (get-claims_by_id id derived ∙ e)))
      (λ c e.
        found_where_present id derived
          (All-get (λ j x. lacks j d ≡ false) s m.none_added id c (get-claims_by_id id stated ∙ e)))
      (λ c e. subst (AgreesWith k c) (get-claims_by_id id stated) (
        All-get (λ j x. AgreesWith k x (get j s)) d m.equal id c (get-claims_by_id id derived ∙ e)))

-- What is the same is there on both sides, and agrees.
SameStated-parts :
    (k : Checker) (o e : Option Claim) (c : Claim)
    → SameStated k o e
    → e ≡ some c
    → (o ≢ none) × AgreesWith k c o
SameStated-parts k none none c h e = absurd cc
SameStated-parts k none (some y) c h e = absurd h
SameStated-parts k (some x) none c h e = absurd h
SameStated-parts k (some x) (some y) c h e =
    ((λ n. cc), (AgreesWith-iff k x c).1 (subst (SameClaim k x) (some-inj y c e) h))

SameStated-symm :
    (k : Checker) (o e : Option Claim) (c : Claim) → SameStated k o e → o ≡ some c → e ≢ none
SameStated-symm k none none c h e n = absurd cc
SameStated-symm k none (some y) c h e n = absurd h
SameStated-symm k (some x) none c h e n = absurd h
SameStated-symm k (some x) (some y) c h e n = cc

not_lacking :
    (id : Text) (cs : List Claim) → last_with id cs ≢ none → lacks id (claims_by_id cs) ≡ false
not_lacking id cs h = elim (Bool-cases (lacks id (claims_by_id cs))) [
  | inr e ↦ e
  | inl e ↦ absurd (h (sym (get-claims_by_id id cs) ∙ (present_iff id (claims_by_id cs)).0 e))
]

SameStated-HasEqualMaps :
    (k : Checker) (stated derived : List Claim)
    → ((id : Text) → SameStated k (last_with id stated) (last_with id derived))
    → HasEqualMaps k stated derived
SameStated-HasEqualMaps k stated derived h =
    let s = claims_by_id stated in
    let d = claims_by_id derived in
    let parts : (id : Text) (c : Claim)
        → get id d ≡ some c
        → (last_with id stated ≢ none) × AgreesWith k c (last_with id stated) =
      λ id c e.
        SameStated-parts k (last_with id stated) (last_with id derived) c (h id)
          (sym (get-claims_by_id id derived) ∙ e) in
    record {
      none_absent =
          get-All (λ j x. lacks j s ≡ false) d (claims_from-HasDistinctKeys derived [] tt)
            (λ id c e. not_lacking id stated (parts id c e).0);
      none_added =
          get-All (λ j x. lacks j d ≡ false) s (claims_from-HasDistinctKeys stated [] tt)
            (λ id c e. not_lacking id derived (
              SameStated-symm k (last_with id stated) (last_with id derived) c (h id)
                (sym (get-claims_by_id id stated) ∙ e)));
      equal =
          get-All (λ j x. AgreesWith k x (get j s)) d (claims_from-HasDistinctKeys derived [] tt)
            (λ id c e. subst (AgreesWith k c) (sym (get-claims_by_id id stated)) (parts id c e).1);
    }

-- The maps of two lists of claims are compared as equal exactly if, under each name, the last
-- claims of the two are the same.
pub HasEqualMaps-iff :
    (k : Checker) (stated derived : List Claim)
    → HasEqualMaps k stated derived
      ↔ ((id : Text) → SameStated k (last_with id stated) (last_with id derived))
HasEqualMaps-iff k stated derived =
    (HasEqualMaps-SameStated k stated derived, SameStated-HasEqualMaps k stated derived)
