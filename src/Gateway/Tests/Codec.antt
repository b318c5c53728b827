-- ===== src/Gateway/Tests/Codec.antt =====
-- A serialiser of the store's file that reads back what it wrote: every text behind its length.
use zegel.Common.{ℕ, zero, suc, ◌≡◌, refl, ap, Option, none, some, List, [], ◌∷◌, ◌++◌, length}
use zegel.Common.Text.{Text}
use zegel.Gateway.FileStore.{Codec, PersistedFile, PersistedRecord}
use zegel.Gateway.FileStore.Laws.{IsFaithful}

-- A way to write a value in front of a text and to read it off again.
record Part (A : Type 0) : Type 0 where
  put : A → Text → Text
  get : Text → Option (A × Text)
  law : (a : A) (rest : Text) → get (put a rest) ≡ some (a, rest)

abbrev map_part : {A B : Type 0} → (A → B) → Option (A × Text) → Option (B × Text)
map_part f none = none
map_part f (some (a, t)) = some (f a, t)

abbrev then_part :
    {A B : Type 0} → Option (A × Text) → (A → Text → Option (B × Text)) → Option (B × Text)
then_part none k = none
then_part (some (a, t)) k = k a t

abbrev number : Part ℕ
number = record {
  put = λ n t. n ∷ t;
  get = λ t. elim t [ [] ↦ none | n ∷ r ↦ some (n, r) ];
  law = λ n t. refl;
}

abbrev put_all : {A : Type 0} → Part A → List A → Text → Text
put_all p [] t = t
put_all p (a ∷ xs) t = p.put a (put_all p xs t)

abbrev get_all : {A : Type 0} → Part A → ℕ → Text → Option (List A × Text)
get_all p zero t = some ([], t)
get_all p (suc n) t = then_part (p.get t) (λ a r. map_part (◌∷◌ a) (get_all p n r))

get_all-put_all :
    {A : Type 0} (p : Part A) (xs : List A) (t : Text)
    → get_all p (length xs) (put_all p xs t) ≡ some (xs, t)
get_all-put_all p [] t = refl
get_all-put_all p (a ∷ xs) t = rw (p.law a (put_all p xs t), get_all-put_all p xs t) refl

abbrev list_part : {A : Type 0} → Part A → Part (List A)
list_part p = record {
  put = λ xs t. length xs ∷ put_all p xs t;
  get = λ t. elim t [ [] ↦ none | n ∷ r ↦ get_all p n r ];
  law = get_all-put_all p;
}

abbrev pair_part : {A B : Type 0} → Part A → Part B → Part (A × B)
pair_part p q = record {
  put = λ ab t. p.put ab.0 (q.put ab.1 t);
  get = λ t. then_part (p.get t) (λ a r. map_part (λ b. (a, b)) (q.get r));
  law = λ ab t. rw (p.law ab.0 (q.put ab.1 t), q.law ab.1 t) refl;
}

abbrev put_option : {A : Type 0} → Part A → Option A → Text → Text
put_option p none t = 0 ∷ t
put_option p (some a) t = 1 ∷ p.put a t

abbrev get_option : {A : Type 0} → Part A → Text → Option (Option A × Text)
get_option p [] = none
get_option p (zero ∷ r) = some (none, r)
get_option p (suc n ∷ r) = map_part some (p.get r)

get_option-put_option :
    {A : Type 0} (p : Part A) (o : Option A) (t : Text)
    → get_option p (put_option p o t) ≡ some (o, t)
get_option-put_option p none t = refl
get_option-put_option p (some a) t = rw (p.law a t) refl

abbrev option_part : {A : Type 0} → Part A → Part (Option A)
option_part p = record { put = put_option p; get = get_option p; law = get_option-put_option p }

abbrev text_part : Part Text
text_part = list_part number

abbrev record_part : Part PersistedRecord
record_part =
    let p =
      pair_part (option_part text_part)
        (pair_part text_part (pair_part number (pair_part text_part text_part))) in
    record {
      put = λ r t. p.put (r.name, (r.envelope, (r.published_at, (r.publisher, r.nonce)))) t;
      get = λ t.
          map_part
            (λ a. record {
              name = a.0;
              envelope = a.1.0;
              published_at = a.1.1.0;
              publisher = a.1.1.1.0;
              nonce = a.1.1.1.1;
            })
            (p.get t);
      law =
          λ r t. rw (p.law (r.name, (r.envelope, (r.published_at, (r.publisher, r.nonce)))) t) refl;
    }

abbrev file_part : Part PersistedFile
file_part =
    let p = pair_part text_part (
      pair_part (option_part (list_part (pair_part text_part record_part)))
        (option_part (list_part (pair_part text_part text_part)))) in
    record {
      put = λ f t. p.put (f.schema, (f.records, f.nonces)) t;
      get = λ t. map_part (λ a. record { schema = a.0; records = a.1.0; nonces = a.1.1 }) (p.get t);
      law = λ f t. rw (p.law (f.schema, (f.records, f.nonces)) t) refl;
    }

abbrev drop_last : Text → Text
drop_last [] = []
drop_last (x ∷ xs) = elim xs [ [] ↦ [] | y ∷ ys ↦ x ∷ drop_last xs ]

drop_last-append : (xs : Text) (x : ℕ) → drop_last (xs ++ x ∷ []) ≡ xs
drop_last-append [] x = refl
drop_last-append (y ∷ []) x = refl
drop_last-append (y ∷ z ∷ xs) x = ap (◌∷◌ y) (drop_last-append (z ∷ xs) x)

abbrev first_part : {A : Type 0} → Option (A × Text) → Option A
first_part none = none
first_part (some (a, t)) = some a

pub codec : Codec
codec = record {
  json_parse = λ t. first_part (file_part.get (drop_last t));
  json_stringify = λ f. file_part.put f [];
  big_int = λ t. elim t [ [] ↦ none | n ∷ r ↦ some n ];
  to_string = λ n. n ∷ [];
}

pub codec-IsFaithful : IsFaithful codec
unfolding codec
codec-IsFaithful = record {
  parses = λ f. rw (drop_last-append (file_part.put f []) 10, file_part.law f []) refl;
  reads = λ n. refl;
}
