-- ===== src/Seal/Tests/Keeper.antt =====
-- packages/seal/src/keeper.ts: a log of one receipt.
use zegel.Common.{
  ◌≡◌, ◌≢◌, refl, subst, true, none, some, [], ◌∷◌, ◌++◌, length, arith, if◌then◌else◌,
}
use zegel.Common.Text.{Text, codes, text_eq, to_lower_case, trim}
use zegel.Common.Result.{ok, err}
use zegel.Seal.Errors.{upstream}
use zegel.Seal.Pubkey.{grantee_public_key, normalise_grantees, normalise_from}
use zegel.Seal.Refs.{swarm_reference, history_address}
use zegel.Seal.Receipt.Laws.{IsNormal}
use zegel.Seal.Keeper.{ReceiptCodec, read_kept_receipts}
use zegel.Seal.Keeper.Laws.{IsJsonLine, log_of, read_kept_receipts_torn}
use zegel.Seal.Tests.Client.{hex64, public_key, receipt}

hex64_reference : swarm_reference hex64 ≡ ok hex64
unfolding swarm_reference zegel.Seal.Pubkey.strip_0x trim to_lower_case text_eq
hex64_reference = refl

hex64_history : history_address hex64 ≡ ok hex64
unfolding history_address zegel.Seal.Pubkey.strip_0x trim to_lower_case text_eq
hex64_history = refl

key_accepted : grantee_public_key (λ key. true) public_key ≡ ok public_key
unfolding grantee_public_key zegel.Seal.Pubkey.strip_0x trim to_lower_case text_eq
key_accepted = refl

some_injective : (p : Text) → some public_key ≡ some p → public_key ≡ p
some_injective p h = cc

receipt-IsNormal : IsNormal (λ key. true) receipt
receipt-IsNormal = record {
  reference = hex64_reference;
  history = hex64_history;
  publisher = λ p e.
      let same : public_key ≡ p = some_injective p e in
      subst (λ k. grantee_public_key (λ key. true) k ≡ ok k) same key_accepted;
}

-- A log of that receipt alone, whose JSON is `{}`.
abbrev codec : ReceiptCodec
codec = record {
  stringify = λ r. codes "{}";
  parse = λ text. if text_eq text (codes "{}") then some receipt else none;
}

receipt-IsJsonLine : IsJsonLine codec receipt
unfolding trim text_eq
receipt-IsJsonLine = record {
  one_line = refl;
  not_blank = λ e. absurd (omega (arith, e));
  parses = refl;
}

brace_is_not_blank : length (trim (codes "{")) ≢ 0
unfolding trim
brace_is_not_blank e = omega (arith, e)

brace_is_no_json : codec.parse (codes "{") ≡ none
unfolding text_eq
brace_is_no_json = refl

-- The second append wrote only the first brace.
read_kept_receipts_torn_example :
    read_kept_receipts codec (some (log_of codec (receipt ∷ []) ++ codes "{")) ≡ err (upstream none)
read_kept_receipts_torn_example =
    read_kept_receipts_torn codec (receipt ∷ []) (codes "{") (receipt-IsJsonLine, tt) refl
      brace_is_not_blank brace_is_no_json
