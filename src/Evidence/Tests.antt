-- ===== src/Evidence/Tests.antt =====
-- packages/evidence/src: the parameters at small values, and what the package does with them.
mod Calls
mod Checked
mod Derived
use zegel.Common.{
  ℕ, zero, suc, ◌+◌, ◌-◌, ◌*◌, ◌/◌, ◌≡◌, refl, Bool, true, false, Option, none, some, List, [], ◌∷◌,
  ltb, leb, ◌==◌, ◌++◌, length,
}
use zegel.Common.Text.{Text, codes, text_eq, to_lower_case, trim}
use zegel.Common.JsMap.{get}
use zegel.Sdk.Canonical.{Value, null, Writer, Hashing, text_ltb}
use zegel.Evidence.Numbers.{Arithmetic}
use zegel.Evidence.Chains.{Spelling, normalize_chain, lower_chain, starts_with, is_digits}
use zegel.Evidence.Cycles
use zegel.Evidence.Sources.{date_number, number_field, Runtime, PositionHistoryEntry}

-- Whole numbers stand for doubles, the length of a text for its instant.
abbrev pub whole_numbers : Arithmetic
whole_numbers = record {
  of_nat = λ n. n;
  add = λ a b. a + b;
  sub = λ a b. a - b;
  mul = λ a b. a * b;
  div = λ a b. a / b;
  nearest = λ n. n;
  lt = λ a b. ltb a b;
  le = λ a b. leb a b;
  same = λ a b. a == b;
  is_finite = λ n. true;
  number_of = λ t. some (length t);
  date_parse = λ t. length t;
  number_text = λ n. n ∷ [];
  round_share = λ r n. n / 2;
  locale_lt = λ s t. text_ltb s t;
}

abbrev pub plain_spelling : Spelling
plain_spelling = record { decimal = λ t. t; inherited = λ t. none }

-- A trade that was bought at instant 1 and sold at instant 3, for a gain of 7.
abbrev pub one_trade : PositionHistoryEntry
one_trade = record {
  token = some (record {
    address = some (codes "0xAB");
    chain_id = some (codes "evm:1");
    symbol = some (codes "T");
  });
  cycle = some (record {
    is_open = false;
    entry_date = some (date_number 1);
    exit_date = some (date_number 3);
    volume_buy_usd = some (number_field 10);
    volume_sell_usd = some (number_field 17);
    realized_pnl_usd = some (number_field 7);
    fees_usd = none;
  });
}

-- Every body holds that trade.
abbrev pub one_trade_runtime : Runtime
one_trade_runtime = record {
  numbers = whole_numbers;
  spelling = plain_spelling;
  readers = record {
    history = λ v. some (one_trade ∷ []);
    trades = λ v. none;
    security = λ v. none;
    funding_date = λ v. some (date_number 1);
  };
}

abbrev pub plain_writer : Writer
plain_writer = record { string_json = λ t. t; number_json = λ n. n ∷ []; bigint_text = λ n. [] }

abbrev pub plain_hashing : Hashing
plain_hashing = record { utf8_to_bytes = λ t. t; sha256 = λ bs. bs; bytes_to_hex = λ bs. [] }

solana_spellings :
    normalize_chain plain_spelling (some (codes " Solana:mainnet ")) ≡ some (codes "solana")
unfolding normalize_chain lower_chain starts_with text_eq to_lower_case trim
solana_spellings = refl

display_spelling : normalize_chain plain_spelling (some (codes "Base")) ≡ some (codes "evm:8453")
unfolding normalize_chain lower_chain starts_with is_digits text_eq to_lower_case trim get
display_spelling = refl
