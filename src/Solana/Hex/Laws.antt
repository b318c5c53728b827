-- ===== src/Solana/Hex/Laws.antt =====
-- solana/src/hex.ts: comparison and normal forms.
use zegel.Common.{◌≡◌, ◌↔◌, true, some, arith}
use zegel.Common.Bits.{differences_iff}
use zegel.Common.Text.{Text, text_eq, to_lower_case, to_lower_case_idem}
use zegel.Solana.Hex.{strip_0x, normalize_hex32, hex_equal}

-- The comparison that accumulates the differing bits of two texts is true exactly if the texts,
-- without their prefix 0x and in lower case, are the same.
pub hex_equal_iff :
    (a b : Text)
    → (hex_equal a b ≡ true) ↔ (to_lower_case (strip_0x a) ≡ to_lower_case (strip_0x b))
unfolding hex_equal
hex_equal_iff a b =
    let x = to_lower_case (strip_0x a) in
    let y = to_lower_case (strip_0x b) in ground (arith, differences_iff 0 x y)

-- Two identifiers that are accepted are compared as equal exactly if their normal forms are the
-- same.
hex_equal-normalize_hex32 :
    (a b m n : Text)
    → normalize_hex32 a ≡ some m
    → normalize_hex32 b ≡ some n
    → (hex_equal a b ≡ true) ↔ (m ≡ n)
unfolding normalize_hex32
hex_equal-normalize_hex32 a b m n ha hb = ground (arith, hex_equal_iff a b)

hex_equal-normalize : (a m : Text) → normalize_hex32 a ≡ some m → hex_equal a m ≡ true
unfolding normalize_hex32 strip_0x text_eq
hex_equal-normalize a m h = ground (arith, hex_equal_iff a m, to_lower_case_idem (strip_0x a))
