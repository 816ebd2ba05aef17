-- ===== src/Source/Utf8.antt =====
-- Go's unicode/utf8 and unicode/utf16 as internal/source and internal/dap use them. A string is the
-- list of its bytes.
use ferretd.Prelude.{
  ℕ, ◌+◌, ◌-◌, ◌*◌, ◌≤◌, ◌≡◌, ◌⊎◌, refl, Bool, ◌&&◌, ◌||◌, List, [], ◌∷◌, if◌then◌else◌, ltb, leb,
  ◌==◌, length, arith,
}

abbrev pub between : ℕ → ℕ → ℕ → Bool
between low high b = leb low b && leb b high

-- What the first byte says of a sequence: its length and the range of its second byte.
pub data Lead : Type 0 where
  ascii malformed : Lead
  leads2 : Lead
  leads3 leads4 : ℕ → ℕ → Lead

unfoldable pub lead : ℕ → Lead
lead b =
    if ltb b 128
    then ascii
    else if ltb b 194
    then malformed
    else if ltb b 224
    then leads2
    else if b == 224
    then leads3 160 191
    else if b == 237
    then leads3 128 159
    else if ltb b 240
    then leads3 128 191
    else if b == 240
    then leads4 144 191
    else if ltb b 244
    then leads4 128 191
    else if b == 244
    then leads4 128 143
    else malformed

abbrev pub rune_error : ℕ
rune_error = 65533

unfoldable pub sequence2 : ℕ → List ℕ → ℕ × ℕ
sequence2 a (b ∷ bs) =
    if between 128 191 b then ((a - 192) * 64 + (b - 128), 2) else (rune_error, 1)
sequence2 a _ = (rune_error, 1)

unfoldable pub sequence3 : ℕ → ℕ → ℕ → List ℕ → ℕ × ℕ
sequence3 low high a (b ∷ c ∷ bs) =
    if between low high b && between 128 191 c
    then ((a - 224) * 4096 + (b - 128) * 64 + (c - 128), 3)
    else (rune_error, 1)
sequence3 low high a _ = (rune_error, 1)

unfoldable pub sequence4 : ℕ → ℕ → ℕ → List ℕ → ℕ × ℕ
sequence4 low high a (b ∷ c ∷ d ∷ bs) =
    if between low high b && (between 128 191 c && between 128 191 d)
    then ((a - 240) * 262144 + (b - 128) * 4096 + (c - 128) * 64 + (d - 128), 4)
    else (rune_error, 1)
sequence4 low high a _ = (rune_error, 1)

-- `utf8.DecodeRuneInString`: the first rune and its width in bytes. A malformed sequence is the
-- replacement rune, one byte wide.
unfoldable pub decode : List ℕ → ℕ × ℕ
unfolding lead sequence2 sequence3 sequence4
decode [] = (rune_error, 0)
decode (a ∷ bs) = elim (lead a) [
  | ascii ↦ (a, 1)
  | malformed ↦ (rune_error, 1)
  | leads2 ↦ sequence2 a bs
  | leads3 low high ↦ sequence3 low high a bs
  | leads4 low high ↦ sequence4 low high a bs
]

-- `utf16.RuneLen`. Go has -1 for what is not a scalar value, here 0: `decode` gives only scalar values.
unfoldable pub rune_len : ℕ → ℕ
rune_len r =
    if ltb r 55296 || between 57344 65535 r then 1 else if between 65536 1114111 r then 2 else 0

-- `utf8.RuneStart`
abbrev pub rune_start : ℕ → Bool
rune_start b = ltb b 128 || leb 192 b

pub record Decoded (bytes : List ℕ) (p : ℕ × ℕ) : Type 0 where
  pub scalar : 1 ≤ rune_len p.0
  pub wide : 1 ≤ p.1
  pub within : p.1 ≤ length bytes

sequence2-Decoded : (a : ℕ) (bs : List ℕ) → lead a ≡ leads2 → Decoded (a ∷ bs) (sequence2 a bs)
unfolding sequence2 lead rune_len
sequence2-Decoded a [] e = record { scalar = omega arith; wide = omega arith; within = omega arith }
sequence2-Decoded a (b ∷ bs) e = record {
  scalar = ground arith;
  wide = ground arith;
  within = ground arith;
}

-- The lead bytes of three-byte sequences leave out the surrogates.
lead3_range :
    (a low high : ℕ)
    → lead a ≡ leads3 low high
    → ((a ≤ 236) × (224 ≤ a) × (high ≤ 191) × (128 ≤ low))
      ⊎ ((a ≡ 237) × (high ≤ 159) × (128 ≤ low))
      ⊎ ((238 ≤ a) × (a ≤ 239) × (high ≤ 191) × (128 ≤ low))
unfolding lead
lead3_range a low high e = ground arith

sequence3-Decoded :
    (low high a : ℕ) (bs : List ℕ)
    → lead a ≡ leads3 low high
    → Decoded (a ∷ bs) (sequence3 low high a bs)
unfolding sequence3 rune_len
sequence3-Decoded low high a [] e = record {
  scalar = omega arith;
  wide = omega arith;
  within = omega arith;
}
sequence3-Decoded low high a (b ∷ []) e = record {
  scalar = omega arith;
  wide = omega arith;
  within = omega arith;
}
sequence3-Decoded low high a (b ∷ c ∷ bs) e =
    let range = lead3_range a low high e in
    record { scalar = ground (arith, range); wide = ground arith; within = ground arith }

lead4_range :
    (a low high : ℕ)
    → lead a ≡ leads4 low high
    → ((a ≡ 240) × (144 ≤ low) × (high ≤ 191))
      ⊎ ((241 ≤ a) × (a ≤ 243) × (high ≤ 191) × (128 ≤ low))
      ⊎ ((a ≡ 244) × (high ≤ 143) × (128 ≤ low))
unfolding lead
lead4_range a low high e = ground arith

sequence4-Decoded :
    (low high a : ℕ) (bs : List ℕ)
    → lead a ≡ leads4 low high
    → Decoded (a ∷ bs) (sequence4 low high a bs)
unfolding sequence4 rune_len
sequence4-Decoded low high a [] e = record {
  scalar = omega arith;
  wide = omega arith;
  within = omega arith;
}
sequence4-Decoded low high a (b ∷ []) e = record {
  scalar = omega arith;
  wide = omega arith;
  within = omega arith;
}
sequence4-Decoded low high a (b ∷ c ∷ []) e = record {
  scalar = omega arith;
  wide = omega arith;
  within = omega arith;
}
sequence4-Decoded low high a (b ∷ c ∷ d ∷ bs) e =
    let range = lead4_range a low high e in
    record { scalar = ground (arith, range); wide = ground arith; within = ground arith }

decode_by_lead : (a : ℕ) (bs : List ℕ) (l : Lead) → lead a ≡ l → Decoded (a ∷ bs) (decode (a ∷ bs))
unfolding decode lead rune_len
decode_by_lead a bs ascii e = record {
  scalar = ground arith;
  wide = ground arith;
  within = ground arith;
}
decode_by_lead a bs malformed e = record {
  scalar = ground arith;
  wide = ground arith;
  within = ground arith;
}
decode_by_lead a bs leads2 e = rw (e, decode) (sequence2-Decoded a bs e)
decode_by_lead a bs (leads3 low high) e = rw (e, decode) (sequence3-Decoded low high a bs e)
decode_by_lead a bs (leads4 low high) e = rw (e, decode) (sequence4-Decoded low high a bs e)

-- Whatever the bytes are, a scalar value is decoded from at least one of them.
pub decode-Decoded : (a : ℕ) (bs : List ℕ) → Decoded (a ∷ bs) (decode (a ∷ bs))
decode-Decoded a bs = decode_by_lead a bs (lead a) refl
