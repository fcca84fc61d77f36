-- ===== src/Hybrid/RoundTrip.antt =====
-- core/quantum_layer/crypto_agility/hybrid_schemes.py: keys that are written out are read back.
use qervan_ai.Common.{
  &&_iff, ℕ, ◌<◌, ◌/◌, ◌%◌, ◌+◌, ◌*◌, true, List, [], ◌∷◌, ok, ◌≡◌, refl, All, is_ascii, ltb, arith,
  Text, ◌>>=◌, ap, ◌∙◌,
}
use qervan_ai.Hybrid.{serialize_keys, deserialize_keys, Bytes}
use qervan_ai.Hybrid.Base64.{
  digit, symbol, sextet, encode, decode, decode_from, utf8, prepend, first, second, third, fourth,
}

abbrev pub IsByte : ℕ → Type 0
IsByte b = b < 256

symbol-digit : (v : ℕ) → v < 64 → symbol (digit v) ≡ sextet v
symbol-digit v h = ground (arith, h)

module _ (c : ℕ) (cs : List ℕ) (v : ℕ) (is_v : symbol c ≡ sextet v) (left : ℕ) where
  decode_from-first : decode_from first left 0 (c ∷ cs) ≡ decode_from second v 0 cs
  unfolding decode_from
  decode_from-first = rw (is_v, decode_from) refl

  decode_from-second :
      decode_from second left 0 (c ∷ cs)
      ≡ prepend (left * 4 + v / 16) (decode_from third (v % 16) 0 cs)
  unfolding decode_from
  decode_from-second = rw (is_v, decode_from) refl

  decode_from-third :
      decode_from third left 0 (c ∷ cs)
      ≡ prepend (left * 16 + v / 4) (decode_from fourth (v % 4) 0 cs)
  unfolding decode_from
  decode_from-third = rw (is_v, decode_from) refl

  decode_from-fourth :
      decode_from fourth left 0 (c ∷ cs) ≡ prepend (left * 64 + v) (decode_from first 0 0 cs)
  unfolding decode_from
  decode_from-fourth = rw (is_v, decode_from) refl

module _ (a b : ℕ) (ha : a < 64) (hb : b < 64) (cs : List ℕ) where
  decode_from-two :
      decode_from first 0 0 (digit a ∷ digit b ∷ cs)
      ≡ prepend (a * 4 + b / 16) (decode_from third (b % 16) 0 cs)
  decode_from-two =
      decode_from-first (digit a) (digit b ∷ cs) a (symbol-digit a ha) 0
      ∙ decode_from-second (digit b) cs b (symbol-digit b hb) a

  module _ (c : ℕ) (hc : c < 64) where
    decode_from-three :
        decode_from first 0 0 (digit a ∷ digit b ∷ digit c ∷ cs)
        ≡ prepend (a * 4 + b / 16) (prepend (b % 16 * 16 + c / 4) (decode_from fourth (c % 4) 0 cs))
    decode_from-three =
        decode_from-first (digit a) (digit b ∷ digit c ∷ cs) a (symbol-digit a ha) 0
        ∙ (decode_from-second (digit b) (digit c ∷ cs) b (symbol-digit b hb) a
            ∙ ap (prepend (a * 4 + b / 16))
                (decode_from-third (digit c) cs c (symbol-digit c hc) (b % 16)))

decode_from-four :
    (a b c d : ℕ)
    → a < 64
    → b < 64
    → c < 64
    → d < 64
    → (cs : List ℕ)
    → decode_from first 0 0 (digit a ∷ digit b ∷ digit c ∷ digit d ∷ cs)
      ≡ prepend
          (a * 4 + b / 16)
          (prepend (b % 16 * 16 + c / 4) (prepend (c % 4 * 64 + d) (decode_from first 0 0 cs)))
decode_from-four a b c d ha hb hc hd cs =
    decode_from-three a b ha hb (digit d ∷ cs) c hc
    ∙ ap (λ r. prepend (a * 4 + b / 16) (prepend (b % 16 * 16 + c / 4) r))
        (decode_from-fourth (digit d) cs d (symbol-digit d hd) (c % 4))

padded_two : (left : ℕ) → decode_from third left 0 (b'=' ∷ b'=' ∷ []) ≡ ok []
unfolding decode_from
padded_two left = refl

padded_one : (left : ℕ) → decode_from fourth left 0 (b'=' ∷ []) ≡ ok []
unfolding decode_from
padded_one left = refl

-- The eight bits of a byte, put together again.
one_byte : (x : ℕ) → x < 256 → x / 4 * 4 + x % 4 * 16 / 16 ≡ x
one_byte x h = omega (arith, h)

first_byte : (x y : ℕ) → y < 256 → x / 4 * 4 + (x % 4 * 16 + y / 16) / 16 ≡ x
first_byte x y h = omega (arith, h)

second_byte :
    (x y z : ℕ)
    → z < 256
    → y < 256
    → (x % 4 * 16 + y / 16) % 16 * 16 + (y % 16 * 4 + z / 64) / 4 ≡ y
second_byte x y z h k = omega (arith, h, k)

third_byte : (y z : ℕ) → z < 256 → (y % 16 * 4 + z / 64) % 4 * 64 + z % 64 ≡ z
third_byte y z h = omega (arith, h)

last_byte : (x y : ℕ) → y < 256 → (x % 4 * 16 + y / 16) % 16 * 16 + y % 16 * 4 / 4 ≡ y
last_byte x y h = omega (arith, h)

decode_from-nil : decode_from first 0 0 [] ≡ ok []
unfolding decode_from
decode_from-nil = refl

decode_from-encode : (bs : List ℕ) → All IsByte bs → decode_from first 0 0 (encode bs) ≡ ok bs
unfolding encode
decode_from-encode [] h = decode_from-nil
decode_from-encode (x ∷ []) (hx, _) =
    decode_from-two (x / 4) (x % 4 * 16) (omega (arith, hx)) (omega (arith, hx)) (b'=' ∷ b'=' ∷ [])
    ∙ rw (padded_two (x % 4 * 16 % 16), one_byte x hx) refl
decode_from-encode (x ∷ y ∷ []) (hx, (hy, _)) =
    decode_from-three (x / 4) (x % 4 * 16 + y / 16) (omega (arith, hx)) (omega (arith, hx, hy))
      (b'=' ∷ []) (y % 16 * 4) (omega (arith, hy))
    ∙ rw (padded_one (y % 16 * 4 % 4), first_byte x y hy, last_byte x y hy) refl
decode_from-encode (x ∷ y ∷ z ∷ rest) (hx, (hy, (hz, h))) =
    decode_from-four (x / 4) (x % 4 * 16 + y / 16) (y % 16 * 4 + z / 64) (z % 64)
      (omega (arith, hx)) (omega (arith, hx, hy)) (omega (arith, hy, hz)) (omega arith)
      (encode rest)
    ∙ rw (decode_from-encode rest h, first_byte x y hy, second_byte x y z hz hy, third_byte y z hz)
        refl

digit_ascii : (v : ℕ) → v < 64 → ltb (digit v) 128 ≡ true
digit_ascii v h = ground (arith, h)

utf8-ascii : (t : Text) → is_ascii t ≡ true → utf8 t ≡ ok t
unfolding utf8
utf8-ascii [] h = refl
utf8-ascii (c ∷ cs) h =
    let (here, later) = (&&_iff (ltb c 128) (is_ascii cs)).0 h in
    rw (utf8-ascii cs later, utf8) (ground (arith, here))

four_ascii :
    (a b c d : ℕ) (t : Text)
    → a < 64
    → b < 64
    → ltb c 128 ≡ true
    → ltb d 128 ≡ true
    → is_ascii t ≡ true
    → is_ascii (digit a ∷ digit b ∷ c ∷ d ∷ t) ≡ true
four_ascii a b c d t ha hb hc hd h =
    (&&_iff (ltb (digit a) 128) (is_ascii (digit b ∷ c ∷ d ∷ t))).1 (
      digit_ascii a ha,
      (&&_iff (ltb (digit b) 128) (is_ascii (c ∷ d ∷ t))).1 (
        digit_ascii b hb,
        (&&_iff (ltb c 128) (is_ascii (d ∷ t))).1 (hc, (&&_iff (ltb d 128) (is_ascii t)).1 (hd, h)),
      ),
    )

encode-ascii : (bs : List ℕ) → All IsByte bs → is_ascii (encode bs) ≡ true
unfolding encode
encode-ascii [] h = refl
encode-ascii (x ∷ []) (hx, _) =
    four_ascii (x / 4) (x % 4 * 16) b'=' b'=' [] (omega (arith, hx)) (omega (arith, hx)) refl refl
      refl
encode-ascii (x ∷ y ∷ []) (hx, (hy, _)) =
    four_ascii (x / 4) (x % 4 * 16 + y / 16) (digit (y % 16 * 4)) b'=' [] (omega (arith, hx))
      (omega (arith, hx, hy)) (digit_ascii (y % 16 * 4) (omega (arith, hy))) refl refl
encode-ascii (x ∷ y ∷ z ∷ rest) (hx, (hy, (hz, h))) =
    four_ascii (x / 4) (x % 4 * 16 + y / 16) (digit (y % 16 * 4 + z / 64)) (digit (z % 64))
      (encode rest) (omega (arith, hx)) (omega (arith, hx, hy))
      (digit_ascii (y % 16 * 4 + z / 64) (omega (arith, hy, hz)))
      (digit_ascii (z % 64) (omega arith)) (encode-ascii rest h)

decode-encode : (bs : List ℕ) → All IsByte bs → (utf8 (encode bs) >>= decode) ≡ ok bs
unfolding decode
decode-encode bs h =
    ap (λ r. r >>= decode) (utf8-ascii (encode bs) (encode-ascii bs h)) ∙ decode_from-encode bs h

-- Two keys that are strings of bytes are read back from what they are serialised to.
pub deserialize_keys-serialize_keys :
    (priv public : Bytes)
    → All IsByte priv
    → All IsByte public
    → deserialize_keys (serialize_keys priv public).0 (serialize_keys priv public).1
      ≡ ok (priv, public)
unfolding deserialize_keys serialize_keys
deserialize_keys-serialize_keys priv public h k =
    ap (λ r. r >>= λ a. (utf8 (encode public) >>= decode) >>= λ b. ok (a, b)) (decode-encode priv h)
    ∙ ap (λ r. r >>= λ b. ok (priv, b)) (decode-encode public k)
