-- ===== src/Hybrid/Base64.antt =====
-- The standard library's base64, as the keys' serialisation in
-- core/quantum_layer/crypto_agility/hybrid_schemes.py uses it: b64encode, and b64decode without `validate`,
-- which skips the characters outside the alphabet. And the bytes of a text in UTF-8.
use qervan_ai.Common.{
  ℕ, zero, suc, ◌+◌, ◌-◌, ◌*◌, ◌/◌, ◌%◌, List, [], ◌∷◌, Result, ok, err, if◌then◌else◌, ltb, leb,
  ◌==◌, Text, ◌&&◌,
}

pub data DecodeError : Type 0 where
  incorrect_padding invalid_length surrogate : DecodeError

-- The character of a number below 64.
abbrev pub digit : ℕ → ℕ
digit v =
    if ltb v 26
    then v + 65
    else if ltb v 52
    then v + 71
    else if ltb v 62
    then v - 4
    else if v == 62
    then b'+'
    else b'/'

-- What a character is to the decoder: padding, one that it skips, or the number of one of the alphabet.
pub data Symbol : Type 0 where
  pad other : Symbol
  sextet : ℕ → Symbol

abbrev pub symbol : ℕ → Symbol
symbol c =
    if c == b'='
    then pad
    else if leb b'A' c && leb c b'Z'
    then sextet (c - 65)
    else if leb b'a' c && leb c b'z'
    then sextet (c - 71)
    else if leb b'0' c && leb c b'9'
    then sextet (c + 4)
    else if c == b'+'
    then sextet 62
    else if c == b'/'
    then sextet 63
    else other

-- b64encode
unfoldable pub encode : List ℕ → Text
encode [] = []
encode (x ∷ []) = digit (x / 4) ∷ digit (x % 4 * 16) ∷ b'=' ∷ b'=' ∷ []
encode (x ∷ y ∷ []) = digit (x / 4) ∷ digit (x % 4 * 16 + y / 16) ∷ digit (y % 16 * 4) ∷ b'=' ∷ []
encode (x ∷ y ∷ z ∷ rest) =
    digit (x / 4)
    ∷ digit (x % 4 * 16 + y / 16)
    ∷ digit (y % 16 * 4 + z / 64)
    ∷ digit (z % 64)
    ∷ encode rest

-- Where the decoder stands in a group of four characters.
pub data Place : Type 0 where
  first second third fourth : Place

abbrev pub prepend : ℕ → Result DecodeError (List ℕ) → Result DecodeError (List ℕ)
prepend b (ok bs) = ok (b ∷ bs)
prepend b (err e) = err e

-- The decoder's loop: `left` are the bits that the last character has left over, `pads` the padding seen
-- since the last character of the alphabet. A pad that completes its group ends the input.
unfoldable pub decode_from : Place → (left pads : ℕ) → List ℕ → Result DecodeError (List ℕ)
decode_from first left pads [] = ok []
decode_from second left pads [] = err invalid_length
decode_from third left pads [] = err incorrect_padding
decode_from fourth left pads [] = err incorrect_padding
decode_from first left pads (c ∷ cs) = elim (symbol c) [
  | pad ↦ decode_from first left pads cs
  | other ↦ decode_from first left pads cs
  | sextet v ↦ decode_from second v 0 cs
]
decode_from second left pads (c ∷ cs) = elim (symbol c) [
  | pad ↦ decode_from second left pads cs
  | other ↦ decode_from second left pads cs
  | sextet v ↦ prepend (left * 4 + v / 16) (decode_from third (v % 16) 0 cs)
]
decode_from third left zero (c ∷ cs) = elim (symbol c) [
  | pad ↦ decode_from third left 1 cs
  | other ↦ decode_from third left zero cs
  | sextet v ↦ prepend (left * 16 + v / 4) (decode_from fourth (v % 4) 0 cs)
]
decode_from third left (suc pads) (c ∷ cs) = elim (symbol c) [
  | pad ↦ ok []
  | other ↦ decode_from third left (suc pads) cs
  | sextet v ↦ prepend (left * 16 + v / 4) (decode_from fourth (v % 4) 0 cs)
]
decode_from fourth left pads (c ∷ cs) = elim (symbol c) [
  | pad ↦ ok []
  | other ↦ decode_from fourth left pads cs
  | sextet v ↦ prepend (left * 64 + v) (decode_from first 0 0 cs)
]

-- b64decode
unfoldable pub decode : List ℕ → Result DecodeError (List ℕ)
unfolding decode_from
decode cs = decode_from first 0 0 cs

-- str.encode('utf-8')
unfoldable pub utf8 : Text → Result DecodeError (List ℕ)
utf8 [] = ok []
utf8 (c ∷ cs) = elim (utf8 cs) [
  | err e ↦ err e
  | ok bs ↦
      if ltb c 128
      then ok (c ∷ bs)
      else if ltb c 2048
      then ok ((192 + c / 64) ∷ (128 + c % 64) ∷ bs)
      else if leb 55296 c && leb c 57343
      then err surrogate
      else if ltb c 65536
      then ok ((224 + c / 4096) ∷ (128 + c / 64 % 64) ∷ (128 + c % 64) ∷ bs)
      else ok
          ((240 + c / 262144) ∷ (128 + c / 4096 % 64) ∷ (128 + c / 64 % 64) ∷ (128 + c % 64) ∷ bs)
]
