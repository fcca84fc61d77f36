-- ===== src/Hybrid/Examples.antt =====
-- Tests and witnesses: an engine over toy primitives, and keys that go through base64.
use qervan_ai.Common.{
  ℕ, zero, suc, [], ◌∷◌, ◌++◌, none, some, ok, err, ◌≡◌, ◌≢◌, refl, arith, length, codes, Text,
}
use qervan_ai.Common.Int.{pos}
use qervan_ai.Hybrid.{
  Bytes, Primitives, Engine, encrypt_hybrid, decrypt_hybrid, try_decrypt, tag_of, slice_from,
  new_engine, select_algorithms, kyber1024, aes, key_error, serialize_keys, deserialize_keys,
}
use qervan_ai.Hybrid.Base64.{encode, decode, decode_from, incorrect_padding}
use qervan_ai.Hybrid.RoundTrip.{deserialize_keys-serialize_keys}
use qervan_ai.Hybrid.Tags.{decrypt_hybrid-encrypt_hybrid}

abbrev repeat : ℕ → Bytes
repeat zero = []
repeat (suc n) = 7 ∷ repeat n

length-repeat : (n : ℕ) → length (repeat n) ≡ n
length-repeat zero = refl
length-repeat (suc n) = omega (arith, length-repeat n)

-- `hash` and `mac` are the two primitives that the tags depend on.
abbrev toy : (hash : Bytes → Bytes) (mac : Bytes → Bytes → Bytes) → Primitives ℕ
toy hash mac = record {
  keypair = λ k seed. (1 ∷ [], 2 ∷ [], seed);
  urandom = λ n seed. (repeat n, suc seed);
  encapsulate = λ k key seed. ok (3 ∷ [], 9 ∷ [], suc seed);
  decapsulate = λ k key ciphertext. ok (9 ∷ []);
  gcm_encrypt = λ d key nonce plaintext. ok plaintext;
  gcm_decrypt = λ d key nonce payload. ok payload;
  sha3_512 = hash;
  hmac_sha3_512 = mac;
}

-- A hash that keeps the first byte alone, and one that keeps its input.
abbrev first_byte : Bytes → Bytes
first_byte [] = []
first_byte (b ∷ bytes) = b ∷ []

abbrev colliding : Primitives ℕ
colliding = toy first_byte (λ key payload. key ++ payload)

abbrev faithful : Primitives ℕ
faithful = toy (λ input. input) (λ key payload. key ++ payload)

abbrev level_3 : Engine
level_3 = record { kem = (kyber1024, 1024); dem = (aes, 256); nist_level = pos 3 }

built_at_3 : new_engine (pos 3) ≡ ok level_3
unfolding new_engine select_algorithms
built_at_3 = refl

refused_at_4 : new_engine (pos 4) ≡ err key_error
unfolding new_engine select_algorithms
refused_at_4 = refl

abbrev secret_text : Bytes
secret_text = 104 ∷ 105 ∷ []

abbrev sent_bytes : Bytes
sent_bytes = repeat 16 ++ secret_text

abbrev honest_tag : Bytes
honest_tag = 9 ∷ (repeat 32 ++ secret_text)

abbrev short_tag : Bytes
short_tag = 9 ∷ secret_text

toy_encryption :
    encrypt_hybrid colliding level_3 (2 ∷ []) secret_text 0
    ≡ ok ((3 ∷ [], sent_bytes, short_tag), 3)
unfolding encrypt_hybrid
toy_encryption = refl

toy_decryption : decrypt_hybrid colliding level_3 (1 ∷ []) sent_bytes short_tag ≡ some secret_text
unfolding decrypt_hybrid try_decrypt
toy_decryption = refl

honest_encryption :
    encrypt_hybrid faithful level_3 (2 ∷ []) secret_text 0
    ≡ ok ((3 ∷ [], sent_bytes, honest_tag), 3)
unfolding encrypt_hybrid
honest_encryption = refl

-- With a hash that tells its inputs apart, what was encrypted is not decrypted.
honest_tag_refused : decrypt_hybrid faithful level_3 (1 ∷ []) sent_bytes honest_tag ≡ none
unfolding decrypt_hybrid try_decrypt
honest_tag_refused = refl

decrypt_hybrid-encrypt_hybrid_example :
    let drawn = colliding.urandom 32 0 in
    (found kept secret : Bytes) × (s : ℕ) × (colliding.decapsulate kyber1024 (1 ∷ []) sent_bytes
      ≡ ok found)
    × (colliding.encapsulate kyber1024 (2 ∷ []) drawn.1 ≡ ok (kept, secret, s))
    × (found ++ [] ≢ secret ++ drawn.0)
    × (tag_of colliding (found ++ []) (slice_from 16 sent_bytes)
        ≡ tag_of colliding (secret ++ drawn.0) (slice_from 16 sent_bytes))
decrypt_hybrid-encrypt_hybrid_example =
    decrypt_hybrid-encrypt_hybrid colliding level_3 1 (λ k c s e. cc) (λ k c s before after e. cc)
      (λ n seed. length-repeat n) (omega arith) (2 ∷ []) (1 ∷ []) secret_text sent_bytes 0
      toy_encryption toy_decryption

abbrev key_texts : Text × Text
key_texts = (codes "AP8=", codes "aGk=")

two_keys : serialize_keys (0 ∷ 255 ∷ []) secret_text ≡ key_texts
unfolding serialize_keys encode
two_keys = refl

cut_short : decode (codes "AP8") ≡ err incorrect_padding
unfolding decode decode_from
cut_short = refl

deserialize_keys-serialize_keys_example :
    deserialize_keys
      (serialize_keys (0 ∷ 255 ∷ []) secret_text).0
      (serialize_keys (0 ∷ 255 ∷ []) secret_text).1
    ≡ ok (0 ∷ 255 ∷ [], secret_text)
deserialize_keys-serialize_keys_example =
    deserialize_keys-serialize_keys (0 ∷ 255 ∷ []) secret_text (omega arith, (omega arith, tt))
      (omega arith, (omega arith, tt))
