-- ===== src/Hybrid.antt =====
-- core/quantum_layer/crypto_agility/hybrid_schemes.py: HybridEncryptionEngine.
-- The primitives of `cryptography` and `Cryptodome` are parameters. What they draw at random comes from a
-- seed that every draw hands on. The standard library's base64 is in Base64.
pub mod Base64
pub mod RoundTrip
pub mod Tags
mod Examples
use qervan_ai.Common.{
  ℕ, zero, suc, ◌/◌, Bool, List, [], ◌∷◌, ◌++◌, Option, none, some, Result, ok, err, ◌>>=◌,
  if◌then◌else◌, ◌==◌, text_eq, Text,
}
use qervan_ai.Common.Int.{ℤ, pos, negsuc}
use qervan_ai.Hybrid.Base64.{encode, decode, utf8, DecodeError}

abbrev pub Bytes : Type 0
Bytes = List ℕ

pub data Kem : Type 0 where
  kyber512 kyber768 kyber1024 : Kem

pub data Dem : Type 0 where
  aes chacha20 : Dem

pub data CryptoError : Type 0 where
  key_error type_error value_error invalid_signature : CryptoError

pub record Primitives (Seed : Type 0) : Type 0 where
  pub keypair : Kem → Seed → Bytes × Bytes × Seed
  pub urandom : ℕ → Seed → Bytes × Seed
  -- the ciphertext and the shared secret
  pub encapsulate : Kem → Bytes → Seed → Result CryptoError (Bytes × Bytes × Seed)
  pub decapsulate : Kem → Bytes → Bytes → Result CryptoError Bytes
  -- Cipher(algorithm(key), GCM(nonce)): what update and finalize return, or what one of these raises
  pub gcm_encrypt : Dem → (key nonce plaintext : Bytes) → Result CryptoError Bytes
  pub gcm_decrypt : Dem → (key nonce payload : Bytes) → Result CryptoError Bytes
  pub sha3_512 : Bytes → Bytes
  pub hmac_sha3_512 : (key payload : Bytes) → Bytes

pub record Engine : Type 0 where
  pub kem : Kem × ℕ
  pub dem : Dem × ℕ
  pub nist_level : ℤ

-- _select_algorithms; another level is no key of the two dictionaries.
unfoldable pub select_algorithms : ℤ → Result CryptoError ((Kem × ℕ) × (Dem × ℕ))
select_algorithms (negsuc n) = err key_error
select_algorithms (pos n) =
    if n == 1
    then ok ((kyber512, 512), (aes, 256))
    else if n == 2
    then ok ((kyber768, 768), (chacha20, 256))
    else if n == 3
    then ok ((kyber1024, 1024), (aes, 256))
    else err key_error

-- __init__
unfoldable pub new_engine : ℤ → Result CryptoError Engine
unfolding select_algorithms
new_engine level = elim (select_algorithms level) [
  | err e ↦ err e
  | ok (k, d) ↦ ok (record { kem = k; dem = d; nist_level = level })
]

-- data[:n] and data[n:]
abbrev pub slice_to : ℕ → Bytes → Bytes
slice_to zero xs = []
slice_to (suc n) [] = []
slice_to (suc n) (x ∷ xs) = x ∷ slice_to n xs

abbrev pub slice_from : ℕ → Bytes → Bytes
slice_from zero xs = xs
slice_from (suc n) [] = []
slice_from (suc n) (x ∷ xs) = slice_from n xs

module _ {Seed : Type 0} (p : Primitives Seed) where
  unfoldable pub generate_hybrid_keys : Engine → Seed → Bytes × Bytes × Seed
  generate_hybrid_keys e seed = p.keypair e.kem.0 seed

  -- The MAC of encrypt_hybrid and of decrypt_hybrid, under the hash of what the key is derived from.
  abbrev pub tag_of : (secret payload : Bytes) → Bytes
  tag_of secret payload = p.hmac_sha3_512 (p.sha3_512 secret) payload

  -- The KEM ciphertext, the nonce with the DEM ciphertext, and the tag.
  unfoldable pub encrypt_hybrid :
      Engine
      → (pub_key plaintext : Bytes) → Seed
      → Result CryptoError ((Bytes × Bytes × Bytes) × Seed)
  encrypt_hybrid e pub_key plaintext seed = do
    let drawn = p.urandom (e.dem.1 / 8) seed
    (ciphertext, shared_secret, seed_2) ← p.encapsulate e.kem.0 pub_key drawn.1
    let fresh = p.urandom 16 seed_2
    ciphertext_dem ← p.gcm_encrypt e.dem.0 drawn.0 fresh.0 plaintext
    ok (
      (ciphertext, fresh.0 ++ ciphertext_dem, tag_of (shared_secret ++ drawn.0) ciphertext_dem),
      fresh.1,
    )

  -- The body of the `try`.
  unfoldable pub try_decrypt : Engine → (priv_key ciphertext tag : Bytes) → Result CryptoError Bytes
  try_decrypt e priv_key ciphertext tag = do
    shared_secret ← p.decapsulate e.kem.0 priv_key ciphertext
    let payload = slice_from 16 ciphertext
    let derived_key = p.sha3_512 (shared_secret ++ [])
    (if text_eq (p.hmac_sha3_512 derived_key payload) tag
        then p.gcm_decrypt e.dem.0 (slice_to (e.dem.1 / 8) derived_key) (slice_to 16 ciphertext)
            payload
        else err invalid_signature)

  unfoldable pub decrypt_hybrid : Engine → (priv_key ciphertext tag : Bytes) → Option Bytes
  unfolding try_decrypt
  decrypt_hybrid e priv_key ciphertext tag = elim (try_decrypt e priv_key ciphertext tag) [
    | ok plaintext ↦ some plaintext
    | err x ↦ none
  ]

unfoldable pub serialize_keys : (priv public : Bytes) → Text × Text
unfolding encode
serialize_keys priv public = (encode priv, encode public)

unfoldable pub deserialize_keys : (priv_b64 pub_b64 : Text) → Result DecodeError (Bytes × Bytes)
unfolding decode utf8
deserialize_keys priv_b64 pub_b64 = do
  priv ← utf8 priv_b64 >>= decode
  public ← utf8 pub_b64 >>= decode
  ok (priv, public)
