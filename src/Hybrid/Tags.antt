-- ===== src/Hybrid/Tags.antt =====
-- core/quantum_layer/crypto_agility/hybrid_schemes.py: what it takes for decrypt_hybrid to accept a tag that
-- encrypt_hybrid made. The two derive the key of the MAC from different byte strings.
use qervan_ai.Common.{
  zero, suc, ℕ, ◌<◌, ◌/◌, [], ◌∷◌, ◌++◌, some, ok, ◌≡◌, ◌≢◌, refl, sym, ◌∙◌, ap, length,
  length-append, arith, text_eq, text_eq_iff, Bool-cases, Result-cases, inl, inr, ok-ne-err,
  ok-injective, >>=-eq-ok,
}
use qervan_ai.Hybrid.{
  Bytes, Primitives, Engine, encrypt_hybrid, decrypt_hybrid, try_decrypt, tag_of, slice_from,
  invalid_signature,
}

slice_from-append : (n : ℕ) (xs ys : Bytes) → length xs ≡ n → slice_from n (xs ++ ys) ≡ ys
slice_from-append zero [] ys h = refl
slice_from-append zero (x ∷ xs) ys h = absurd (omega (arith, h))
slice_from-append (suc n) [] ys h = absurd (omega (arith, h))
slice_from-append (suc n) (x ∷ xs) ys h = slice_from-append n xs ys (omega (arith, h))

module _ {Seed : Type 0} (p : Primitives Seed) (e : Engine) where
  -- What the tag of an encryption is made of.
  encrypt_hybrid-tag :
      (pub_key plaintext : Bytes) (seed : Seed) {a b tag : Bytes} {last : Seed}
      → encrypt_hybrid p e pub_key plaintext seed ≡ ok ((a, b, tag), last)
      → (kept secret payload : Bytes) × (s : Seed) × (p.encapsulate e.kem.0 pub_key
            (p.urandom (e.dem.1 / 8) seed).1
          ≡ ok (kept, secret, s))
        × (b ≡ (p.urandom 16 s).0 ++ payload)
        × (tag ≡ tag_of p (secret ++ (p.urandom (e.dem.1 / 8) seed).0) payload)
  unfolding encrypt_hybrid
  encrypt_hybrid-tag pub_key plaintext seed h =
      let ((kept, secret, s), encapsulated, rest) =
        >>=-eq-ok (p.encapsulate e.kem.0 pub_key (p.urandom (e.dem.1 / 8) seed).1) _ h in
      let (payload, encrypted, returned) =
        >>=-eq-ok
          (p.gcm_encrypt e.dem.0 (p.urandom (e.dem.1 / 8) seed).0 (p.urandom 16 s).0 plaintext) _
          rest in
      (
        kept,
        secret,
        payload,
        s,
        encapsulated,
        sym (ap (λ r. r.0.1) (ok-injective returned)),
        sym (ap (λ r. r.0.2) (ok-injective returned)),
      )

  -- What a decryption that returns has verified.
  decrypt_hybrid-some :
      (priv_key ciphertext tag : Bytes) {plaintext : Bytes}
      → decrypt_hybrid p e priv_key ciphertext tag ≡ some plaintext
      → (secret : Bytes) × (p.decapsulate e.kem.0 priv_key ciphertext ≡ ok secret)
        × (tag_of p (secret ++ []) (slice_from 16 ciphertext) ≡ tag)
  unfolding decrypt_hybrid try_decrypt
  decrypt_hybrid-some priv_key ciphertext tag h =
      elim (Result-cases (try_decrypt p e priv_key ciphertext tag)) [
        | inr (x, failed) ↦ cc
        | inl (v, returned) ↦
            let (secret, decapsulated, rest) =
              >>=-eq-ok (p.decapsulate e.kem.0 priv_key ciphertext) _ returned in
            elim (Bool-cases (text_eq (tag_of p (secret ++ []) (slice_from 16 ciphertext)) tag)) [
              | inl same ↦ (
                secret,
                decapsulated,
                (text_eq_iff (tag_of p (secret ++ []) (slice_from 16 ciphertext)) tag).0 same,
              )
              | inr other ↦ absurd (ok-ne-err v invalid_signature (sym rest ∙ rw other refl))
            ]
      ]

  -- Where the shared secrets have one length and urandom gives as many bytes as it is asked for, a
  -- decryption that returns has taken the tag of an encryption for one that it derives from another byte
  -- string: the shared secret that decapsulation finds is not the shared secret of the encapsulation
  -- followed by the DEM key drawn, and the HMACs keyed by the SHA3-512 of the one and of the other are
  -- the same, over what is after 16 bytes of the ciphertext that decryption was given, and over what is
  -- after 16 bytes of the second part of the encryption.
  pub decrypt_hybrid-encrypt_hybrid :
      (size : ℕ)
      → ((k c s : Bytes) → p.decapsulate e.kem.0 k c ≡ ok s → length s ≡ size)
      → ((k c s : Bytes) (before after : Seed)
          → p.encapsulate e.kem.0 k before ≡ ok (c, s, after)
          → length s ≡ size)
      → ((n : ℕ) (seed : Seed) → length (p.urandom n seed).0 ≡ n)
      → 0 < e.dem.1 / 8
      → (pub_key priv_key plaintext ciphertext : Bytes) (seed : Seed) {a b tag returned : Bytes}
        {last : Seed}
      → encrypt_hybrid p e pub_key plaintext seed ≡ ok ((a, b, tag), last)
      → decrypt_hybrid p e priv_key ciphertext tag ≡ some returned
      → let drawn = p.urandom (e.dem.1 / 8) seed in
        (found kept secret : Bytes) × (s : Seed) × (p.decapsulate e.kem.0 priv_key ciphertext
          ≡ ok found)
        × (p.encapsulate e.kem.0 pub_key drawn.1 ≡ ok (kept, secret, s))
        × (found ++ [] ≢ secret ++ drawn.0)
        × (tag_of p (found ++ []) (slice_from 16 ciphertext)
            ≡ tag_of p (secret ++ drawn.0) (slice_from 16 b))
  decrypt_hybrid-encrypt_hybrid size same_size same_size_in lengths some_bytes pub_key priv_key
        plaintext ciphertext seed h k =
      let (kept, secret, payload, s, encapsulated, sent, tagged) =
        encrypt_hybrid-tag pub_key plaintext seed h in
      let (found, decapsulated, verified) = decrypt_hybrid-some priv_key ciphertext _ k in
      let dem_key = (p.urandom (e.dem.1 / 8) seed).0 in
      let distinct : found ++ [] ≢ secret ++ dem_key = λ same. omega (
        arith,
        ap length same,
        length-append found [],
        length-append secret dem_key,
        same_size priv_key ciphertext found decapsulated,
        same_size_in pub_key kept secret _ s encapsulated,
        lengths (e.dem.1 / 8) seed,
        some_bytes,
      ) in
      let whole =
        ap (slice_from 16) sent ∙ slice_from-append 16 (p.urandom 16 s).0 payload (lengths 16 s) in
      (
        found,
        kept,
        secret,
        s,
        decapsulated,
        encapsulated,
        distinct,
        verified ∙ (tagged ∙ ap (tag_of p (secret ++ dem_key)) (sym whole)),
      )
