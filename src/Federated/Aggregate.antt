-- ===== src/Federated/Aggregate.antt =====
-- services/edge_fabric/federated_learning/homomorphic.py: what the aggregate of encrypted updates decrypts to.
use qervan_ai.Common.{ℕ, suc, ◌+◌, List, [], ◌∷◌, ok, ◌≡◌, refl, subst, length, map, arith, All}
use qervan_ai.Federated.{
  Bytes, Array, Libraries, EncryptedAggregator, encrypt_parameters, secure_aggregate,
  decrypt_parameters, client_prepare, prepare_all, server_aggregate, derive_transport_key,
}
use qervan_ai.Federated.Columns.{
  vec_add, total, SameShape, SameShape-self, parameters, AllNear, Updates, aggregate_from-near,
}

-- The arrays that decrypt_parameters returns, against the parameters.
abbrev pub ModelNear :
    {F : Type 0} → (ℕ → List F → List F → Type 0) → ℕ → List (Array F) → List (List F) → Type 0
ModelNear near n [] [] = Unit
ModelNear near n [] (x ∷ xs) = ⊥
ModelNear near n (a ∷ arrays) [] = ⊥
ModelNear near n (a ∷ arrays) (x ∷ xs) = near n a.values x × ModelNear near n arrays xs

module _ {Context Vector Key F Seed : Type 0} (l : Libraries Context Vector Key F Seed)
    (near : ℕ → List F → List F → Type 0) where
  decrypt_parameters-near :
      (n : ℕ) (cs : List Vector) (xs : List (List F))
      → AllNear l near n cs xs
      → ModelNear near n (decrypt_parameters l cs) xs
  unfolding decrypt_parameters
  decrypt_parameters-near n [] [] h = tt
  decrypt_parameters-near n [] (x ∷ xs) h = absurd h
  decrypt_parameters-near n (c ∷ cs) [] h = absurd h
  decrypt_parameters-near n (c ∷ cs) (x ∷ xs) h = (h.0, decrypt_parameters-near n cs xs h.1)

  module _ (a : EncryptedAggregator Context Key)
      (fresh : (xs : List F) (seed : Seed)
        → near 1 (l.decrypt (l.ckks_vector a.own_context xs seed).0) xs) where
    encrypt_parameters-near :
        (params : List (Array F)) (seed : Seed)
        → AllNear l near 1 (encrypt_parameters l a params seed).0 (parameters params)
    unfolding encrypt_parameters
    encrypt_parameters-near [] seed = tt
    encrypt_parameters-near (param ∷ params) seed = (
      fresh param.values seed,
      encrypt_parameters-near params (l.ckks_vector a.own_context param.values seed).1,
    )

    prepare_all-near :
        (server_pubkey shared : Bytes)
        → l.exchange a.km.cluster_key server_pubkey ≡ ok shared
        → (models : List (List (Array F))) (seed : Seed)
        → (us : List (List Vector)) × (last : Seed) × (prepare_all l a models server_pubkey seed
            ≡ ok (us, last))
          × Updates l near us (map parameters models)
          × (length us ≡ length models)
    unfolding prepare_all client_prepare derive_transport_key
    prepare_all-near server_pubkey shared agreed [] seed = ([], seed, refl, tt, refl)
    prepare_all-near server_pubkey shared agreed (model ∷ models) seed =
        let (us, last, prepared, close, size) =
          prepare_all-near server_pubkey shared agreed models
            (encrypt_parameters l a model seed).1 in
        (
          (encrypt_parameters l a model seed).0 ∷ us,
          last,
          rw (agreed, prepared) refl,
          (encrypt_parameters-near model seed, close),
          omega (arith, size),
        )

    module _ (plus : F → F → F)
        (adds : (c d : Vector) (m n : ℕ) (xs ys : List F)
          → length xs ≡ length ys
          → near m (l.decrypt c) xs
          → near n (l.decrypt d) ys
          → (e : Vector) × (l.add c d ≡ ok e)
            × near (m + n) (l.decrypt e) (vec_add plus xs ys)) where
      -- Where a fresh ciphertext is within one error of its vector and adding two ciphertexts of vectors of one size
      -- adds the vectors and the errors: when the key exchange succeeds and the clients' models have as many
      -- parameters as the first one's, of the same sizes, the preparation and the aggregation return,
      -- and what is decrypted is the sum of the models, within as many errors as there
      -- are clients.
      pub server_aggregate-prepare_all :
          (server_pubkey shared : Bytes)
          → l.exchange a.km.cluster_key server_pubkey ≡ ok shared
          → (first : List (Array F)) (models : List (List (Array F))) (seed : Seed)
          → All (SameShape (parameters first)) (map parameters models)
          → (us : List (List Vector)) × (last : Seed) × (es : List Vector) × (prepare_all l a
                (first ∷ models)
                server_pubkey
                seed
              ≡ ok (us, last))
            × (server_aggregate l us ≡ ok es)
            × ModelNear near
                (length (first ∷ models))
                (decrypt_parameters l es)
                (total plus (parameters first) (map parameters models))
      unfolding server_aggregate secure_aggregate prepare_all client_prepare derive_transport_key
      server_aggregate-prepare_all server_pubkey shared agreed first models seed same =
          let (us, last, prepared, close, size) =
            prepare_all-near server_pubkey shared agreed models
              (encrypt_parameters l a first seed).1 in
          let (es, summed, near_sum) =
            aggregate_from-near l near plus adds (encrypt_parameters l a first seed).0
              (parameters first) (parameters first) us (map parameters models)
              (encrypt_parameters-near first seed) (SameShape-self (parameters first)) close same in
          (
            (encrypt_parameters l a first seed).0 ∷ us,
            last,
            es,
            rw (agreed, prepared) refl,
            summed,
            decrypt_parameters-near (suc (length models)) es
                (total plus (parameters first) (map parameters models))
                (subst
                  (λ n.
                    AllNear l near (suc n) es
                      (total plus (parameters first) (map parameters models)))
                  size near_sum),
          )
