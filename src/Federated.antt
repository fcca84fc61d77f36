-- ===== src/Federated.antt =====
-- services/edge_fabric/federated_learning/homomorphic.py: HEKeyManager, EncryptedAggregator and HybridProtocol.
-- TenSEAL and `cryptography` are parameters: a context, a vector under CKKS and a private key are values of
-- types of theirs. What they draw at random comes from a seed that every draw hands on.
pub mod Columns
pub mod Aggregate
pub mod Adaptor
mod Examples
use qervan_ai.Common.{
  ℕ, zero, suc, List, [], ◌∷◌, Option, none, some, Result, ok, err, ◌>>=◌, Text, codes, get_elem?,
  length, map, Dict,
}

abbrev pub Bytes : Type 0
Bytes = List ℕ

pub data FederatedError : Type 0 where
  index_error value_error : FederatedError

-- numpy's arrays: the shape, and the values in the order of flatten().
pub record Array (F : Type 0) : Type 0 where
  pub shape : List ℕ
  pub values : List F

pub record Libraries (Context Vector Key F Seed : Type 0) : Type 0 where
  -- ts.context for CKKS with the four sizes of the coefficients' moduli
  pub ckks_context :
      (poly_modulus_degree : ℕ) (coeff_mod_bit_sizes : List ℕ) → Seed → Context × Seed
  pub set_global_scale : ℕ → Context → Context
  pub generate_galois_keys : Context → Seed → Context × Seed
  pub ckks_vector : Context → List F → Seed → Vector × Seed
  -- `+=` of two vectors raises ValueError for some pairs
  pub add : Vector → Vector → Result FederatedError Vector
  pub decrypt : Vector → List F
  pub serialize : Vector → Bytes
  pub serialize_context : Context → Bytes
  pub context_from : Bytes → Result FederatedError Context
  pub lazy_ckks_vector_from : Bytes → Vector
  -- X25519 and HKDF over SHA3-512
  pub generate_key : Seed → Key × Seed
  pub exchange : Key → (peer_public_key : Bytes) → Result FederatedError Bytes
  pub hkdf : (size : ℕ) (info : Text) (shared : Bytes) → Bytes

pub record HeKeyManager (Context Key : Type 0) : Type 0 where
  pub context : Context
  pub cluster_key : Key
  pub key_version : ℕ

-- EncryptedAggregator, of which the methods use the context and the key manager.
pub record EncryptedAggregator (Context Key : Type 0) : Type 0 where
  pub km : HeKeyManager Context Key
  pub own_context : Context

-- What parameter_serialize returns.
pub record Package : Type 0 where
  pub vectors : List Bytes
  pub context_bytes : Bytes

module _ {Context Vector Key F Seed : Type 0} (l : Libraries Context Vector Key F Seed) where
  unfoldable pub initialize : (poly_modulus_degree : ℕ) → Seed → HeKeyManager Context Key × Seed
  initialize poly_modulus_degree seed =
      let (context, seed_1) = l.ckks_context poly_modulus_degree (60 ∷ 40 ∷ 40 ∷ 60 ∷ []) seed in
      let (key, seed_2) = l.generate_key seed_1 in
      (
        record {
          context = l.set_global_scale 1099511627776 context;
          cluster_key = key;
          key_version = 1;
        },
        seed_2,
      )

  unfoldable pub derive_transport_key :
      HeKeyManager Context Key → (peer_public_key : Bytes) → Result FederatedError Bytes
  derive_transport_key km peer_public_key = do
    shared_key ← l.exchange km.cluster_key peer_public_key
    ok (l.hkdf 64 (codes "nuzon-he-key") shared_key)

  unfoldable pub new_aggregator :
      HeKeyManager Context Key → Seed → EncryptedAggregator Context Key × Seed
  new_aggregator km seed =
      let (context, seed_1) = l.generate_galois_keys km.context seed in
      (record { km = km; own_context = context }, seed_1)

  unfoldable pub encrypt_parameters :
      EncryptedAggregator Context Key → List (Array F) → Seed → List Vector × Seed
  encrypt_parameters a [] seed = ([], seed)
  encrypt_parameters a (param ∷ params) seed =
      let (vec, seed_1) = l.ckks_vector a.own_context param.values seed in
      let (vecs, last) = encrypt_parameters a params seed_1 in (vec ∷ vecs, last)

  -- The inner loop: the parameter of every other update is added to the first's.
  unfoldable pub add_updates :
      (param_idx : ℕ) → (param_agg : Vector) → List (List Vector) → Result FederatedError Vector
  add_updates param_idx param_agg [] = ok param_agg
  add_updates param_idx param_agg (update ∷ updates) = elim (get_elem? update param_idx) [
    | none ↦ err index_error
    | some vec ↦ l.add param_agg vec >>= λ sum. add_updates param_idx sum updates
  ]

  -- The outer loop, from `param_idx` on, over what is left of the first update.
  unfoldable pub aggregate_from :
      (param_idx : ℕ) → List Vector → List (List Vector) → Result FederatedError (List Vector)
  unfolding add_updates
  aggregate_from param_idx [] updates = ok []
  aggregate_from param_idx (vec ∷ vecs) updates = do
    param_agg ← add_updates param_idx vec updates
    aggregated ← aggregate_from (suc param_idx) vecs updates
    ok (param_agg ∷ aggregated)

  unfoldable pub secure_aggregate : List (List Vector) → Result FederatedError (List Vector)
  unfolding aggregate_from
  secure_aggregate [] = err index_error
  secure_aggregate (first ∷ updates) = aggregate_from 0 first updates

  -- reshape(-1) leaves one dimension.
  unfoldable pub decrypt_parameters : List Vector → List (Array F)
  decrypt_parameters [] = []
  decrypt_parameters (vec ∷ vecs) =
      record { shape = length (l.decrypt vec) ∷ []; values = l.decrypt vec }
      ∷ decrypt_parameters vecs

  unfoldable pub client_prepare :
      EncryptedAggregator Context Key
      → List (Array F)
      → (server_pubkey : Bytes) → Seed
      → Result FederatedError ((List Vector × Bytes) × Seed)
  unfolding derive_transport_key encrypt_parameters
  client_prepare a model_params server_pubkey seed = do
    transport_key ← derive_transport_key a.km server_pubkey
    let encrypted = encrypt_parameters a model_params seed
    ok ((encrypted.0, transport_key), encrypted.1)

  unfoldable pub server_aggregate : List (List Vector) → Result FederatedError (List Vector)
  unfolding secure_aggregate
  server_aggregate encrypted_updates = secure_aggregate encrypted_updates

  unfoldable pub parameter_serialize : EncryptedAggregator Context Key → List Vector → Package
  parameter_serialize a encrypted_params = record {
    vectors = map l.serialize encrypted_params;
    context_bytes = l.serialize_context a.own_context;
  }

  -- The context is read, and not given to the vectors.
  unfoldable pub parameter_deserialize : Package → Result FederatedError (List Vector)
  parameter_deserialize payload = do
    context ← l.context_from payload.context_bytes
    ok (map l.lazy_ckks_vector_from payload.vectors)

  -- Clients that prepare their models one after the other.
  unfoldable pub prepare_all :
      EncryptedAggregator Context Key
      → List (List (Array F))
      → (server_pubkey : Bytes) → Seed
      → Result FederatedError (List (List Vector) × Seed)
  unfolding client_prepare
  prepare_all a [] server_pubkey seed = ok ([], seed)
  prepare_all a (model ∷ models) server_pubkey seed = do
    (prepared, seed_1) ← client_prepare a model server_pubkey seed
    (updates, last) ← prepare_all a models server_pubkey seed_1
    ok (prepared.0 ∷ updates, last)
