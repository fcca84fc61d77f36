-- ===== src/Federated/Examples.antt =====
-- Tests and witnesses: a toy scheme whose fresh ciphertexts are off by one in every value.
use qervan_ai.Federated.Adaptor.{AdaptorError, EnterpriseClient, set_parameters, from_hex}
use qervan_ai.Common.{
  Result, Dict, codes, ℕ, suc, ◌+◌, ◌==◌, List, [], ◌∷◌, ok, err, ◌≡◌, refl, sym, ◌∙◌, ap, length,
  map, arith, if◌then◌else◌,
}
use qervan_ai.Federated.{
  Bytes, Array, Libraries, EncryptedAggregator, index_error, value_error, secure_aggregate,
  aggregate_from, add_updates, decrypt_parameters, prepare_all, server_aggregate, new_aggregator,
  initialize,
}
use qervan_ai.Federated.Columns.{vec_add, total, parameters}
use qervan_ai.Federated.Aggregate.{server_aggregate-prepare_all, ModelNear}

abbrev shift : ℕ → List ℕ → List ℕ
shift n [] = []
shift n (x ∷ xs) = (x + n) ∷ shift n xs

abbrev toy : Libraries ℕ (List ℕ) ℕ ℕ ℕ
toy = record {
  ckks_context = λ degree sizes seed. (degree, suc seed);
  set_global_scale = λ scale context. context;
  generate_galois_keys = λ context seed. (context, suc seed);
  ckks_vector = λ context xs seed. (shift 1 xs, suc seed);
  add = λ c d. if length c == length d then ok (vec_add ◌+◌ c d) else err value_error;
  decrypt = λ c. c;
  serialize = λ c. c;
  serialize_context = λ context. context ∷ [];
  context_from = λ bytes. ok 0;
  lazy_ckks_vector_from = λ bytes. bytes;
  generate_key = λ seed. (seed, suc seed);
  exchange = λ key peer. ok peer;
  hkdf = λ size info shared. shared;
}

abbrev engine : EncryptedAggregator ℕ ℕ
engine = record {
  km = record { context = 8192; cluster_key = 1; key_version = 1 };
  own_context = 8192;
}

built_engine : (new_aggregator toy (initialize toy 8192 0).0 2).0 ≡ engine
unfolding new_aggregator initialize
built_engine = refl

abbrev Off : ℕ → List ℕ → List ℕ → Type 0
Off n c xs = c ≡ shift n xs

length-shift : (n : ℕ) (xs : List ℕ) → length (shift n xs) ≡ length xs
length-shift n [] = refl
length-shift n (x ∷ xs) = omega (arith, length-shift n xs)

vec_add-shift :
    (m n : ℕ) (xs ys : List ℕ)
    → vec_add ◌+◌ (shift m xs) (shift n ys) ≡ shift (m + n) (vec_add ◌+◌ xs ys)
vec_add-shift m n [] ys = refl
vec_add-shift m n (x ∷ xs) [] = refl
vec_add-shift m n (x ∷ xs) (y ∷ ys) =
    let here : x + m + (y + n) ≡ x + y + (m + n) = omega arith in
    rw (here, vec_add-shift m n xs ys) refl

add_law :
    (c d : List ℕ) (m n : ℕ) (xs ys : List ℕ)
    → length xs ≡ length ys
    → Off m c xs
    → Off n d ys
    → (e : List ℕ) × (toy.add c d ≡ ok e) × Off (m + n) e (vec_add ◌+◌ xs ys)
add_law c d m n xs ys same hc hd =
    let sizes : length c ≡ length d =
      ap length hc
      ∙ (length-shift m xs ∙ (same ∙ (sym (length-shift n ys) ∙ sym (ap length hd)))) in
    (vec_add ◌+◌ c d, ground (arith, sizes), rw (hc, hd) (vec_add-shift m n xs ys))

abbrev model_a : List (Array ℕ)
model_a =
    record { shape = 2 ∷ []; values = 10 ∷ 20 ∷ [] }
    ∷ record { shape = 1 ∷ []; values = 5 ∷ [] }
    ∷ []

abbrev model_b : List (Array ℕ)
model_b =
    record { shape = 2 ∷ []; values = 1 ∷ 2 ∷ [] } ∷ record { shape = 1 ∷ []; values = 3 ∷ [] } ∷ []

abbrev summed : List (List ℕ)
summed = (11 ∷ 22 ∷ []) ∷ (8 ∷ []) ∷ []

sum_of_two : total ◌+◌ (parameters model_a) (map parameters (model_b ∷ [])) ≡ summed
sum_of_two = refl

-- No update, and an update with fewer parameters than the first.
no_update : secure_aggregate toy [] ≡ err index_error
unfolding secure_aggregate
no_update = refl

short_update :
    secure_aggregate toy (((1 ∷ []) ∷ (2 ∷ []) ∷ []) ∷ ((3 ∷ []) ∷ []) ∷ []) ≡ err index_error
unfolding secure_aggregate aggregate_from add_updates
short_update = refl

server_aggregate-prepare_all_example :
    (us : List (List (List ℕ))) × (last : ℕ) × (es : List (List ℕ)) × (prepare_all toy engine
        (model_a ∷ model_b ∷ [])
        (7 ∷ [])
        0
      ≡ ok (us, last))
    × (server_aggregate toy us ≡ ok es)
    × ModelNear Off
        (length (model_a ∷ model_b ∷ []))
        (decrypt_parameters toy es)
        (total ◌+◌ (parameters model_a) (map parameters (model_b ∷ [])))
server_aggregate-prepare_all_example =
    server_aggregate-prepare_all toy Off engine (λ xs seed. refl) ◌+◌ add_law (7 ∷ []) (7 ∷ []) refl
      model_a (model_b ∷ []) 0 ((refl, (refl, tt)), tt)

-- A client whose model has two numbers.
abbrev small_client : EnterpriseClient ℕ ℕ
small_client = record {
  model = ("weight", 1) ∷ ("bias", 2) ∷ [];
  credentials = record { private_key = 3; public_key = 4 ∷ [] };
  shared_keys = [];
}

-- A model that takes whatever entries it is given.
abbrev take_all : Dict ℕ → Dict ℕ → Result AdaptorError (Dict ℕ)
take_all model given = ok given

abbrev reached : EnterpriseClient ℕ ℕ
reached = record small_client { model = ("weight", 8) ∷ ("bias", 9) ∷ [] }

more_values_than_names : set_parameters take_all (8 ∷ 9 ∷ 10 ∷ []) small_client ≡ ok reached
unfolding set_parameters
more_values_than_names = refl

abbrev two_bytes : Bytes
two_bytes = 175 ∷ 1 ∷ []

spaced_hex : from_hex (codes "aF 01") ≡ ok two_bytes
unfolding from_hex
spaced_hex = refl
