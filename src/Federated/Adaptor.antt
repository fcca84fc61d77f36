-- ===== src/Federated/Adaptor.antt =====
-- services/edge_fabric/federated_learning/flower_adaptor.py: EnterpriseClient and QuantumSafeCredentials.
-- A tensor is a value of any type. torch's load_state_dict and the key exchange are parameters. A method that the class does not have is an argument that is `none`. What is left of a model where an operation raises is not modelled.
use qervan_ai.Common.{
  ◌==◌, ℕ, ◌+◌, ◌*◌, Bool, true, false, ◌&&◌, ◌||◌, String, List, [], ◌∷◌, Option, none, some,
  Result, ok, err, ◌>>=◌, Dict, insert, Text, codes, leb, if◌then◌else◌, ◌-◌,
}
use qervan_ai.Federated.{Bytes}

pub data AdaptorError : Type 0 where
  runtime_error value_error attribute_error : AdaptorError

pub record Credentials (Key : Type 0) : Type 0 where
  pub private_key : Key
  pub public_key : Bytes

pub record KeyExchange (Key : Type 0) : Type 0 where
  pub from_public_bytes : Bytes → Result AdaptorError Bytes
  pub exchange : Key → Bytes → Result AdaptorError Bytes
  pub hkdf : (size : ℕ) (info : Text) (shared : Bytes) → Bytes

-- derive_shared_key
unfoldable pub derive_shared_key :
    {Key : Type 0}
    → KeyExchange Key
    → Credentials Key
    → (peer_public_key : Bytes) → Result AdaptorError Bytes
derive_shared_key x credentials peer_public_key = do
  shared_key ← x.exchange credentials.private_key peer_public_key
  ok (x.hkdf 64 (codes "nuzon-flower-adapter") shared_key)

-- bytes.fromhex
abbrev pub hex_digit : ℕ → Option ℕ
hex_digit c =
    if leb b'0' c && leb c b'9'
    then some (c - 48)
    else if leb b'a' c && leb c b'f'
    then some (c - 87)
    else if leb b'A' c && leb c b'F'
    then some (c - 55)
    else none

abbrev pub is_space : ℕ → Bool
is_space c = leb 9 c && leb c 13 || c == 32

-- White space may stand between two bytes.
unfoldable pub from_hex : Text → Result AdaptorError Bytes
from_hex [] = ok []
from_hex (c ∷ []) = if is_space c then ok [] else err value_error
from_hex (c ∷ d ∷ cs) = elim (is_space c) [
  | true ↦ from_hex (d ∷ cs)
  | false ↦ elim (hex_digit c) [
    | none ↦ err value_error
    | some high ↦ elim (hex_digit d) [
      | none ↦ err value_error
      | some low ↦ from_hex cs >>= λ bytes. ok ((high * 16 + low) ∷ bytes)
    ]
  ]
]

-- model.state_dict(), and the client's keys.
pub record EnterpriseClient (T Key : Type 0) : Type 0 where
  pub model : Dict T
  pub credentials : Credentials Key
  pub shared_keys : Dict Bytes

abbrev pub keys_of : {T : Type 0} → Dict T → List String
keys_of [] = []
keys_of ((k, v) ∷ d) = k ∷ keys_of d

abbrev pub values_of : {T : Type 0} → Dict T → List T
values_of [] = []
values_of ((k, v) ∷ d) = v ∷ values_of d

-- {k: torch.tensor(v) for k, v in zip(keys, parameters)}
abbrev pub zip_dict : {T : Type 0} → List String → List T → Dict T
zip_dict [] parameters = []
zip_dict (k ∷ keys) [] = []
zip_dict (k ∷ keys) (v ∷ parameters) = (k, v) ∷ zip_dict keys parameters

unfoldable pub get_parameters : {T Key : Type 0} → EnterpriseClient T Key → List T
get_parameters c = values_of c.model

-- model.load_state_dict: the model's entries after it has been given others, or what it raises.
module _ {T : Type 0} (load_state_dict : Dict T → Dict T → Result AdaptorError (Dict T)) where
  module _ {Key : Type 0} where
    unfoldable pub set_parameters :
        List T → EnterpriseClient T Key → Result AdaptorError (EnterpriseClient T Key)
    set_parameters parameters c = do
      model ← load_state_dict c.model (zip_dict (keys_of c.model) parameters)
      ok (record c { model = model })

    -- fit, up to the training: the parameters, and the key if the configuration has one.
    unfoldable pub prepare_fit :
        KeyExchange Key
        → List T
        → (server_pubkey : Option Text) → EnterpriseClient T Key
        → Result AdaptorError (EnterpriseClient T Key)
    unfolding set_parameters from_hex derive_shared_key
    prepare_fit x parameters none c = set_parameters parameters c
    prepare_fit x parameters (some server_pubkey) c = do
      loaded ← set_parameters parameters c
      bytes ← from_hex server_pubkey
      server_pub ← x.from_public_bytes bytes
      shared ← derive_shared_key x loaded.credentials server_pub
      ok (record loaded { shared_keys = insert loaded.shared_keys "server" shared })

    -- fit: `local_train` is none in the class, and the size of the data set is asked of None.
    unfoldable pub fit :
        KeyExchange Key
        → (local_train : Option
            (EnterpriseClient T Key → Result AdaptorError (EnterpriseClient T Key)))
        → (dataset_size : Option ℕ) → List T
        → (server_pubkey : Option Text) → EnterpriseClient T Key
        → Result AdaptorError (List T × ℕ × Bytes)
    unfolding prepare_fit get_parameters
    fit x none dataset_size parameters server_pubkey c =
        prepare_fit x parameters server_pubkey c >>= λ c'. err attribute_error
    fit x (some local_train) none parameters server_pubkey c = do
      prepared ← prepare_fit x parameters server_pubkey c
      trained ← local_train prepared
      err attribute_error
    fit x (some local_train) (some size) parameters server_pubkey c = do
      prepared ← prepare_fit x parameters server_pubkey c
      trained ← local_train prepared
      ok (get_parameters trained, size, trained.credentials.public_key)
