-- ===== src/Client/Config.antt =====
-- developer_experience/sdk/python/nuzon/client.py: NuzonConfig, and the construction of a client from a
-- dictionary. The values of the dictionary are already of the fields' types.
use qervan_ai.Common.Fields.{
  build, refuse_unless, in_bounds, sized, build-ok, refuse_unless-nil, refuse_unless-last,
  in_bounds_iff, sized_iff,
}
use qervan_ai.Common.{
  inl, inr, List-cases, ok-ne-err, sym, ◌∙◌, Bool, true, false, not, ◌&&◌, String, List, [], ◌∷◌,
  ◌++◌, Option, none, some, Result, ok, err, ◌≡◌, refl, ◌↔◌, ◌≤◌, Text, codes, leb, length, arith,
  ◌>>=◌, Dict,
}
use qervan_ai.Common.Int.{ℤ, pos, ◌≤ℤ◌}
use qervan_ai.Common.Real.{Real}
use qervan_ai.Client.{NuzonClient, init}

pub record NuzonConfig (F : Type 0) : Type 0 where
  pub base_url : Text
  pub api_key : Text
  pub timeout : F
  pub max_retries : ℤ
  pub enable_telemetry : Bool
  pub circuit_breaker_threshold : ℤ

-- The keys that the dictionary may have, and the names of the others.
pub record ConfigDict (F : Type 0) : Type 0 where
  pub given_base_url : Option Text
  pub given_api_key : Option Text
  pub given_timeout : Option F
  pub given_max_retries : Option ℤ
  pub given_enable_telemetry : Option Bool
  pub given_threshold : Option ℤ
  pub extra : List Text

abbrev pub or_default : {A : Type 0} → Option A → A → A
or_default none default = default
or_default (some a) default = a

-- os.getenv("cirium_API_URL", "https://api.cirium.ai/v3") is read when the class is made.
module _ {F : Type 0} (r : Real F) (one thirty limit : F) (url_variable : Option Text) where
  abbrev pub is_timeout : F → Bool
  is_timeout v = not (r.lt v one) && not (r.lt limit v)

  abbrev pub other_errors : List Text → NuzonConfig F → List String
  other_errors extra c =
      refuse_unless (is_timeout c.timeout) "timeout"
      ++ (refuse_unless (in_bounds 0 10 c.max_retries) "max_retries"
          ++ refuse_unless (leb (length extra) 0) "extra")

  unfoldable pub nuzon_config_errors : List Text → NuzonConfig F → List String
  nuzon_config_errors extra c =
      refuse_unless (sized 64 256 c.api_key) "api_key" ++ other_errors extra c

  abbrev pub config_with : ConfigDict F → Text → NuzonConfig F
  config_with d key = record {
    base_url =
        or_default d.given_base_url (or_default url_variable (codes "https://api.cirium.ai/v3"));
    api_key = key;
    timeout = or_default d.given_timeout thirty;
    max_retries = or_default d.given_max_retries (pos 5);
    enable_telemetry = or_default d.given_enable_telemetry true;
    circuit_breaker_threshold = or_default d.given_threshold (pos 5);
  }

  -- NuzonConfig(**config)
  unfoldable pub new_config : ConfigDict F → Result (List String) (NuzonConfig F)
  unfolding build nuzon_config_errors
  new_config d = elim d.given_api_key [
    | none ↦ err ("api_key" ∷ other_errors d.extra (config_with d []))
    | some key ↦ build (nuzon_config_errors d.extra) (config_with d key)
  ]

  -- NuzonClient.__init__ with a dictionary
  unfoldable pub new_client : ConfigDict F → Result (List String) NuzonClient
  unfolding new_config init
  new_client d = new_config d >>= λ c. ok (init c.api_key c.circuit_breaker_threshold)

  -- _default_headers
  abbrev pub default_headers : NuzonConfig F → Dict Text
  default_headers c =
      ("Authorization", codes "Bearer " ++ c.api_key)
      ∷ ("X-Nuzon-SDK-Version", codes "3.4.0")
      ∷ ("Content-Type", codes "application/json")
      ∷ ("Accept", codes "application/json; version=3")
      ∷ []

  -- What NuzonConfig admits.
  pub record ValidConfig (extra : List Text) (c : NuzonConfig F) : Type 0 where
    pub key_low : 64 ≤ length c.api_key
    pub key_high : length c.api_key ≤ 256
    pub timeout_low : r.lt c.timeout one ≡ false
    pub timeout_high : r.lt limit c.timeout ≡ false
    pub retries_low : pos 0 ≤ℤ c.max_retries
    pub retries_high : c.max_retries ≤ℤ pos 10
    pub no_extra : length extra ≡ 0

  nuzon_config_errors-nil :
      (extra : List Text) (c : NuzonConfig F)
      → (nuzon_config_errors extra c ≡ []) ↔ ValidConfig extra c
  unfolding nuzon_config_errors
  nuzon_config_errors-nil extra c =
      let none_extra = refuse_unless (leb (length extra) 0) "extra" in
      let rest = refuse_unless (in_bounds 0 10 c.max_retries) "max_retries" ++ none_extra in
      let key =
        refuse_unless-nil (sized 64 256 c.api_key) "api_key"
          (refuse_unless (is_timeout c.timeout) "timeout" ++ rest) in
      let timeout = refuse_unless-nil (is_timeout c.timeout) "timeout" rest in
      let retries = refuse_unless-nil (in_bounds 0 10 c.max_retries) "max_retries" none_extra in
      let last = refuse_unless-last (leb (length extra) 0) "extra" in
      let sizes = sized_iff 64 256 c.api_key in
      let bounds = in_bounds_iff 0 10 c.max_retries in
      (
        (λ h.
            let (a, h1) = key.0 h in
            let (b, h2) = timeout.0 h1 in
            let (d, h3) = retries.0 h2 in
            let e = last.0 h3 in
            record {
              key_low = (sizes.0 a).0;
              key_high = (sizes.0 a).1;
              timeout_low = ground (arith, b);
              timeout_high = ground (arith, b);
              retries_low = (bounds.0 d).0;
              retries_high = (bounds.0 d).1;
              no_extra = ground (arith, e);
            }),
        (λ v.
            let b : is_timeout c.timeout ≡ true = ground (arith, v.timeout_low, v.timeout_high) in
            let e : leb (length extra) 0 ≡ true = ground (arith, v.no_extra) in
            key.1 (
              sizes.1 (v.key_low, v.key_high),
              timeout.1 (b, retries.1 (bounds.1 (v.retries_low, v.retries_high), last.1 e)),
            )),
      )

  -- From a dictionary with a key, a client is built exactly if the key has 64 to 256 characters, the timeout is within
  -- its limits, there are 0 to 10 retries, and no other name is given; it starts closed, with no failure.
  pub new_client_iff :
      (d : ConfigDict F) (key : Text)
      → d.given_api_key ≡ some key
      → (new_client d ≡ ok (init key (or_default d.given_threshold (pos 5))))
        ↔ ValidConfig d.extra (config_with d key)
  unfolding new_client new_config build
  new_client_iff d key given =
      let c = config_with d key in
      let errors = nuzon_config_errors-nil d.extra c in
      let built = build-ok (nuzon_config_errors d.extra) c in
      (
        (λ h. elim (List-cases (nuzon_config_errors d.extra c)) [
          | inl nil ↦ errors.0 nil
          | inr (e, es, refused) ↦ absurd (
              ok-ne-err (init key (or_default d.given_threshold (pos 5))) (e ∷ es)
                (sym h ∙ rw (given, refused, new_client, new_config, build) refl))
        ]),
        (λ v. rw (given, built.1 (errors.1 v), new_client, new_config) refl),
      )
