-- ===== src/Types/Config.antt =====
-- developer_experience/sdk/python/nuzon/types.py: which agent configurations AgentConfig accepts.
use qervan_ai.Common.Fields.{
  build, refuse_unless, sized, build-ok, refuse_unless-nil, refuse_unless-last, append-nil_iff,
  sized_iff,
}
use qervan_ai.Common.{
  ◌++◌, ok, every-All, contains_text, All-both, &&_iff, ℕ, Bool, true, false, List, [], ◌≡◌, ◌↔◌,
  ◌≤◌, arith, Text, Memᴰ, length, contains_text_iff, every, All,
}
use qervan_ai.Common.Real.{Real}
use qervan_ai.Common.Regex.{matches-Language, match_all, Language, anchored}
use qervan_ai.Types.{
  security_context_errors, agent_config_errors, is_share, AgentConfig, version_pattern, allowed,
  performance_ok,
}
use qervan_ai.Types.Valid.{security_context_errors-nil, ValidSecurity}

-- An entry of `performance`: a value from 0 to 1, of one of the three metrics.
abbrev pub IsShare : {F : Type 0} → Real F → F → F → Type 0
IsShare r one v = (r.lt v r.zero_r ≡ false) × (r.lt one v ≡ false)

abbrev pub IsLimit : {F : Type 0} → Real F → F → Text × F → Type 0
IsLimit r one entry = IsShare r one entry.1 × Memᴰ entry.0 allowed

is_share_iff : {F : Type 0} (r : Real F) (one v : F) → (is_share r one v ≡ true) ↔ IsShare r one v
is_share_iff r one v =
    ((λ h. (ground (arith, h), ground (arith, h))), (λ (low, high). ground (arith, low, high)))

-- What a configuration has to satisfy, over the texts that the pattern of the version stands for.
pub record ValidConfig {F : Type 0} (is_decimal : ℕ → Bool) (r : Real F) (one : F)
    (c : AgentConfig F) : Type 0 where
  pub name_low : 1 ≤ length c.name
  pub name_high : length c.name ≤ 255
  pub version : Language (anchored (version_pattern is_decimal)) c.version
  pub some_standard : 1 ≤ length c.compliance
  pub few_standards : length c.compliance ≤ 5
  pub security : ValidSecurity c.security
  pub performance : All (IsLimit r one) c.performance

performance_ok_iff :
    {F : Type 0} (r : Real F) (one : F) (p : List (Text × F))
    → (performance_ok r one p ≡ true) ↔ All (IsLimit r one) p
unfolding performance_ok
performance_ok_iff {F} r one p =
    let both =
      &&_iff (every (λ (e : Text × F). is_share r one e.1) p)
        (every (λ (e : Text × F). contains_text allowed e.0) p) in
    let values =
      every-All (λ (e : Text × F). is_share r one e.1) (λ e. IsShare r one e.1)
        (λ e. is_share_iff r one e.1) p in
    let keys =
      every-All (λ (e : Text × F). contains_text allowed e.0) (λ e. Memᴰ e.0 allowed)
        (λ e. contains_text_iff allowed e.0) p in
    let zip = All-both (λ (e : Text × F). IsShare r one e.1) (λ e. Memᴰ e.0 allowed) p in
    (
      (λ h. let (a, b) = both.0 h in zip.0 (values.0 a, keys.0 b)),
      (λ h. let (a, b) = zip.1 h in both.1 (values.1 a, keys.1 b)),
    )

module _ {F : Type 0} (is_decimal : ℕ → Bool) (r : Real F) (one : F) (c : AgentConfig F) where
  agent_config_errors-nil :
      (agent_config_errors is_decimal r one c ≡ []) ↔ ValidConfig is_decimal r one c
  unfolding agent_config_errors
  agent_config_errors-nil =
      let performance = refuse_unless (performance_ok r one c.performance) "performance" in
      let after_compliance = security_context_errors c.security ++ performance in
      let after_version = refuse_unless (sized 1 5 c.compliance) "compliance" ++ after_compliance in
      let version_text = match_all (version_pattern is_decimal) c.version in
      let name =
        refuse_unless-nil (sized 1 255 c.name) "name"
          (refuse_unless version_text "version" ++ after_version) in
      let version = refuse_unless-nil version_text "version" after_version in
      let standards = refuse_unless-nil (sized 1 5 c.compliance) "compliance" after_compliance in
      let security = append-nil_iff (security_context_errors c.security) performance in
      let limits = refuse_unless-last (performance_ok r one c.performance) "performance" in
      let names = sized_iff 1 255 c.name in
      let few = sized_iff 1 5 c.compliance in
      let pattern = matches-Language (anchored (version_pattern is_decimal)) c.version in
      (
        (λ h.
            let (a, h1) = name.0 h in
            let (b, h2) = version.0 h1 in
            let (d, h3) = standards.0 h2 in
            let (e, h4) = security.0 h3 in
            record {
              name_low = (names.0 a).0;
              name_high = (names.0 a).1;
              version = pattern.0 b;
              some_standard = (few.0 d).0;
              few_standards = (few.0 d).1;
              security = (security_context_errors-nil c.security).0 e;
              performance = (performance_ok_iff r one c.performance).0 (limits.0 h4);
            }),
        (λ v.
            let last = limits.1 ((performance_ok_iff r one c.performance).1 v.performance) in
            let secure = (security_context_errors-nil c.security).1 v.security in
            name.1 (
              names.1 (v.name_low, v.name_high),
              version.1 (
                pattern.1 v.version,
                standards.1 (few.1 (v.some_standard, v.few_standards), security.1 (secure, last)),
              ),
            )),
      )

  -- AgentConfig accepts its fields exactly if the name has 1 to 255 characters, the version is a text of its
  -- pattern (with at most a newline after it), there are 1 to 5 standards, the key version is from 1 to 65535,
  -- the certificate chain is absent or has 1 to 5 items, and `performance` gives only the three
  -- metrics, each a value from 0 to 1.
  pub agent_config_iff :
      (build (agent_config_errors is_decimal r one) c ≡ ok c) ↔ ValidConfig is_decimal r one c
  agent_config_iff =
      let built = build-ok (agent_config_errors is_decimal r one) c in
      ((λ h. agent_config_errors-nil.0 (built.0 h)), (λ v. built.1 (agent_config_errors-nil.1 v)))
