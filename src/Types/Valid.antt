-- ===== src/Types/Valid.antt =====
-- developer_experience/sdk/python/nuzon/types.py: what SecurityContext accepts.
use qervan_ai.Common.Fields.{
  refuse_unless, in_bounds, sized_if_given, refuse_unless-nil, refuse_unless-last, in_bounds_iff,
}
use qervan_ai.Common.{true, [], ◌≡◌, ◌↔◌}
use qervan_ai.Common.Int.{pos, ◌≤ℤ◌}
use qervan_ai.Types.{SecurityContext, security_context_errors}

-- A key version between 1 and 65535, and no chain or one of one to five certificates.
pub record ValidSecurity (s : SecurityContext) : Type 0 where
  pub version_low : pos 1 ≤ℤ s.key_version
  pub version_high : s.key_version ≤ℤ pos 65535
  pub chain : sized_if_given 1 5 s.certificate_chain ≡ true

pub security_context_errors-nil :
    (s : SecurityContext) → (security_context_errors s ≡ []) ↔ ValidSecurity s
unfolding security_context_errors
security_context_errors-nil s =
    let version =
      refuse_unless-nil (in_bounds 1 65535 s.key_version) "key_version"
        (refuse_unless (sized_if_given 1 5 s.certificate_chain) "certificate_chain") in
    let chain = refuse_unless-last (sized_if_given 1 5 s.certificate_chain) "certificate_chain" in
    let bounds = in_bounds_iff 1 65535 s.key_version in
    (
      (λ h.
          let (a, b) = version.0 h in
          let (low, high) = bounds.0 a in
          record { version_low = low; version_high = high; chain = chain.0 b }),
      (λ v. version.1 (bounds.1 (v.version_low, v.version_high), chain.1 v.chain)),
    )
