-- ===== src/Types/Deployment.antt =====
-- developer_experience/sdk/python/nuzon/types.py: which templates DeploymentSpec accepts.
use qervan_ai.Common.Fields.{
  build, refuse_unless, in_bounds, sized, build-ok, refuse_unless-nil, refuse_unless-last,
  in_bounds_iff, sized_iff,
}
use qervan_ai.Common.{
  ◌∷◌, String, List, ◌&&◌, ℕ, [], ◌++◌, ok, ◌≡◌, ◌↔◌, arith, length, every, every-All, All, &&_iff,
}
use qervan_ai.Common.Int.{ℤ, pos, ◌≤ℤ◌}

pub record DeploymentSpec : Type 0 where
  pub min_replicas : ℤ
  pub max_replicas : ℤ
  pub scaling : List ℤ
  pub availability_zones : List ℤ

unfoldable pub deployment_spec_errors : DeploymentSpec → List String
unfolding every
deployment_spec_errors d =
    refuse_unless (in_bounds 1 1000 d.min_replicas) "min_replicas"
    ++ (refuse_unless (in_bounds 1 1000 d.max_replicas) "max_replicas"
        ++ (refuse_unless (sized 2 2 d.scaling && every (in_bounds 1 100) d.scaling) "scaling"
            ++ refuse_unless (every (in_bounds 1 3) d.availability_zones) "availability_zones"))

-- The defaults of the fields.
unfoldable pub default_deployment : DeploymentSpec
default_deployment = record {
  min_replicas = pos 3;
  max_replicas = pos 100;
  scaling = pos 50 ∷ pos 80 ∷ [];
  availability_zones = pos 1 ∷ pos 2 ∷ pos 3 ∷ [];
}

abbrev pub Within : ℕ → ℕ → ℤ → Type 0
Within a b v = (pos a ≤ℤ v) × (v ≤ℤ pos b)

-- The two numbers of replicas are bounded, and not related to each other.
pub record ValidDeployment (d : DeploymentSpec) : Type 0 where
  pub min_replicas : Within 1 1000 d.min_replicas
  pub max_replicas : Within 1 1000 d.max_replicas
  pub pair : length d.scaling ≡ 2
  pub scaling : All (Within 1 100) d.scaling
  pub zones : All (Within 1 3) d.availability_zones

module _ (d : DeploymentSpec) where
  deployment_spec_errors-nil : (deployment_spec_errors d ≡ []) ↔ ValidDeployment d
  unfolding deployment_spec_errors
  deployment_spec_errors-nil =
      let zones_ok = every (in_bounds 1 3) d.availability_zones in
      let scaling_ok = sized 2 2 d.scaling && every (in_bounds 1 100) d.scaling in
      let last = refuse_unless zones_ok "availability_zones" in
      let rest = refuse_unless scaling_ok "scaling" ++ last in
      let low =
        refuse_unless-nil (in_bounds 1 1000 d.min_replicas) "min_replicas"
          (refuse_unless (in_bounds 1 1000 d.max_replicas) "max_replicas" ++ rest) in
      let high = refuse_unless-nil (in_bounds 1 1000 d.max_replicas) "max_replicas" rest in
      let scaling = refuse_unless-nil scaling_ok "scaling" last in
      let zones = refuse_unless-last zones_ok "availability_zones" in
      let both = &&_iff (sized 2 2 d.scaling) (every (in_bounds 1 100) d.scaling) in
      let two = sized_iff 2 2 d.scaling in
      let percents = every-All (in_bounds 1 100) (Within 1 100) (in_bounds_iff 1 100) d.scaling in
      let numbers =
        every-All (in_bounds 1 3) (Within 1 3) (in_bounds_iff 1 3) d.availability_zones in
      let least = in_bounds_iff 1 1000 d.min_replicas in
      let most = in_bounds_iff 1 1000 d.max_replicas in
      (
        (λ h.
            let (a, h1) = low.0 h in
            let (b, h2) = high.0 h1 in
            let (s, h3) = scaling.0 h2 in
            let (t, u) = both.0 s in
            let (at_least_two, at_most_two) = two.0 t in
            record {
              min_replicas = least.0 a;
              max_replicas = most.0 b;
              pair = omega (arith, at_least_two, at_most_two);
              scaling = percents.0 u;
              zones = numbers.0 (zones.0 h3);
            }),
        (λ v.
            let t = two.1 (omega (arith, v.pair), omega (arith, v.pair)) in
            let s = both.1 (t, percents.1 v.scaling) in
            let z = zones.1 (numbers.1 v.zones) in
            low.1 (least.1 v.min_replicas, high.1 (most.1 v.max_replicas, scaling.1 (s, z)))),
      )

  -- DeploymentSpec accepts its fields exactly if both numbers of replicas are from 1 to 1000, `scaling` has two
  -- numbers from 1 to 100, and every zone is from 1 to 3.
  pub deployment_spec_iff : (build deployment_spec_errors d ≡ ok d) ↔ ValidDeployment d
  deployment_spec_iff =
      let built = build-ok deployment_spec_errors d in
      (
        (λ h. deployment_spec_errors-nil.0 (built.0 h)),
        (λ v. built.1 (deployment_spec_errors-nil.1 v)),
      )
