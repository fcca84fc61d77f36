-- ===== src/Arc/Deploy.antt =====
-- services/multi_cloud_mesh/service_sync/azure_arc.py: deploy_extension and enforce_policy.
use qervan_ai.Common.{
  List, [], ◌∷◌, ◌++◌, Option, none, some, Result, ok, err, if◌then◌else◌, Text, codes,
}
use qervan_ai.Arc.{
  ArcError, name_error, key_error, Azure, Call, Run, Settings, HelmChart, Extension, Policy,
  starts_with, parse_rg, parse_name, create_extension, create_assignment,
}

abbrev pub secure_only : Settings → Settings
secure_only [] = []
secure_only ((k, v) ∷ settings) =
    let rest = secure_only settings in
    if starts_with (codes "secure.") k then (k, v) ∷ rest else rest

module _ {V : Type 0} (azure : Azure V) where
  unfoldable pub deploy_extension :
      (cluster_resource_id extension_name : Text)
      → (config_settings : Settings) → HelmChart
      → Run V V
  unfolding parse_rg parse_name
  deploy_extension cluster_resource_id extension_name config_settings helm_chart =
      elim helm_chart.repo [
        | none ↦ (err key_error, [])
        | some repo ↦ elim helm_chart.version [
          | none ↦ (err key_error, [])
          | some version ↦ elim (parse_rg cluster_resource_id) [
            | err e ↦ (err e, [])
            | ok resource_group ↦
                let extension : Extension = record {
                  resource_group = resource_group;
                  cluster_name = parse_name cluster_resource_id;
                  extension_name = extension_name;
                  instance_name = extension_name ++ codes "-instance";
                  repository_url = repo;
                  chart_version = version;
                  values_text = helm_chart.chart_values;
                  protected_settings = secure_only config_settings;
                } in
                (azure.create extension, create_extension extension ∷ [])
          ]
        ]
      ]

module _ {V : Type 0} where
  -- The loop of enforce_policy, over `create_policy` of a client: the display names of the assignments.
  unfoldable pub assign_all :
      (create_policy : (scope assignment_name policy_definition_id : Text) → Result ArcError Text)
      → (cluster_resource_id : Text) → List Policy
      → Run V (List Text)
  assign_all create_policy cluster_resource_id [] = (ok [], [])
  assign_all create_policy cluster_resource_id (policy ∷ policies) = elim policy.name [
    | none ↦ (err key_error, [])
    | some name ↦ elim policy.id [
      | none ↦ (err key_error, [])
      | some id ↦
          let assignment_name = codes "nuzon-" ++ name in
          let call : Call V = create_assignment cluster_resource_id assignment_name id in
          elim (create_policy cluster_resource_id assignment_name id) [
            | err e ↦ (err e, call ∷ [])
            | ok display_name ↦
                let (outcome, calls) = assign_all create_policy cluster_resource_id policies in
                (
                  elim outcome [ err e ↦ err e | ok names ↦ ok (display_name ∷ names) ],
                  call ∷ calls,
                )
          ]
    ]
  ]

  -- PolicyClient is used and not imported: `client` is `none` where the name is not found.
  unfoldable pub enforce_policy :
      (client : Option ((scope assignment_name policy_definition_id : Text) → Result ArcError Text))
      → (cluster_resource_id : Text) → List Policy
      → Run V (List Text)
  unfolding assign_all
  enforce_policy none cluster_resource_id policy_definitions = (err name_error, [])
  enforce_policy (some create_policy) cluster_resource_id policy_definitions =
      assign_all create_policy cluster_resource_id policy_definitions
