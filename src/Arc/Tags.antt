-- ===== src/Arc/Tags.antt =====
-- services/multi_cloud_mesh/service_sync/azure_arc.py: what connect_cluster writes.
use qervan_ai.Common.{
  ◌⊎◌, List, [], ◌∷◌, Memᴰ, Result, ok, ◌≡◌, refl, Text, Result-cases, inl, inr, subst,
}
use mathlib.Core.List.Memᴰ
use qervan_ai.Arc.{
  ArcError, Azure, Resource, Parameters, Call, QueryData, Settings, run_query, get_resource,
  update_resource, apply_tags, properties_of, connect_cluster, query_of, parse_rg,
}

module _ {V : Type 0} (azure : Azure V) where
  -- What a write of the tags replaces.
  abbrev pub Retagged : Text → Settings → Text → Parameters V → Type 0
  Retagged resource_id tags i r =
      (i ≡ resource_id)
      × (old : Resource V) × (azure.get_by_id resource_id ≡ ok old)
      × (r ≡ record { location = old.location; tags = tags; properties = old.properties })

  abbrev retag : Settings → Resource V → Parameters V
  retag tags old = record { location = old.location; tags = tags; properties = old.properties }

  abbrev reads : Text → List (Call V)
  reads resource_id = get_resource resource_id ∷ []

  abbrev writes : Text → Settings → Resource V → List (Call V)
  writes resource_id tags old =
      get_resource resource_id ∷ update_resource resource_id (retag tags old) ∷ []

  apply_tags-calls :
      (resource_id : Text) (tags : Settings)
      → ((apply_tags azure resource_id tags).1 ≡ [])
        ⊎ (((apply_tags azure resource_id tags).1 ≡ reads resource_id)
            ⊎ ((old : Resource V) × (azure.get_by_id resource_id ≡ ok old)
                × ((apply_tags azure resource_id tags).1 ≡ writes resource_id tags old)))
  unfolding apply_tags
  apply_tags-calls resource_id tags = elim (Result-cases (parse_rg resource_id)) [
    | inr (e, short) ↦ inl (rw (short, apply_tags) refl)
    | inl (resource_group, parsed) ↦ elim (Result-cases (azure.get_by_id resource_id)) [
      | inr (e, failed) ↦ inr (inl (rw (parsed, failed, apply_tags) refl))
      | inl (old, got) ↦ inr (inr (old, got, rw (parsed, got, apply_tags) refl))
    ]
  ]

  apply_tags-updates :
      (resource_id : Text) (tags : Settings) (i : Text) (r : Parameters V)
      → Memᴰ (update_resource i r) (apply_tags azure resource_id tags).1
      → Retagged resource_id tags i r
  apply_tags-updates resource_id tags i r m = elim (apply_tags-calls resource_id tags) [
    | inl nothing_called ↦
        absurd (Memᴰ.not-nil (subst (Memᴰ (update_resource i r)) nothing_called m))
    | inr (inl read_only) ↦
        elim (Memᴰ.cases_cons (subst (Memᴰ (update_resource i r)) read_only m)) [
          | inl same ↦ cc
          | inr later ↦ absurd (Memᴰ.not-nil later)
        ]
    | inr (inr (old, got, written)) ↦
        elim (Memᴰ.cases_cons (subst (Memᴰ (update_resource i r)) written m)) [
          | inl same ↦ cc
          | inr later ↦ elim (Memᴰ.cases_cons later) [
            | inl same ↦ (cc, old, got, cc)
            | inr end ↦ absurd (Memᴰ.not-nil end)
          ]
        ]
  ]

  module _ {J : Type 0} (loads : Text → Result ArcError J) where
    connect_cluster-calls :
        (id : Text) (tags : Settings)
        → ((connect_cluster azure loads id tags).1 ≡ run_query (query_of id) ∷ [])
          ⊎ ((found : QueryData) × (cluster_data : J) × (azure.resources (query_of id) ≡ ok found)
              × (properties_of loads found ≡ ok cluster_data)
              × ((connect_cluster azure loads id tags).1
                  ≡ run_query (query_of id) ∷ (apply_tags azure id tags).1))
    unfolding connect_cluster
    connect_cluster-calls id tags = elim (Result-cases (azure.resources (query_of id))) [
      | inr (e, failed) ↦ inl (rw (failed, connect_cluster) refl)
      | inl (found, answered) ↦ elim (Result-cases (properties_of loads found)) [
        | inr (e, refused) ↦ inl (rw (answered, refused, connect_cluster) refl)
        | inl (cluster_data, read) ↦
            inr (found, cluster_data, answered, read, rw (answered, read, connect_cluster) refl)
      ]
    ]

    -- What connect_cluster writes is written under the given id, and has the location and the properties
    -- of the resource that the service gave for this id, and the given tags in place of all that it had;
    -- and it is written only where the query has found a row with properties that are read as JSON.
    pub connect_cluster-updates :
        (id : Text) (tags : Settings) (i : Text) (r : Parameters V)
        → Memᴰ (update_resource i r) (connect_cluster azure loads id tags).1
        → Retagged id tags i r
          × ((found : QueryData) × (cluster_data : J) × (azure.resources (query_of id) ≡ ok found)
              × (properties_of loads found ≡ ok cluster_data))
    connect_cluster-updates id tags i r m = elim (connect_cluster-calls id tags) [
      | inl query_only ↦ elim (Memᴰ.cases_cons (subst (Memᴰ (update_resource i r)) query_only m)) [
        | inl same ↦ cc
        | inr later ↦ absurd (Memᴰ.not-nil later)
      ]
      | inr (found, cluster_data, answered, read, called) ↦
          elim (Memᴰ.cases_cons (subst (Memᴰ (update_resource i r)) called m)) [
            | inl same ↦ cc
            | inr later ↦
                (apply_tags-updates id tags i r later, (found, cluster_data, answered, read))
          ]
    ]
