-- ===== src/Arc/Ids.antt =====
-- services/multi_cloud_mesh/service_sync/azure_arc.py: the parsing of resource ids.
use qervan_ai.Common.{
  ℕ, false, List, [], ◌∷◌, ◌++◌, some, ok, ◌≡◌, refl, ◌∙◌, ap, Text, codes, contains, ◌==◌, All,
  arith, get_elem?,
}
use qervan_ai.Arc.{split, last_of, parse_rg, parse_name}

-- sep.join(parts)
abbrev pub join : ℕ → List Text → Text
join sep [] = []
join sep (part ∷ []) = part
join sep (part ∷ next ∷ parts) = part ++ (sep ∷ join sep (next ∷ parts))

-- The id of a connected cluster, as the file's example writes one.
abbrev pub cluster_id : (subscription resource_group name : Text) → Text
cluster_id subscription resource_group name = join b'/' (
    []
    ∷ codes "subscriptions"
    ∷ subscription
    ∷ codes "resourceGroups"
    ∷ resource_group
    ∷ codes "providers"
    ∷ codes "Microsoft.Kubernetes"
    ∷ codes "connectedClusters"
    ∷ name
    ∷ [])

abbrev pub IsSegment : ℕ → Text → Type 0
IsSegment sep part = contains part sep ≡ false

split-segment : (sep : ℕ) (part : Text) → IsSegment sep part → split sep part ≡ part ∷ []
unfolding split
split-segment sep [] h = refl
split-segment sep (c ∷ cs) h =
    let here : (c == sep) ≡ false = ground (arith, h) in
    let later : contains cs sep ≡ false = ground (arith, h) in
    rw (here, split-segment sep cs later) refl

split-append :
    (sep : ℕ) (part rest : Text)
    → IsSegment sep part
    → split sep (part ++ (sep ∷ rest)) ≡ part ∷ split sep rest
unfolding split
split-append sep [] rest h = ground arith
split-append sep (c ∷ cs) rest h =
    let here : (c == sep) ≡ false = ground (arith, h) in
    let later : contains cs sep ≡ false = ground (arith, h) in
    rw (here, split-append sep cs rest later) refl

split-join :
    (sep : ℕ) (part : Text) (parts : List Text)
    → All (IsSegment sep) (part ∷ parts)
    → split sep (join sep (part ∷ parts)) ≡ part ∷ parts
split-join sep part [] h = split-segment sep part h.0
split-join sep part (next ∷ parts) h =
    split-append sep part (join sep (next ∷ parts)) h.0
    ∙ ap (λ ps. part ∷ ps) (split-join sep next parts h.1)

parse_rg-split :
    (t : Text) (parts : List Text) {part : Text}
    → split b'/' t ≡ parts
    → get_elem? parts 4 ≡ some part
    → parse_rg t ≡ ok part
unfolding parse_rg
parse_rg-split t parts cut found = rw (cut, found, parse_rg) refl

parse_name-split :
    (t : Text) (parts : List Text) → split b'/' t ≡ parts → parse_name t ≡ last_of parts
unfolding parse_name
parse_name-split t parts cut = ap last_of cut

-- From the id of a cluster whose subscription, group and name have no slash, the code reads back the group
-- and the name.
pub parse-cluster_id :
    (subscription resource_group name : Text)
    → IsSegment b'/' subscription
    → IsSegment b'/' resource_group
    → IsSegment b'/' name
    → (parse_rg (cluster_id subscription resource_group name) ≡ ok resource_group)
      × (parse_name (cluster_id subscription resource_group name) ≡ name)
parse-cluster_id subscription resource_group name hs hg hn =
    let parts =
      split-join b'/' []
        (codes "subscriptions"
          ∷ subscription
          ∷ codes "resourceGroups"
          ∷ resource_group
          ∷ codes "providers"
          ∷ codes "Microsoft.Kubernetes"
          ∷ codes "connectedClusters"
          ∷ name
          ∷ [])
        (refl, (refl, (hs, (refl, (hg, (refl, (refl, (refl, (hn, tt))))))))) in
    (
      parse_rg-split (cluster_id subscription resource_group name) _ parts refl,
      parse_name-split (cluster_id subscription resource_group name) _ parts,
    )
