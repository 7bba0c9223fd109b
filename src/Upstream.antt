-- ===== src/Upstream.antt =====
-- The resolver of a node's attributes: ConfigFromNodeAttrs of internal/domain/upstream.go.
-- encoding/json is a parameter: what it reads the attribute and one of its entries as.
pub mod Agreed
mod Examples
use ts_domain_gateway.Common.{
  Bool, true, false, not, ◌&&◌, ◌||◌, List, [], ◌∷◌, Option, none, some, length, ◌==◌, nat_eq,
  list_eq, if◌then◌else◌,
}
use ts_domain_gateway.GoText.{Bytes, codes}
use ts_domain_gateway.Resolver.{normalize_resolver}

pub record NodeConfig : Type 0 where
  pub upstream_dns : Bytes
  pub has_upstream_dns : Bool

pub record NodeFields : Type 0 where
  pub upstream_dns : Bytes
  pub gateways : Option Bytes

pub record NodeDecoder : Type 0 where
  pub entries : Bytes → Option (List Bytes)
  pub node_fields : Bytes → Option NodeFields

abbrev pub is_some {ℓ} : {A : Type ℓ} → Option A → Bool
is_some none = false
is_some (some _) = true

module _ (json : NodeDecoder) (parse_ip : Bytes → Bool) where
  -- One round of the loop over the values; `none` is its return with false.
  unfoldable pub read_node : Bytes → NodeConfig → Option NodeConfig
  read_node raw result = elim (json.node_fields raw) [
    | none ↦ none
    | some f ↦
        if length f.upstream_dns == 0 || is_some f.gateways
        then none
        else elim (normalize_resolver parse_ip f.upstream_dns) [
          | none ↦ none
          | some resolver ↦
              if not (length result.upstream_dns == 0) && not (result.upstream_dns == resolver)
              then none
              else some (record { upstream_dns = resolver; has_upstream_dns = true })
        ]
  ]

  unfoldable pub read_nodes : List Bytes → NodeConfig → Option NodeConfig
  unfolding read_node
  read_nodes [] result = some result
  read_nodes (raw ∷ values) result = elim (read_node raw result) [
    | none ↦ none
    | some result' ↦ read_nodes values result'
  ]

  unfoldable pub config_from_node_attrs : Option Bytes → Option NodeConfig
  unfolding read_nodes
  config_from_node_attrs none =
      some (record { upstream_dns = codes "system"; has_upstream_dns = false })
  config_from_node_attrs (some raw) = elim (json.entries raw) [
    | none ↦ none
    | some values ↦
        if length values == 0
        then none
        else read_nodes values (record { upstream_dns = []; has_upstream_dns = false })
  ]
