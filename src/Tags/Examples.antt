-- ===== src/Tags/Examples.antt =====
-- Two nodes and two tag names.
use ts_domain_gateway.Common.{◌-◌, ◌≡◌, refl, List, [], ◌∷◌, some, length, take, all}
use ts_domain_gateway.GoText.{
  Bytes, codes, split, split_text, has_prefix, to_lower, trim_suffix, has_suffix, is_ascii,
}
use ts_domain_gateway.Tags.{
  TaggedNode, tag_expression, addresses, parts_of, read_parts, read_options, add_choice, selects,
}
use ts_domain_gateway.Tags.Meaning.{holds, tag_expression-holds}

abbrev keep : Bytes → Bytes
keep s = s

abbrev nodes : List TaggedNode
nodes =
    record { address = codes "100.64.0.1"; tags = codes "tag:web" ∷ codes "tag:old" ∷ [] }
    ∷ record { address = codes "100.64.0.2"; tags = codes "tag:db" ∷ [] }
    ∷ []

abbrev query : Bytes
query = codes "web-or-db.no-old.tags."

tag_expression_run : tag_expression keep query nodes ≡ some (codes "100.64.0.2" ∷ [])
unfolding tag_expression read_parts read_options add_choice selects addresses split split_text
    has_prefix to_lower trim_suffix has_suffix is_ascii
tag_expression_run = refl

tag_expression-holds_example :
    codes "100.64.0.2" ∷ []
    ≡ addresses
        (λ node. all (holds node) (take (length (parts_of keep query) - 1) (parts_of keep query)))
        nodes
tag_expression-holds_example = tag_expression-holds keep query nodes tag_expression_run
