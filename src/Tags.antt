-- ===== src/Tags.antt =====
-- Tag expressions: TagExpression and ResolveTags of internal/domain/tags.go. The tags of a node, a
-- Go map to empty structs, are the list of its keys.
pub mod Meaning
pub mod Inventory
mod Examples
use ts_domain_gateway.Common.{
  ℕ, ◌-◌, Bool, true, false, not, ◌&&◌, ◌||◌, List, [], ◌∷◌, ◌++◌, Option, none, some, length, take,
  drop, get_or, all, any, ltb, ◌==◌, nat_eq, list_eq, if◌then◌else◌,
}
use ts_domain_gateway.GoText.{
  Bytes, codes, dot, has_prefix, split, split_text, trim_suffix, to_lower,
}

pub record TaggedNode : Type 0 where
  pub address : Bytes
  pub tags : List Bytes

abbrev pub has_tag : TaggedNode → Bytes → Bool
has_tag node tag = any (λ t. t == tag) node.tags

-- The local variables `required`, `either` and `excluded`.
pub record Expression : Type 0 where
  pub required : List Bytes
  pub either : List (List Bytes)
  pub excluded : List Bytes

abbrev pub no_dash : Bytes
no_dash = codes "no-"

abbrev pub tag_key : Bytes → Bytes
tag_key tag = codes "tag:" ++ tag

-- The loop over the options of one part, with `pos` and `excluded`.
unfoldable pub read_options :
    List Bytes → List Bytes → List Bytes → Option (List Bytes × List Bytes)
unfolding has_prefix
read_options [] pos excluded = some (pos, excluded)
read_options (tag ∷ opts) pos excluded =
    let without = read_options opts pos (excluded ++ tag_key (drop 3 tag) ∷ []) in
    let with = read_options opts (pos ++ tag_key tag ∷ []) excluded in
    if length tag == 0
    then none
    else if has_prefix tag no_dash
    then (if length tag == 3 then none else without)
    else with

-- What follows that loop.
unfoldable pub add_choice : List Bytes → Expression → Expression
add_choice pos e =
    if length pos == 1
    then record e { required = e.required ++ pos }
    else if ltb 1 (length pos)
    then record e { either = e.either ++ pos ∷ [] }
    else e

unfoldable pub read_parts : List Bytes → Expression → Option Expression
unfolding read_options split_text add_choice
read_parts [] e = some e
read_parts (part ∷ parts) e = elim (read_options (split_text part (codes "-or-")) [] e.excluded) [
  | none ↦ none
  | some (pos, excluded) ↦ read_parts parts (add_choice pos (record e { excluded = excluded }))
]

-- The body of the loop over the nodes.
unfoldable pub selects : Expression → TaggedNode → Bool
selects e node =
    all (has_tag node) e.required
    && all (λ choices. any (has_tag node) choices) e.either
    && all (λ tag. not (has_tag node tag)) e.excluded

unfoldable pub addresses : (TaggedNode → Bool) → List TaggedNode → List Bytes
addresses chosen [] = []
addresses chosen (node ∷ nodes) =
    if chosen node then node.address ∷ addresses chosen nodes else addresses chosen nodes

abbrev pub parts_of : (Bytes → Bytes) → Bytes → List Bytes
parts_of wide name = split (trim_suffix (to_lower wide name) (dot ∷ [])) dot

abbrev pub is_tag_name : List Bytes → Bool
is_tag_name parts =
    not (ltb (length parts) 2 || not (get_or parts (length parts - 1) [] == codes "tags"))

-- `none` is the result that is no tag request. `wide` is as for NormalName.
unfoldable pub tag_expression : (Bytes → Bytes) → Bytes → List TaggedNode → Option (List Bytes)
unfolding read_parts selects addresses
tag_expression wide name nodes =
    let parts = parts_of wide name in
    if is_tag_name parts
    then elim (read_parts (take (length parts - 1) parts)
        (record { required = []; either = []; excluded = [] })) [
          | none ↦ none
          | some e ↦ some (addresses (selects e) nodes)
        ]
    else none

-- `none` is an inventory that cannot be read.
unfoldable pub resolve_tags :
    (Bytes → Bytes) → Bytes → Option (List TaggedNode) → Option (List Bytes)
unfolding tag_expression
resolve_tags wide name none = elim (tag_expression wide name []) [ none ↦ none | some _ ↦ some [] ]
resolve_tags wide name (some nodes) = tag_expression wide name nodes
