-- ===== src/Tags/Meaning.antt =====
-- What a tag expression selects, part by part.
use mathlib.Core.Path.{fun_ext}
use ts_domain_gateway.Common.{
  ◌-◌, ◌≡◌, ◌∙◌, ◌↔◌, ◌⊎◌, refl, ap, Bool, true, false, not, ◌&&◌, ◌||◌, List, [], ◌∷◌, ◌++◌, none,
  some, length, take, drop, all, any, all-append, any-append, length-append, ◌==◌, nat_eq, list_eq,
  if◌then◌else◌, arith, Option-cases, Bool-cases, inl, inr,
}
use ts_domain_gateway.GoText.{Bytes, codes, has_prefix, split_text}
use ts_domain_gateway.Tags.{
  TaggedNode, has_tag, Expression, no_dash, tag_key, read_options, add_choice, read_parts, selects,
  addresses, parts_of, tag_expression, resolve_tags,
}

module _ (node : TaggedNode) where
  abbrev misses : Bytes → Bool
  misses tag = not (has_tag node tag)

  -- The node has no tag that an option excludes.
  abbrev pub clears : List Bytes → Bool
  clears [] = true
  clears (tag ∷ opts) =
      (if has_prefix tag no_dash then not (has_tag node (tag_key (drop 3 tag))) else true)
      && clears opts

  -- The node has a tag that an option names.
  abbrev pub meets : List Bytes → Bool
  meets [] = false
  meets (tag ∷ opts) =
      (if has_prefix tag no_dash then false else has_tag node (tag_key tag)) || meets opts

  abbrev pub names_none : List Bytes → Bool
  names_none [] = true
  names_none (tag ∷ opts) = has_prefix tag no_dash && names_none opts

  -- One part of a name: options joined by `-or-`.
  abbrev pub holds : Bytes → Bool
  holds part =
      let opts = split_text part (codes "-or-") in clears opts && (names_none opts || meets opts)

  options_lem :
      (opts pos ex pos' ex' : List Bytes)
      → read_options opts pos ex ≡ some (pos', ex')
      → (all misses ex' ≡ (all misses ex && clears opts))
        × (any (has_tag node) pos' ≡ (any (has_tag node) pos || meets opts))
        × ((length pos' == 0) ≡ (length pos == 0 && names_none opts))
  unfolding read_options
  options_lem [] pos ex pos' ex' e = ground (arith, e)
  options_lem (tag ∷ opts) pos ex pos' ex' e = elim (Bool-cases (has_prefix tag no_dash)) [
    | inl out ↦
        let more = ex ++ tag_key (drop 3 tag) ∷ [] in
        ground (
          arith,
          out,
          options_lem opts pos more pos' ex',
          all-append misses ex (tag_key (drop 3 tag) ∷ []),
        )
    | inr in_ ↦
        let more = pos ++ tag_key tag ∷ [] in
        ground (
          arith,
          in_,
          options_lem opts more ex pos' ex',
          any-append (has_tag node) pos (tag_key tag ∷ []),
          length-append pos (tag_key tag ∷ []),
        )
  ]

  add_choice-selects :
      (pos : List Bytes) (e : Expression)
      → selects (add_choice pos e) node
        ≡ (selects e node && (length pos == 0 || any (has_tag node) pos))
  unfolding selects add_choice
  add_choice-selects [] e = ground arith
  add_choice-selects (a ∷ []) e = ground (arith, all-append (has_tag node) e.required (a ∷ []))
  add_choice-selects (a ∷ b ∷ pos) e = ground (
    arith,
    all-append (λ (choices : List Bytes). any (has_tag node) choices) e.either ((a ∷ b ∷ pos) ∷ []),
  )

  excluded-selects :
      (e : Expression) (ex : List Bytes) (c : Bool)
      → all misses ex ≡ (all misses e.excluded && c)
      → selects (record e { excluded = ex }) node ≡ (selects e node && c)
  unfolding selects
  excluded-selects e ex c h = ground (arith, h)

  parts-selects :
      (parts : List Bytes) (e e' : Expression)
      → read_parts parts e ≡ some e'
      → selects e' node ≡ (selects e node && all holds parts)
  unfolding read_parts
  parts-selects [] e e' h = ground (arith, h)
  parts-selects (part ∷ parts) e e' h =
      elim (Option-cases (read_options (split_text part (codes "-or-")) [] e.excluded)) [
        | inl f ↦ absurd (ground (arith, f, h))
        | inr ((pos, excluded), f) ↦
            let (clear, met, none_named) =
              options_lem (split_text part (codes "-or-")) [] e.excluded pos excluded f in
            ground (
              arith,
              f,
              h,
              clear,
              met,
              none_named,
              parts-selects parts (add_choice pos (record e { excluded = excluded })) e',
              add_choice-selects pos (record e { excluded = excluded }),
              excluded-selects e excluded (clears (split_text part (codes "-or-"))),
            )
      ]

-- A name that is answered as a tag expression gives the addresses of the nodes at which every part
-- of it holds: no excluded tag is there, and one of the named ones if any is named.
pub tag_expression-holds :
    (wide : Bytes → Bytes) (name : Bytes) (nodes : List TaggedNode) {out : List Bytes}
    → tag_expression wide name nodes ≡ some out
    → out
      ≡ addresses
          (λ node. all (holds node) (take (length (parts_of wide name) - 1) (parts_of wide name)))
          nodes
unfolding tag_expression
tag_expression-holds wide name nodes {out} h =
    let front = take (length (parts_of wide name) - 1) (parts_of wide name) in
    let start : Expression = record { required = []; either = []; excluded = [] } in
    elim (Option-cases (read_parts front start)) [
      | inl f ↦ absurd (ground (arith, f, h))
      | inr (e, f) ↦
          let got : out ≡ addresses (selects e) nodes = ground (arith, f, h) in
          let same : selects e ≡ (λ node. all (holds node) front) =
            fun_ext (λ node. parts-selects node front start e f ∙ unfold selects in refl) in
          got ∙ ap (λ (p : TaggedNode → Bool). addresses p nodes) same
    ]

-- Whether a name is a tag request does not depend on the inventory: ResolveTags answers it, with no
-- address, when the inventory cannot be read exactly if it would answer it with one.
pub resolve_tags_unavailable :
    (wide : Bytes → Bytes) (name : Bytes) (nodes : List TaggedNode)
    → ((resolve_tags wide name none ≡ none) ↔ (resolve_tags wide name (some nodes) ≡ none))
      × ((resolve_tags wide name none ≡ none) ⊎ (resolve_tags wide name none ≡ some []))
unfolding resolve_tags
resolve_tags_unavailable wide name nodes =
    let front = take (length (parts_of wide name) - 1) (parts_of wide name) in
    elim (Option-cases (read_parts front (record { required = []; either = []; excluded = [] }))) [
      | inl f ↦ ground (arith, f)
      | inr (e, f) ↦ ground (arith, f)
    ]
