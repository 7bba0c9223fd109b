-- ===== src/Roles/Egress/Names.antt =====
-- lookupPTR of cmd/domain-gateway/main.go, for the resolvers that a tsnet egress has. `lookup` is the
-- answer of a resolver, over the dialer that is chosen for it, with `none` for an error.
use ts_domain_gateway.Common.{
  ◌≡◌, refl, ap, ◌∙◌, inl, inr, not, List, [], ◌∷◌, ◌++◌, Option, none, some, length, All, ◌==◌,
  nat_eq, if◌then◌else◌, arith, Option-cases,
}
use ts_domain_gateway.GoText.{Bytes}

-- The loop, with the last answer as the result of all.
unfoldable pub lookup_ptr :
    (Bytes → Option (List Bytes)) → List Bytes → Option (List Bytes) → Option (List Bytes)
lookup_ptr lookup [] last = last
lookup_ptr lookup (resolver ∷ resolvers) last =
    let answer = lookup resolver in
    let later = lookup_ptr lookup resolvers answer in
    elim answer [
      | none ↦ later
      | some names ↦ if not (length names == 0) then some names else later
    ]

-- An answer without names.
abbrev pub IsSilent : Option (List Bytes) → Type 0
IsSilent none = Unit {0}
IsSilent (some names) = names ≡ []

-- `resolvers` has one that gives the names, behind some that give none.
pub record IsFirst (lookup : Bytes → Option (List Bytes)) (resolvers names : List Bytes)
    : Type 0 where
  pub before : List Bytes
  pub resolver : Bytes
  pub after : List Bytes
  pub split : resolvers ≡ before ++ resolver ∷ after
  pub answered : lookup resolver ≡ some names
  pub silent : All (λ r. IsSilent (lookup r)) before

module _ (lookup : Bytes → Option (List Bytes)) where
  later-IsFirst :
      (resolver : Bytes) (resolvers names : List Bytes)
      → IsSilent (lookup resolver)
      → IsFirst lookup resolvers names
      → IsFirst lookup (resolver ∷ resolvers) names
  later-IsFirst resolver resolvers names silent f = record {
    before = resolver ∷ f.before;
    resolver = f.resolver;
    after = f.after;
    split = ap (λ rs. resolver ∷ rs) f.split;
    answered = f.answered;
    silent = (silent, f.silent);
  }

  -- If a lookup gives names, then they are the answer of the first resolver that gives any: the resolvers
  -- before it fail or give none.
  pub lookup_ptr-IsFirst :
      (resolvers : List Bytes) (last : Option (List Bytes)) {name : Bytes} {names : List Bytes}
      → IsSilent last
      → lookup_ptr lookup resolvers last ≡ some (name ∷ names)
      → IsFirst lookup resolvers (name ∷ names)
  unfolding lookup_ptr
  lookup_ptr-IsFirst [] none silent h = absurd (ground (arith, h))
  lookup_ptr-IsFirst [] (some given) silent h = absurd (ground (arith, silent, h))
  lookup_ptr-IsFirst (resolver ∷ resolvers) last {name} {names} silent h =
      elim (Option-cases (lookup resolver)) [
        | inl e ↦
            let quiet : IsSilent (lookup resolver) = rw e tt in
            later-IsFirst resolver resolvers _ quiet
              (lookup_ptr-IsFirst resolvers (lookup resolver) quiet (ground (arith, e, h)))
        | inr ([], e) ↦
            let quiet : IsSilent (lookup resolver) = rw e refl in
            later-IsFirst resolver resolvers _ quiet
              (lookup_ptr-IsFirst resolvers (lookup resolver) quiet (ground (arith, e, h)))
        | inr (found ∷ more, e) ↦ record {
          before = [];
          resolver = resolver;
          after = resolvers;
          split = refl;
          answered = e ∙ ground (arith, e, h);
          silent = tt;
        }
      ]
