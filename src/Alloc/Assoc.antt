-- ===== src/Alloc/Assoc.antt =====
-- Maps as association lists. A key may stand in a list more than once: the first entry counts.
use ts_domain_gateway.Common.{
  ◌≡◌, refl, List, [], ◌∷◌, Option, none, some, arith, Eq, ◌==◌, eq_iff, if◌then◌else◌,
}

abbrev pub Dict {ℓ κ} : Type ℓ → Type κ → Type (ℓ ⊔ κ)
Dict K V = List (K × V)

module _ {ℓ κ} {K : Type ℓ} {V : Type κ} ⦃e : Eq K⦄ where
  unfoldable pub lookup : K → Dict K V → Option V
  lookup k [] = none
  lookup k ((j, v) ∷ rest) = if j == k then some v else lookup k rest

  unfoldable pub insert : K → V → Dict K V → Dict K V
  insert k v [] = (k, v) ∷ []
  insert k v ((j, held) ∷ rest) = if j == k then (k, v) ∷ rest else (j, held) ∷ insert k v rest

  unfoldable pub delete : K → Dict K V → Dict K V
  delete k [] = []
  delete k ((j, held) ∷ rest) = if j == k then delete k rest else (j, held) ∷ delete k rest

  pub lookup-insert :
      (k j : K) (v : V) (rest : Dict K V)
      → lookup j (insert k v rest) ≡ (if k == j then some v else lookup j rest)
  unfolding lookup insert
  lookup-insert k j v [] = refl
  lookup-insert k j v ((i, held) ∷ rest) =
      ground (arith, eq_iff k j, eq_iff i k, eq_iff i j, lookup-insert k j v rest)

  pub lookup-delete :
      (k j : K) (rest : Dict K V)
      → lookup j (delete k rest) ≡ (if k == j then none else lookup j rest)
  unfolding lookup delete
  lookup-delete k j [] = ground arith
  lookup-delete k j ((i, held) ∷ rest) =
      ground (arith, eq_iff k j, eq_iff i k, eq_iff i j, lookup-delete k j rest)

  pub lookup-insert_same : (k : K) (v : V) (rest : Dict K V) → lookup k (insert k v rest) ≡ some v
  lookup-insert_same k v rest = ground (arith, lookup-insert k k v rest, eq_iff k k)

  pub lookup-insert_keep :
      (k j : K) (v : V) {held : V} (rest : Dict K V)
      → lookup k rest ≡ none
      → lookup j rest ≡ some held
      → lookup j (insert k v rest) ≡ some held
  lookup-insert_keep k j v rest n e = ground (arith, lookup-insert k j v rest, eq_iff k j)

  pub lookup-delete_same : (k : K) (rest : Dict K V) → lookup k (delete k rest) ≡ none
  lookup-delete_same k rest = ground (arith, lookup-delete k k rest, eq_iff k k)
