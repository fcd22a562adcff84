-- ===== src/Selector/Picks.antt =====
-- On `PickRandomWeighted`: from what it picks.
use kenshu_elaris_project_gu.Prelude.{
  All, Any, Bool-cases, List, Option, Option-cases, [], arith, inl, inr, none, refl, some, subst,
  ◌↔◌, ◌∷◌, ◌≡◌, ◌≢◌,
}
use kenshu_elaris_project_gu.GoFloat.{Float64, at_most_zero, float_mul, float_sub}
use kenshu_elaris_project_gu.Selector.{
  WeightedTuple, last_value, or_last, pick_random_weighted, total_from, walk,
}

module _ {A : Type 0} where
  -- Some item has the value `a`.
  abbrev IsValueIn : List (WeightedTuple A) → A → Type 0
  IsValueIn items a = Any (λ t. t.value ≡ a) items

  walk-IsValueIn :
      (target : Float64) (items : List (WeightedTuple A)) (a : A)
      → walk target items ≡ some a
      → IsValueIn items a
  unfolding walk
  walk-IsValueIn target [] a h = cc
  walk-IsValueIn target (x ∷ xs) a h =
      let less = float_sub target x.weight in
      elim (Bool-cases (at_most_zero x.weight)) [
        | inl e ↦ inr (walk-IsValueIn target xs a (ground (arith, h, e)))
        | inr e ↦ elim (Bool-cases (at_most_zero less)) [
          | inl f ↦ inl (ground (arith, h, e, f))
          | inr f ↦ inr (walk-IsValueIn less xs a (ground (arith, h, e, f)))
        ]
      ]

  last_value_total :
      (x : WeightedTuple A) (xs : List (WeightedTuple A)) → last_value (x ∷ xs) ≢ none
  unfolding last_value
  last_value_total x [] e = cc
  last_value_total x (y ∷ ys) e = last_value_total y ys e

  -- Something is picked from every list but the empty one, at which the code panics.
  pub pick_random_weighted_total :
      (drawn : Float64) (items : List (WeightedTuple A))
      → (pick_random_weighted drawn items ≡ none) ↔ (items ≡ [])
  unfolding pick_random_weighted
  pick_random_weighted_total drawn [] = (λ _. refl, λ _. refl)
  pick_random_weighted_total drawn (x ∷ xs) = (λ h. absurd (go _ h), λ h. cc)
    where
      go : (r : Option A) → or_last r (x ∷ xs) ≢ none
      go none e = last_value_total x xs e
      go (some a) e = cc

  walk-All :
      (Q : A → Type 0) (target : Float64) (items : List (WeightedTuple A)) (a : A)
      → All (λ t. Q t.value) items
      → walk target items ≡ some a
      → Q a
  walk-All Q target items a h e = pick items h (walk-IsValueIn target items a e)
    where
      pick : (xs : List (WeightedTuple A)) → All (λ t. Q t.value) xs → IsValueIn xs a → Q a
      pick [] k m = absurd m
      pick (x ∷ xs) k (inl m) = subst Q m k.0
      pick (x ∷ xs) k (inr m) = pick xs k.1 m

  last_value-All :
      (Q : A → Type 0) (items : List (WeightedTuple A)) (a : A)
      → All (λ t. Q t.value) items
      → last_value items ≡ some a
      → Q a
  unfolding last_value
  last_value-All Q [] a h e = cc
  last_value-All Q (x ∷ []) a h e = subst Q (ground (arith, e)) h.0
  last_value-All Q (x ∷ y ∷ ys) a h e = last_value-All Q (y ∷ ys) a h.1 e

  -- What holds of all values of the list holds of the picked one.
  pub pick_random_weighted-All :
      (Q : A → Type 0) (drawn : Float64) (items : List (WeightedTuple A)) (a : A)
      → All (λ t. Q t.value) items
      → pick_random_weighted drawn items ≡ some a
      → Q a
  unfolding pick_random_weighted
  pick_random_weighted-All Q drawn items a h e =
      elim (Option-cases (walk (float_mul drawn (total_from 0 items)) items)) [
        | inl n ↦ last_value-All Q items a h (ground (arith, e, n))
        | inr (b, n) ↦
            subst Q (ground (arith, e, n))
              (walk-All Q (float_mul drawn (total_from 0 items)) items b h n)
      ]
