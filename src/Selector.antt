-- ===== src/Selector.antt =====
-- internal/app/services/step_selector_service.go and internal/domain/weightTuple.go
pub mod Picks
pub mod First
use kenshu_elaris_project_gu.Prelude.{Bool, List, Option, [], if◌then◌else◌, none, some, ◌∷◌}
use kenshu_elaris_project_gu.GoFloat.{
  Float64, above_zero, at_most_zero, float_add, float_mul, float_sub,
}

pub record WeightedTuple {ℓ} (A : Type ℓ) : Type ℓ where
  pub value : A
  pub weight : Float64

module _ {ℓ} {A : Type ℓ} where
  -- The first loop.
  unfoldable pub total_from : Float64 → List (WeightedTuple A) → Float64
  total_from total [] = total
  total_from total (item ∷ items) =
      total_from (if above_zero item.weight then float_add total item.weight else total) items

  -- The second loop, at the target.
  unfoldable pub walk : Float64 → List (WeightedTuple A) → Option A
  walk target [] = none
  walk target (item ∷ items) =
      let skipped = walk target items in
      let less = float_sub target item.weight in
      let later = walk less items in
      if at_most_zero item.weight
      then skipped
      else if at_most_zero less
      then some item.value
      else later

  -- `list[len(list)-1].Value`, which panics on the empty list
  unfoldable pub last_value : List (WeightedTuple A) → Option A
  last_value [] = none
  last_value (item ∷ []) = some item.value
  last_value (item ∷ more ∷ items) = last_value (more ∷ items)

  abbrev pub or_last : Option A → List (WeightedTuple A) → Option A
  or_last none list = last_value list
  or_last (some a) list = some a

  -- `PickRandomWeighted`, at what `rand.Float64()` returns; none is the panic
  unfoldable pub pick_random_weighted : Float64 → List (WeightedTuple A) → Option A
  unfolding total_from walk last_value
  pick_random_weighted drawn list = or_last (walk (float_mul drawn (total_from 0 list)) list) list
