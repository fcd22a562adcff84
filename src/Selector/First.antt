-- ===== src/Selector/First.antt =====
-- On `PickRandomWeighted`: which item it picks.
use kenshu_elaris_project_gu.Prelude.{
  Bool-cases, List, [], ap, false, if◌then◌else◌, inl, inr, none, refl, some, true, ◌++◌, ◌∷◌, ◌≡◌,
  ◌⊎◌, Option,
}
use kenshu_elaris_project_gu.GoFloat.{
  Float64, above_zero, at_most_zero, float_add, float_mul, float_sub,
}
use kenshu_elaris_project_gu.Selector.{
  WeightedTuple, last_value, or_last, pick_random_weighted, total_from, walk,
}

-- Sums from the first float to the last, each rounded.
unfoldable pub sum_from : Float64 → List Float64 → Float64
sum_from sum [] = sum
sum_from sum (x ∷ xs) = sum_from (float_add sum x) xs

module _ {A : Type 0} where
  -- The positive weights.
  unfoldable pub positive_weights : List (WeightedTuple A) → List Float64
  positive_weights [] = []
  positive_weights (item ∷ items) =
      let rest = positive_weights items in
      if above_zero item.weight then item.weight ∷ rest else rest

  -- The target behind an item, which only a weight that counts has lowered.
  abbrev pub behind_item : Float64 → WeightedTuple A → Float64
  behind_item target item =
      if at_most_zero item.weight then target else float_sub target item.weight

  unfoldable pub behind_items : Float64 → List (WeightedTuple A) → Float64
  behind_items target [] = target
  behind_items target (item ∷ items) = behind_items (behind_item target item) items

  -- The weight counts, and leaves nothing of the target.
  abbrev pub Takes : Float64 → WeightedTuple A → Type 0
  Takes target item =
      (at_most_zero item.weight ≡ false) × (at_most_zero (float_sub target item.weight) ≡ true)

  -- No item takes what is left of the target in front of it.
  unfoldable pub NoneTakes : Float64 → List (WeightedTuple A) → Type 0
  NoneTakes target [] = Unit {0}
  NoneTakes target (item ∷ items) =
      (¬ Takes target item) × NoneTakes (behind_item target item) items

  -- `a` is the value of the first item that takes the target.
  pub record IsFirst (target : Float64) (items : List (WeightedTuple A)) (a : A) : Type 0 where
    pub before : List (WeightedTuple A)
    pub item : WeightedTuple A
    pub after : List (WeightedTuple A)
    pub split : items ≡ before ++ (item ∷ after)
    pub earlier : NoneTakes target before
    pub takes : Takes (behind_items target before) item
    pub its_value : item.value ≡ a

  -- None takes it, and `a` is the value of the last item.
  pub record IsLast (target : Float64) (items : List (WeightedTuple A)) (a : A) : Type 0 where
    pub before : List (WeightedTuple A)
    pub item : WeightedTuple A
    pub split : items ≡ before ++ (item ∷ [])
    pub none_takes : NoneTakes target items
    pub its_value : item.value ≡ a

  total_from-sum_from :
      (sum : Float64) (items : List (WeightedTuple A))
      → total_from sum items ≡ sum_from sum (positive_weights items)
  unfolding total_from sum_from positive_weights
  total_from-sum_from sum [] = refl
  total_from-sum_from sum (item ∷ items) = elim (Bool-cases (above_zero item.weight)) [
    | inl e ↦ rw e (total_from-sum_from (float_add sum item.weight) items)
    | inr e ↦ rw e (total_from-sum_from sum items)
  ]

  IsFirst-more :
      (target : Float64) (x : WeightedTuple A) (items : List (WeightedTuple A)) (a : A)
      → ¬ Takes target x
      → IsFirst (behind_item target x) items a
      → IsFirst target (x ∷ items) a
  unfolding NoneTakes behind_items
  IsFirst-more target x items a n f = record {
    before = x ∷ f.before;
    item = f.item;
    after = f.after;
    split = ap (λ l. x ∷ l) f.split;
    earlier = (n, f.earlier);
    takes = f.takes;
    its_value = f.its_value;
  }

  -- How the second loop ends.
  abbrev Walked : Float64 → List (WeightedTuple A) → Option A → Type 0
  Walked target items none = NoneTakes target items
  Walked target items (some a) = IsFirst target items a

  Walked-more :
      (target : Float64) (x : WeightedTuple A) (items : List (WeightedTuple A)) (r : Option A)
      → ¬ Takes target x
      → Walked (behind_item target x) items r
      → Walked target (x ∷ items) r
  unfolding NoneTakes
  Walked-more target x items none n h = (n, h)
  Walked-more target x items (some a) n h = IsFirst-more target x items a n h

  walk-Walked :
      (target : Float64) (items : List (WeightedTuple A)) → Walked target items (walk target items)
  unfolding walk NoneTakes behind_items
  walk-Walked target [] = tt
  walk-Walked target (x ∷ xs) =
      let less = float_sub target x.weight in
      elim (Bool-cases (at_most_zero x.weight)) [
        | inl e ↦
            let more : Walked (behind_item target x) xs (walk target xs) =
              rw e (walk-Walked target xs) in
            rw e (Walked-more target x xs (walk target xs) (λ (c, _). cc) more)
        | inr e ↦ elim (Bool-cases (at_most_zero less)) [
          | inl f ↦
              rw (e, f)
                (record {
                  before = [];
                  item = x;
                  after = xs;
                  split = refl;
                  earlier = tt;
                  takes = (e, f);
                  its_value = refl;
                })
          | inr f ↦
              let more : Walked (behind_item target x) xs (walk less xs) =
                rw e (walk-Walked less xs) in
              rw (e, f) (Walked-more target x xs (walk less xs) (λ (_, c). cc) more)
        ]
      ]

  -- The last item of a list that has one.
  last_value-last :
      (x : WeightedTuple A) (xs : List (WeightedTuple A))
      → (before : List (WeightedTuple A)) × (item : WeightedTuple A) × (x ∷ xs
          ≡ before ++ (item ∷ []))
        × (last_value (x ∷ xs) ≡ some item.value)
  unfolding last_value
  last_value-last x [] = ([], x, refl, refl)
  last_value-last x (y ∷ ys) =
      let (before, item, split, e) = last_value-last y ys in
      (x ∷ before, item, ap (λ l. x ∷ l) split, e)

  or_last-Walked :
      (target : Float64) (x : WeightedTuple A) (xs : List (WeightedTuple A)) (r : Option A)
      → Walked target (x ∷ xs) r
      → (a : A) × (or_last r (x ∷ xs) ≡ some a)
        × (IsFirst target (x ∷ xs) a ⊎ IsLast target (x ∷ xs) a)
  or_last-Walked target x xs (some a) h = (a, refl, inl h)
  or_last-Walked target x xs none h =
      let (before, item, split, e) = last_value-last x xs in
      (
        item.value,
        e,
        inr (record {
          before = before;
          item = item;
          split = split;
          none_takes = h;
          its_value = refl;
        }),
      )

  -- From a list that is not empty a value is picked. The target is what was drawn, times the sum of
  -- the positive weights; each item in turn whose weight is not at most zero lowers it by its weight;
  -- and the value is that of the first item that leaves at most zero of it, or, if the rounding of
  -- the floats or the weights let no item do so, that of the last item. All arithmetic is that of
  -- float64.
  pub pick_random_weighted-First :
      (drawn : Float64) (x : WeightedTuple A) (xs : List (WeightedTuple A))
      → (a : A) × (pick_random_weighted drawn (x ∷ xs) ≡ some a)
        × (IsFirst (float_mul drawn (sum_from 0 (positive_weights (x ∷ xs)))) (x ∷ xs) a
            ⊎ IsLast (float_mul drawn (sum_from 0 (positive_weights (x ∷ xs)))) (x ∷ xs) a)
  unfolding pick_random_weighted
  pick_random_weighted-First drawn x xs =
      let target = float_mul drawn (total_from 0 (x ∷ xs)) in
      rw (← total_from-sum_from 0 (x ∷ xs))
        (or_last-Walked target x xs (walk target (x ∷ xs)) (walk-Walked target (x ∷ xs)))
