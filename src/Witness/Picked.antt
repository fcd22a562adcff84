-- ===== src/Witness/Picked.antt =====
-- The theorems on drawing a step and on the ways through the booking flow.
use kenshu_elaris_project_gu.Prelude.{List, [], inl, refl, some, ◌∷◌, ◌≡◌, ◌⊎◌}
use kenshu_elaris_project_gu.BookingFlow.{
  BookingStep, default_booking_flow, end, list_cottages, select_cottage, select_period, state_map,
  to,
}
use kenshu_elaris_project_gu.BookingFlow.Path.{Prepared, Walks, Walks-Prepared, begin, move}
use kenshu_elaris_project_gu.GoFloat.{Float64, float_0_10, float_0_30, float_0_60, float_mul}
use kenshu_elaris_project_gu.Selector.{WeightedTuple, pick_random_weighted}
use kenshu_elaris_project_gu.Selector.First.{
  IsFirst, IsLast, pick_random_weighted-First, positive_weights, sum_from,
}

-- A walk of one transition.
listed : Walks (list_cottages ∷ []) select_cottage
unfolding state_map default_booking_flow
listed = move begin (inl (refl, refl))

Walks-Prepared_example : Prepared (list_cottages ∷ []) select_cottage
Walks-Prepared_example = Walks-Prepared listed

-- At the draw above 0.6 of the arithmetic tests.
abbrev above_0_60 : Float64
above_0_60 = 4_603_579_539_098_121_012

abbrev later_choices : List (WeightedTuple BookingStep)
later_choices = to list_cottages float_0_30 ∷ to end float_0_10 ∷ []

pick_random_weighted-First_example :
    (s : BookingStep) × (pick_random_weighted above_0_60
        (to select_period float_0_60 ∷ later_choices)
      ≡ some s)
    × (IsFirst
          (float_mul above_0_60
            (sum_from 0 (positive_weights (to select_period float_0_60 ∷ later_choices))))
          (to select_period float_0_60 ∷ later_choices)
          s
        ⊎ IsLast
            (float_mul above_0_60
              (sum_from 0 (positive_weights (to select_period float_0_60 ∷ later_choices))))
            (to select_period float_0_60 ∷ later_choices)
            s)
pick_random_weighted-First_example =
    pick_random_weighted-First above_0_60 (to select_period float_0_60) later_choices
