-- ===== src/Witness/Arithmetic.antt =====
-- Floats round: sums of the weights as the program computes them, and a draw above 0.6 that falls to an
-- item of weight 0.6, since 0.6 + 0.3 + 0.1 is less than 1.
use kenshu_elaris_project_gu.Prelude.{[], refl, some, ◌∷◌, ◌≡◌}
use kenshu_elaris_project_gu.BookingFlow.{list_cottages, end, select_period, to}
use kenshu_elaris_project_gu.GoFloat.{
  float_0_10, float_0_30, float_0_60, float_add, float_mul, float_sub,
}
use kenshu_elaris_project_gu.Selector.{pick_random_weighted}

-- 0.8999999999999999
sum_rounds : float_add float_0_60 float_0_30 ≡ 4_606_281_698_874_543_308
sum_rounds = refl

-- 0.20000000000000004
difference_rounds :
    float_sub (float_add float_0_10 4_596_373_779_694_328_218) float_0_10
    ≡ 4_596_373_779_694_328_219
difference_rounds = refl

-- 0.18
product_rounds : float_mul float_0_60 float_0_30 ≡ 4_595_653_203_753_948_938
product_rounds = refl

above_the_share :
    pick_random_weighted 4_603_579_539_098_121_012
      (to select_period float_0_60 ∷ to list_cottages float_0_30 ∷ to end float_0_10 ∷ [])
    ≡ some select_period
unfolding pick_random_weighted
above_the_share = refl
