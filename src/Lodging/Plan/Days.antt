-- ===== src/Lodging/Plan/Days.antt =====
-- On the plan of the stay: the days of its steps.
use kenshu_elaris_project_gu.Prelude.{
  All, All-append, List, [], arith, inl, inr, refl, suc, zero, ℕ, ◌+◌, ◌-◌, ◌<◌, ◌∷◌, ◌≡◌, ◌≤◌, ◌⊎◌,
}
use kenshu_elaris_project_gu.Domain.{Period}
use kenshu_elaris_project_gu.Lodging.Plan.{
  ActionPlanStep, LodgingFlow, LodgingPlannedAction, build_stay_action_plan, checkout_day_offset,
  expand_plan, full_stay_days, recurring,
}

-- A day of the stay behind the second, and before the day of the checkout.
abbrev pub IsStayDay : Period → ActionPlanStep → Type 0
IsStayDay p s = (s.day_offset ≡ 0) ⊎ ((2 ≤ s.day_offset) × (s.day_offset < checkout_day_offset p))

All-weaken :
    (Q R : ActionPlanStep → Type 0) (l : List ActionPlanStep)
    → ((s : ActionPlanStep) → Q s → R s)
    → All Q l
    → All R l
All-weaken Q R [] f h = tt
All-weaken Q R (s ∷ l) f h = (f s h.0, All-weaken Q R l f h.1)

All-expand_plan :
    (Q : ActionPlanStep → Type 0) (o : ℕ) (actions : List LodgingPlannedAction)
    → ((s : ActionPlanStep) → s.day_offset ≡ o → Q s)
    → All Q (expand_plan o actions)
unfolding expand_plan
All-expand_plan Q o [] h = tt
All-expand_plan Q o (a ∷ actions) h = (h _ refl, All-expand_plan Q o actions h)

recurring-days :
    (actions : List LodgingPlannedAction) (count o : ℕ)
    → All (λ s. (o ≤ s.day_offset) × (s.day_offset < o + count)) (recurring actions count o)
unfolding recurring
recurring-days actions zero o = tt
recurring-days actions (suc count) o =
    All-append _ (expand_plan o actions) (recurring actions count (suc o))
      (All-expand_plan _ o actions (λ s e. (omega (arith, e), omega (arith, e))))
      (All-weaken _ _ (recurring actions count (suc o))
        (λ s h. (omega (arith, h.0), omega (arith, h.1))) (recurring-days actions count (suc o)))

-- Whatever the flow and the period, every step of the plan of the stay lies on the day of arrival or
-- on a day from the third to the last before the checkout: none lies on the second day.
pub build_stay_action_plan-IsStayDay :
    (flow : LodgingFlow) (p : Period) → All (IsStayDay p) (build_stay_action_plan flow p)
unfolding build_stay_action_plan full_stay_days checkout_day_offset
build_stay_action_plan-IsStayDay flow p =
    All-append _ (expand_plan 0 flow.first_day_stay)
      (recurring flow.recurring_stay (full_stay_days p - 1) 2)
      (All-expand_plan _ 0 flow.first_day_stay (λ s e. inl e))
      (All-weaken _ _ (recurring flow.recurring_stay (full_stay_days p - 1) 2)
        (λ s h. inr (h.0, ground (arith, h)))
        (recurring-days flow.recurring_stay (full_stay_days p - 1) 2))
