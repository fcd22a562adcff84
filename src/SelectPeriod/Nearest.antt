-- ===== src/SelectPeriod/Nearest.antt =====
-- `pickNearestSuitablePeriod` of internal/app/steps/booking_step/select_period.go.
pub mod Earliest
use kenshu_elaris_project_gu.Prelude.{
  ℕ, ◌+◌, ◌*◌, Bool, true, Option, none, some, List, [], ◌∷◌, ltb, if◌then◌else◌, ℤ, ltb_ℤ,
}
use kenshu_elaris_project_gu.GoTime.{Instant, add_days, sub_time, start_of_utc_day}
use kenshu_elaris_project_gu.Domain.{Period}

abbrev pub min_search_lead_days : ℕ
min_search_lead_days = 5

-- The variables `selected` and `selectedDistance`; the second is read only if the first is set.
abbrev pub Selected : Type 0
Selected = Option (Period × ℤ)

-- `selected == nil || distance < selectedDistance`
abbrev pub replaces : ℤ → Selected → Bool
replaces distance none = true
replaces distance (some (_, best)) = ltb_ℤ distance best

-- One round of the loop.
unfoldable pub consider : Instant → ℕ → Selected → Period → Selected
consider search_start nights selected period =
    let first = start_of_utc_day period.start in
    let from = if ltb first search_start then search_start else first in
    let to = add_days from nights in
    if ltb (start_of_utc_day period.end) to
    then selected
    else (let distance = sub_time from search_start in
        if replaces distance selected
        then some (record { start = from; end = to }, distance)
        else selected)

unfoldable pub scan : Instant → ℕ → Selected → List Period → Selected
scan search_start nights selected [] = selected
scan search_start nights selected (p ∷ ps) =
    scan search_start nights (consider search_start nights selected p) ps

abbrev pub period_of : Selected → Option Period
period_of none = none
period_of (some (p, _)) = some p

unfoldable pub pick_nearest_suitable_period : Instant → List Period → ℕ → Option Period
unfolding scan
pick_nearest_suitable_period now periods nights =
    period_of (scan (add_days (start_of_utc_day now) min_search_lead_days) nights none periods)
