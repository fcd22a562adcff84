-- ===== src/Witness/Ranked.antt =====
-- The theorems on the search of a stay, at periods and candidates.
use kenshu_elaris_project_gu.Prelude.{
  All, Any, List, [], arith, refl, some, true, ℕ, ◌*◌, ◌+◌, ◌∷◌, ◌≡◌,
}
use kenshu_elaris_project_gu.Domain.{Period}
use kenshu_elaris_project_gu.GoText.{Text, text}
use kenshu_elaris_project_gu.GoTime.{day_ns, start_of_utc_day, sub_time}
use kenshu_elaris_project_gu.SelectPeriod.Chosen.{IsBest, selection, selection-IsBest}
use kenshu_elaris_project_gu.SelectPeriod.Nearest.{consider, pick_nearest_suitable_period, scan}
use kenshu_elaris_project_gu.SelectPeriod.Nearest.Earliest.{
  Finds, IsNear, pick_nearest_suitable_period-Finds, search_start_of,
}
use kenshu_elaris_project_gu.SelectPeriod.Ranking.{
  StayCandidate, same_key, sort_stable, unique_stay_candidates,
}
use kenshu_elaris_project_gu.SelectPeriod.Ranking.Order.{IsSorted, sort_stable-IsSorted}
use kenshu_elaris_project_gu.SelectPeriod.Ranking.Unique.{
  DistinctKeys, unique_stay_candidates-DistinctKeys,
}
use kenshu_elaris_project_gu.Witness.Data.{days, noon}

-- Days 100 to 104, which are too early, days 108 to 120, and days 105 to 109.
abbrev free : List Period
free = days 100 104 ∷ days 108 120 ∷ days 105 109 ∷ []

free_picked : pick_nearest_suitable_period noon free 3 ≡ some (days 105 108)
unfolding pick_nearest_suitable_period scan consider start_of_utc_day sub_time
free_picked = refl

free-IsNear : All (IsNear (search_start_of noon)) free
unfolding start_of_utc_day
free-IsNear = (omega arith, (omega arith, (omega arith, tt)))

pick_nearest_suitable_period-Finds_example :
    Finds noon free 3 (pick_nearest_suitable_period noon free 3)
pick_nearest_suitable_period-Finds_example =
    pick_nearest_suitable_period-Finds noon free 3 free-IsNear

abbrev candidate : Text → ℕ → ℕ → StayCandidate
candidate name from nights = record {
  cottage_name = name;
  period = days from (from + nights);
  distance = sub_time (from * day_ns) noon;
  nights = nights;
}

abbrev candidates : List StayCandidate
candidates =
    candidate (text "Pine") 110 3
    ∷ candidate (text "Oak") 106 5
    ∷ candidate (text "Pine") 110 3
    ∷ candidate (text "Elm") 106 3
    ∷ []

selection-IsBest_example : IsBest candidates (selection candidates)
selection-IsBest_example = selection-IsBest candidates

unique_stay_candidates-DistinctKeys_example :
    DistinctKeys (unique_stay_candidates candidates)
    × All (λ c. Any (λ d. same_key d c ≡ true) (unique_stay_candidates candidates)) candidates
unique_stay_candidates-DistinctKeys_example = unique_stay_candidates-DistinctKeys candidates

sort_stable-IsSorted_example : IsSorted (sort_stable candidates)
sort_stable-IsSorted_example = sort_stable-IsSorted candidates
