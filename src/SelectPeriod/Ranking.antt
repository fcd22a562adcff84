-- ===== src/SelectPeriod/Ranking.antt =====
-- The order of the candidates and `uniqueStayCandidates`, of internal/app/steps/booking_step/select_period.go.
pub mod Order
pub mod Unique
use kenshu_elaris_project_gu.Prelude.{
  Bool, List, [], eqb_ℤ, false, if◌then◌else◌, ltb, ltb_ℤ, not, ℕ, ℤ, ◌&&◌, ◌/◌, ◌==◌, ◌||◌, ◌∷◌,
}
use kenshu_elaris_project_gu.Domain.{Period}
use kenshu_elaris_project_gu.GoText.{Text, text_eq, text_lt}

pub record StayCandidate : Type 0 where
  pub cottage_name : Text
  pub period : Period
  pub distance : ℤ
  pub nights : ℕ

-- The function given to `sort.SliceStable`.
unfoldable pub less : StayCandidate → StayCandidate → Bool
less a b =
    if not (eqb_ℤ a.distance b.distance)
    then ltb_ℤ a.distance b.distance
    else if not (a.nights == b.nights)
    then ltb a.nights b.nights
    else if not (a.period.start == b.period.start)
    then ltb a.period.start b.period.start
    else text_lt a.cottage_name b.cottage_name

-- `sort.SliceStable`: equal items keep their order.
unfoldable pub insert_stable : StayCandidate → List StayCandidate → List StayCandidate
insert_stable x [] = x ∷ []
insert_stable x (y ∷ ys) =
    let rest = insert_stable x ys in if less y x then y ∷ rest else x ∷ y ∷ ys

unfoldable pub sort_stable : List StayCandidate → List StayCandidate
unfolding insert_stable
sort_stable [] = []
sort_stable (x ∷ xs) = insert_stable x (sort_stable xs)

-- Whether two candidates have one key: the cottage, and start and end in RFC 3339, which is exact
-- to the second.
abbrev pub second_ns : ℕ
second_ns = 1_000_000_000

unfoldable pub same_key : StayCandidate → StayCandidate → Bool
same_key a b =
    text_eq a.cottage_name b.cottage_name
    && (a.period.start / second_ns == b.period.start / second_ns)
    && (a.period.end / second_ns == b.period.end / second_ns)

-- `seen[key]`
unfoldable pub seen_key : StayCandidate → List StayCandidate → Bool
seen_key c [] = false
seen_key c (d ∷ ds) = same_key d c || seen_key c ds

unfoldable pub unique_from : List StayCandidate → List StayCandidate → List StayCandidate
unique_from seen [] = []
unique_from seen (c ∷ cs) =
    let kept = unique_from (c ∷ seen) cs in
    let skipped = unique_from seen cs in if seen_key c seen then skipped else c ∷ kept

unfoldable pub unique_stay_candidates : List StayCandidate → List StayCandidate
unfolding unique_from seen_key
unique_stay_candidates = unique_from []
