-- ===== src/SelectPeriod/Nearest/Earliest.antt =====
-- On `pickNearestSuitablePeriod`: which stay it picks.
use kenshu_elaris_project_gu.Prelude.{
  All, Any, List, Option, [], arith, if◌then◌else◌, inl, inr, ltb, none, pos, refl, some, subst, ℕ,
  ◌*◌, ◌+◌, ◌-◌, ◌∙◌, ◌∷◌, ◌≡◌, ◌≤◌, ◌⊎◌,
}
use kenshu_elaris_project_gu.Domain.{Period}
use kenshu_elaris_project_gu.GoTime.{
  Instant, add_days, day_ns, max_duration, start_of_utc_day, sub_time,
}
use kenshu_elaris_project_gu.SelectPeriod.Nearest.{
  Selected, consider, min_search_lead_days, period_of, pick_nearest_suitable_period, scan,
}

-- A stay `c` of so many nights in the whole days of the period `p`, not before `search_start`.
pub record IsStay (search_start : Instant) (nights : ℕ) (c : Period) (p : Period) : Type 0 where
  pub late_enough : search_start ≤ c.start
  pub inside : start_of_utc_day p.start ≤ c.start
  pub nights_long : c.end ≡ c.start + nights * day_ns
  pub leaves_in_time : c.end ≤ start_of_utc_day p.end

-- The distance from `search_start` fits a `time.Duration`.
abbrev pub IsNear : Instant → Period → Type 0
IsNear search_start p = start_of_utc_day p.start ≤ search_start + max_duration

-- The distance that is kept is that of the period that is kept.
abbrev Known : Instant → Selected → Type 0
Known search_start none = Unit {0}
Known search_start (some (c, d)) =
    (search_start ≤ c.start)
    × (c.start ≤ search_start + max_duration)
    × (d ≡ pos (c.start - search_start))

-- `r` starts no later than the period kept in `s`.
abbrev NoLater : Selected → Selected → Type 0
NoLater none r = Unit {0}
NoLater (some (c, _)) none = ⊥
NoLater (some (c, _)) (some (r, _)) = r.start ≤ c.start

abbrev NoLaterThan : Period → Selected → Type 0
NoLaterThan d none = ⊥
NoLaterThan d (some (r, _)) = r.start ≤ d.start

sub_time_near : (t u : Instant) → u ≤ t → t ≤ u + max_duration → sub_time t u ≡ pos (t - u)
unfolding sub_time
sub_time_near t u h k = ground arith

abbrev clip : Instant → Period → Instant
clip search_start p =
    if ltb (start_of_utc_day p.start) search_start then search_start else start_of_utc_day p.start

module _ (search_start : Instant) (nights : ℕ) where
  consider-Known :
      (s : Selected) (p : Period)
      → IsNear search_start p
      → Known search_start s
      → Known search_start (consider search_start nights s p)
  unfolding consider
  consider-Known none p near k = ground (arith, sub_time_near (clip search_start p) search_start)
  consider-Known (some (c, d)) p near k =
      ground (arith, sub_time_near (clip search_start p) search_start)

  consider-NoLater :
      (s : Selected) (p : Period)
      → IsNear search_start p
      → Known search_start s
      → NoLater s (consider search_start nights s p)
  unfolding consider
  consider-NoLater none p near k = tt
  consider-NoLater (some (c, d)) p near k =
      ground (arith, sub_time_near (clip search_start p) search_start)

  -- After the round of a period, nothing that fits it starts earlier.
  consider-NoLaterThan :
      (s : Selected) (p d : Period)
      → IsNear search_start p
      → Known search_start s
      → IsStay search_start nights d p
      → NoLaterThan d (consider search_start nights s p)
  unfolding consider
  consider-NoLaterThan none p d near k stay =
      ground (arith, sub_time_near (clip search_start p) search_start)
  consider-NoLaterThan (some (c, e)) p d near k stay =
      ground (arith, sub_time_near (clip search_start p) search_start)

  -- What is kept is what was kept, or a stay in the period of the round.
  abbrev From : Selected → (Period → Type 0) → Selected → Type 0
  From s Q none = s ≡ none
  From s Q (some (c, e)) = (s ≡ some (c, e)) ⊎ Q c

  consider-From :
      (s : Selected) (p : Period)
      → From s (λ c. IsStay search_start nights c p) (consider search_start nights s p)
  unfolding consider
  consider-From none p = ground arith
  consider-From (some (c, d)) p = ground arith

  NoLater-trans : (q r s : Selected) → NoLater q r → NoLater r s → NoLater q s
  NoLater-trans none r s h k = tt
  NoLater-trans (some (c, d)) none s h k = absurd h
  NoLater-trans (some (c, d)) (some (e, f)) none h k = absurd k
  NoLater-trans (some (c, d)) (some (e, f)) (some (g, i)) h k = omega arith

  NoLaterThan-trans :
      (d : Period) (r s : Selected) → NoLaterThan d r → NoLater r s → NoLaterThan d s
  NoLaterThan-trans d none s h k = absurd h
  NoLaterThan-trans d (some (e, f)) none h k = absurd k
  NoLaterThan-trans d (some (e, f)) (some (g, i)) h k = omega arith

  NoLater-refl : (s : Selected) → NoLater s s
  NoLater-refl none = tt
  NoLater-refl (some (c, d)) = omega arith

  scan-NoLater :
      (s : Selected) (ps : List Period)
      → All (IsNear search_start) ps
      → Known search_start s
      → NoLater s (scan search_start nights s ps)
  unfolding scan
  scan-NoLater s [] near k = NoLater-refl s
  scan-NoLater s (p ∷ ps) near k =
      let s' = consider search_start nights s p in
      NoLater-trans s s' (scan search_start nights s' ps) (consider-NoLater s p near.0 k)
        (scan-NoLater s' ps near.1 (consider-Known s p near.0 k))

  scan-NoLaterThan :
      (s : Selected) (ps : List Period) (d : Period)
      → All (IsNear search_start) ps
      → Known search_start s
      → Any (IsStay search_start nights d) ps
      → NoLaterThan d (scan search_start nights s ps)
  unfolding scan
  scan-NoLaterThan s [] d near k stay = absurd stay
  scan-NoLaterThan s (p ∷ ps) d near k (inl stay) =
      let s' = consider search_start nights s p in
      NoLaterThan-trans d s' (scan search_start nights s' ps)
        (consider-NoLaterThan s p d near.0 k stay)
        (scan-NoLater s' ps near.1 (consider-Known s p near.0 k))
  scan-NoLaterThan s (p ∷ ps) d near k (inr stay) =
      scan-NoLaterThan (consider search_start nights s p) ps d near.1 (consider-Known s p near.0 k)
        stay

  From-step :
      (s s' : Selected) (r : Selected) (p : Period) (ps : List Period)
      → From s (λ c. IsStay search_start nights c p) s'
      → From s' (λ c. Any (IsStay search_start nights c) ps) r
      → From s (λ c. Any (IsStay search_start nights c) (p ∷ ps)) r
  From-step s none none p ps h k = h
  From-step s (some (c, d)) none p ps h k = cc
  From-step s s' (some (e, f)) p ps h (inr k) = inr (inr k)
  From-step s none (some (e, f)) p ps h (inl k) = cc
  From-step s (some (c, d)) (some (e, f)) p ps (inl h) (inl k) = inl (h ∙ k)
  From-step s (some (c, d)) (some (e, f)) p ps (inr h) (inl k) =
      inr (inl (subst (λ q. IsStay search_start nights q p) (ground arith) h))

  scan-From :
      (s : Selected) (ps : List Period)
      → From s (λ c. Any (IsStay search_start nights c) ps) (scan search_start nights s ps)
  unfolding scan
  scan-From none [] = refl
  scan-From (some (c, d)) [] = inl refl
  scan-From s (p ∷ ps) =
      let s' = consider search_start nights s p in
      From-step s s' (scan search_start nights s' ps) p ps (consider-From s p) (scan-From s' ps)

-- The first instant of the search.
abbrev pub search_start_of : Instant → Instant
search_start_of now = add_days (start_of_utc_day now) min_search_lead_days

-- `r` is an earliest stay, or there is none.
abbrev pub Finds : Instant → List Period → ℕ → Option Period → Type 0
Finds now periods nights none = (d : Period) → ¬ Any (IsStay (search_start_of now) nights d) periods
Finds now periods nights (some c) =
    Any (IsStay (search_start_of now) nights c) periods
    × ((d : Period) → Any (IsStay (search_start_of now) nights d) periods → c.start ≤ d.start)

Finds-of :
    (now : Instant) (periods : List Period) (nights : ℕ) (r : Selected)
    → From
        (search_start_of now)
        nights
        none
        (λ c. Any (IsStay (search_start_of now) nights c) periods)
        r
    → ((d : Period) → Any (IsStay (search_start_of now) nights d) periods → NoLaterThan d r)
    → Finds now periods nights (period_of r)
Finds-of now periods nights none found least = least
Finds-of now periods nights (some (c, d)) (inl e) least = cc
Finds-of now periods nights (some (c, d)) (inr stay) least = (stay, least)

-- The picked period is a stay of so many nights in the whole days of some available period, at least
-- five days ahead, and no such stay starts earlier; where nothing is picked there is no such stay.
-- The periods start within the range of a `time.Duration` from the first day of the search.
pub pick_nearest_suitable_period-Finds :
    (now : Instant) (periods : List Period) (nights : ℕ)
    → All (IsNear (search_start_of now)) periods
    → Finds now periods nights (pick_nearest_suitable_period now periods nights)
unfolding pick_nearest_suitable_period
pick_nearest_suitable_period-Finds now periods nights near =
    Finds-of now periods nights (scan (search_start_of now) nights none periods)
      (scan-From (search_start_of now) nights none periods)
      (λ d stay. scan-NoLaterThan (search_start_of now) nights none periods d near tt stay)

abbrev pub Stays : Instant → List Period → ℕ → Option Period → Type 0
Stays now periods nights none = Unit {0}
Stays now periods nights (some c) = Any (IsStay (search_start_of now) nights c) periods

Stays-of :
    (now : Instant) (periods : List Period) (nights : ℕ) (r : Selected)
    → From
        (search_start_of now)
        nights
        none
        (λ c. Any (IsStay (search_start_of now) nights c) periods)
        r
    → Stays now periods nights (period_of r)
Stays-of now periods nights none found = tt
Stays-of now periods nights (some (c, d)) (inl e) = cc
Stays-of now periods nights (some (c, d)) (inr stay) = stay

-- What is picked is a stay in an available period, however far ahead the periods lie.
pub pick_nearest_suitable_period-Stays :
    (now : Instant) (periods : List Period) (nights : ℕ)
    → Stays now periods nights (pick_nearest_suitable_period now periods nights)
unfolding pick_nearest_suitable_period
pick_nearest_suitable_period-Stays now periods nights =
    Stays-of now periods nights (scan (search_start_of now) nights none periods)
      (scan-From (search_start_of now) nights none periods)
