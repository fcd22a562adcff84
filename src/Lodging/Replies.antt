-- ===== src/Lodging/Replies.antt =====
-- On `waitUntil`: when a wait ends.
use kenshu_elaris_project_gu.Prelude.{
  Any, Bool-cases, List, Option, Option-cases, [], arith, false, inl, inr, ltb, none, not, refl,
  some, true, ◌&&◌, ◌↔◌, ◌∷◌, ◌≡◌, ◌≢◌, ◌≤◌, ◌⊎◌,
}
use kenshu_elaris_project_gu.GoTime.{Instant, day_of}
use kenshu_elaris_project_gu.Lodging.Chat.{Chat, first_event, same_utc_day, wait_end, wait_until}
use kenshu_elaris_project_gu.World.{ok}

-- The clock has reached the target.
abbrev pub Reached : Instant → Option Instant → Type 0
Reached target none = ⊥
Reached target (some t) = target ≤ t

-- An event of the target's day, not before the target.
abbrev pub Fires : Instant → Instant → Type 0
Fires target t = (day_of t ≡ day_of target) × (target ≤ t)

first_event-Fires :
    (target : Instant) (ts : List Instant) → (first_event target ts ≢ none) ↔ Any (Fires target) ts
unfolding first_event
first_event-Fires target [] = (λ h. h refl, λ h. absurd h)
first_event-Fires target (t ∷ ts) =
    elim (Bool-cases (same_utc_day t target && not (ltb t target))) [
      | inl e ↦ rw e (λ _. inl (ground (arith, e), ground (arith, e)), λ _ n. cc)
      | inr e ↦ rw e (
        λ h. inr ((first_event-Fires target ts).0 h),
        λ h. (first_event-Fires target ts).1 (later e h),
      )
    ]
  where
    later :
        (same_utc_day t target && not (ltb t target)) ≡ false
        → Any (Fires target) (t ∷ ts)
        → Any (Fires target) ts
    later e (inl f) = ground (arith, e, f)
    later e (inr k) = k

wait_end-Fires :
    (target : Instant) (now : Option Instant) (ts : List Instant)
    → (wait_end target now ts ≢ none) ↔ (Reached target now ⊎ Any (Fires target) ts)
unfolding wait_end
wait_end-Fires target none ts = (λ h. inr ((first_event-Fires target ts).0 h), by_event)
  where
    by_event : (⊥ ⊎ Any (Fires target) ts) → first_event target ts ≢ none
    by_event (inl h) = absurd h
    by_event (inr h) = (first_event-Fires target ts).1 h
wait_end-Fires target (some t) ts = elim (Bool-cases (ltb t target)) [
  | inl e ↦ rw e (λ h. inr ((first_event-Fires target ts).0 h), by_event e)
  | inr e ↦ rw e (λ _. inl (ground (arith, e)), λ _ n. cc)
]
  where
    by_event :
        ltb t target ≡ true → ((target ≤ t) ⊎ Any (Fires target) ts) → first_event target ts ≢ none
    by_event e (inl h) = absurd (ground (arith, e, h))
    by_event e (inr h) = (first_event-Fires target ts).1 h

-- The wait returns nil exactly if the clock stands at the target or behind it already, or an event
-- of the target's day that is not before the target arrives; an event of a later day does not end it.
pub wait_until-Reached :
    (target : Instant) (c : Chat)
    → ((wait_until target c).0 ≡ ok tt)
      ↔ (Reached target (c.current c.waits) ⊎ Any (Fires target) (c.events c.waits))
unfolding wait_until
wait_until-Reached target c =
    elim (Option-cases (wait_end target (c.current c.waits) (c.events c.waits))) [
      | inl e ↦
          rw (wait_until, e)
            (
              λ h. cc,
              λ h. absurd ((wait_end-Fires target (c.current c.waits) (c.events c.waits)).1 h e),
            )
      | inr (t, e) ↦
          rw (wait_until, e)
            (
              λ _. (wait_end-Fires target (c.current c.waits) (c.events c.waits)).0 (λ n. cc),
              λ _. refl,
            )
    ]
