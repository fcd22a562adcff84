-- ===== src/TimeEvents/Served.antt =====
-- On the time events: a subscriber that waits is served.
use kenshu_elaris_project_gu.Prelude.{
  Bool, Bool-cases, List, [], false, if◌then◌else◌, inl, inr, none, refl, true, ℕ, ◌∙◌, ◌∷◌, ◌≡◌,
}
use kenshu_elaris_project_gu.GoTime.{Instant}
use kenshu_elaris_project_gu.TimeEvents.{Subscriber, hand_event, is_hour, offer_event, take_event}

-- Its channel is empty and it hands nothing on.
abbrev pub Waits : Subscriber → Type 0
Waits sub = (sub.buffer ≡ none) × (sub.sending ≡ none)

-- The round of a subscriber: it takes a time from its channel and hands it on, if it is one of its
-- hour.
abbrev pub round : Subscriber → Subscriber
round sub = hand_event (take_event sub)

-- What a subscriber does with the times that are published one by one, with a round behind each.
unfoldable pub follow : List Instant → Subscriber → Subscriber
follow [] sub = sub
follow (t ∷ ts) sub = follow ts (round (record sub { buffer = offer_event t sub.buffer }))

-- The times of an hour, the latest first, in front of others.
unfoldable pub hours_onto : ℕ → List Instant → List Instant → List Instant
hours_onto target [] l = l
hours_onto target (t ∷ ts) l =
    let with_it = hours_onto target ts (t ∷ l) in
    let without_it = hours_onto target ts l in if is_hour target t then with_it else without_it

round-Waits :
    (t : Instant) (sub : Subscriber)
    → Waits sub
    → Waits (round (record sub { buffer = offer_event t sub.buffer }))
      × ((round (record sub { buffer = offer_event t sub.buffer })).handed
          ≡ (if is_hour sub.target t then t ∷ sub.handed else sub.handed))
unfolding take_event hand_event
round-Waits t sub (b, s) = elim (Bool-cases (is_hour sub.target t)) [
  | inl e ↦ simp (b, s, e) ((refl, refl), refl)
  | inr e ↦ simp (b, s, e) ((refl, refl), refl)
]

round-target :
    (t : Instant) (sub : Subscriber)
    → Waits sub
    → (round (record sub { buffer = offer_event t sub.buffer })).target ≡ sub.target
unfolding take_event hand_event
round-target t sub (b, s) = elim (Bool-cases (is_hour sub.target t)) [
  | inl e ↦ simp (b, s, e) refl
  | inr e ↦ simp (b, s, e) refl
]

-- A subscriber that waits, and that has its round before the next time is published, hands on
-- exactly the times of its hour, in their order, and waits again.
pub follow-hours :
    (ts : List Instant) (sub : Subscriber)
    → Waits sub
    → ((follow ts sub).handed ≡ hours_onto sub.target ts sub.handed) × Waits (follow ts sub)
unfolding follow hours_onto
follow-hours [] sub w = (refl, w)
follow-hours (t ∷ ts) sub w =
    let next : Subscriber = round (record sub { buffer = offer_event t sub.buffer }) in
    let (waits, handed) = round-Waits t sub w in
    let (rest, ends) = follow-hours ts next waits in
    (
      rest
          ∙ (λ i. hours_onto (round-target t sub w i) ts (handed i))
          ∙ by_hour (is_hour sub.target t),
      ends,
    )
  where
    by_hour :
        (b : Bool)
        → hours_onto sub.target ts (if b then t ∷ sub.handed else sub.handed) ≡ (
            if b
            then hours_onto sub.target ts (t ∷ sub.handed)
            else hours_onto sub.target ts sub.handed)
    by_hour true = refl
    by_hour false = refl
