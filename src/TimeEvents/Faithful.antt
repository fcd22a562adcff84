-- ===== src/TimeEvents/Faithful.antt =====
-- On the time events: what every reachable state has handed on.
use kenshu_elaris_project_gu.Prelude.{
  All, Bool-cases, List, Option, [], inl, inr, none, refl, some, subst, true, ℕ, ◌==◌, ◌∷◌, ◌≡◌,
  ◌⊎◌,
}
use kenshu_elaris_project_gu.GoText.{text_eq}
use kenshu_elaris_project_gu.GoTime.{Instant}
use kenshu_elaris_project_gu.TimeEvents.{
  Reached, Step, Subscriber, TimeService, at_key, begins, current_time, delivers, goes, hand_event,
  handle_delivery, hands, is_hour, leaves, new_service, notify, notify_hour_change, offer_event,
  register, sent_on, subscribe, subscribes, take_event, take_if_idle, takes, unregister, without,
}

-- The first list is what is left of the second when some of it is take_if_idle away.
abbrev pub SubList : List Instant → List Instant → Type 0
SubList [] ys = Unit {0}
SubList (x ∷ xs) [] = ⊥
SubList (x ∷ xs) (y ∷ ys) = ((x ≡ y) × SubList xs ys) ⊎ SubList (x ∷ xs) ys

skip-SubList : (xs ys : List Instant) (y : Instant) → SubList xs ys → SubList xs (y ∷ ys)
skip-SubList [] ys y h = tt
skip-SubList (x ∷ xs) ys y h = inr h

tail-SubList : (x : Instant) (xs ys : List Instant) → SubList (x ∷ xs) ys → SubList xs ys
tail-SubList x xs [] h = absurd h
tail-SubList x xs (y ∷ ys) (inl (e, h)) = skip-SubList xs ys y h
tail-SubList x xs (y ∷ ys) (inr h) = skip-SubList xs ys y (tail-SubList x xs ys h)

abbrev cons_some : Option Instant → List Instant → List Instant
cons_some none l = l
cons_some (some t) l = t ∷ l

-- What a subscriber has got and not thrown away, the latest first.
abbrev pub held : Subscriber → List Instant
held sub = cons_some sub.buffer (cons_some sub.sending sub.handed)

-- The times that a subscriber holds were published, in this order and each as often; those that it
-- hands on have its hour.
abbrev pub Served : List Instant → Subscriber → Type 0
Served published sub =
    SubList (held sub) published
    × All (λ t. is_hour sub.target t ≡ true) (cons_some sub.sending sub.handed)

abbrev latest : List Instant → Option Instant
latest [] = none
latest (t ∷ l) = some t

-- The time of the service is the latest published, and every subscriber is served faithfully.
abbrev pub Faithful : TimeService → Type 0
Faithful s = (current_time s ≡ latest s.published) × All (Served s.published) s.subscribers

offer_event-Served :
    (t : Instant) (published : List Instant) (buffer sending : Option Instant)
    (handed : List Instant)
    → SubList (cons_some buffer (cons_some sending handed)) published
    → SubList (cons_some (offer_event t buffer) (cons_some sending handed)) (t ∷ published)
offer_event-Served t published none sending handed h = inl (refl, h)
offer_event-Served t published (some old) sending handed h = inr h

notify-Served :
    (t : Instant) (published : List Instant) (subs : List Subscriber)
    → All (Served published) subs
    → All (Served (t ∷ published)) (notify t subs)
unfolding notify
notify-Served t published [] h = tt
notify-Served t published (sub ∷ subs) ((sub_list, hours), h) = (
  (offer_event-Served t published sub.buffer sub.sending sub.handed sub_list, hours),
  notify-Served t published subs h,
)

take-Served :
    (published : List Instant) (sub : Subscriber)
    → Served published sub
    → Served published (take_event sub)
unfolding take_event
take-Served published sub (h, hours) = by_buffer sub.buffer sub.sending h hours
  where
    by_buffer :
        (buffer sending : Option Instant)
        → SubList (cons_some buffer (cons_some sending sub.handed)) published
        → All (λ t. is_hour sub.target t ≡ true) (cons_some sending sub.handed)
        → Served published
            (take_if_idle buffer sending (record sub { buffer = buffer; sending = sending }))
    by_buffer none sending h hours = (h, hours)
    by_buffer (some t) (some busy) h hours = (h, hours)
    by_buffer (some t) none h hours = elim (Bool-cases (is_hour sub.target t)) [
      | inl e ↦ rw e (h, (e, hours))
      | inr e ↦ rw e (tail-SubList t sub.handed published h, hours)
    ]

hand-Served :
    (published : List Instant) (sub : Subscriber)
    → Served published sub
    → Served published (hand_event sub)
unfolding hand_event
hand-Served published sub (h, hours) = by_sending sub.buffer sub.sending h hours
  where
    by_sending :
        (buffer sending : Option Instant)
        → SubList (cons_some buffer (cons_some sending sub.handed)) published
        → All (λ t. is_hour sub.target t ≡ true) (cons_some sending sub.handed)
        → Served published (sent_on sending (record sub { buffer = buffer; sending = sending }))
    by_sending buffer none h hours = (h, hours)
    by_sending buffer (some t) h hours = (h, hours)

module _ (Q : Subscriber → Type 0) where
  at_key-All :
      (move : Subscriber → Subscriber) (k : ℕ) (subs : List Subscriber)
      → ((sub : Subscriber) → Q sub → Q (move sub))
      → All Q subs
      → All Q (at_key move k subs)
  unfolding at_key
  at_key-All move k [] m h = tt
  at_key-All move k (sub ∷ subs) m (q, h) = elim (Bool-cases (sub.key == k)) [
    | inl e ↦ simp e (m sub q, at_key-All move k subs m h)
    | inr e ↦ simp e (q, at_key-All move k subs m h)
  ]

  without-All : (k : ℕ) (subs : List Subscriber) → All Q subs → All Q (without k subs)
  without-All k [] h = tt
  without-All k (sub ∷ subs) (q, h) = elim (Bool-cases (sub.key == k)) [
    | inl e ↦ simp e (without-All k subs h)
    | inr e ↦ simp e (q, without-All k subs h)
  ]

Step-Faithful : {s s' : TimeService} → Step s s' → Faithful s → Faithful s'
unfolding handle_delivery notify_hour_change subscribe register unregister current_time text_eq
Step-Faithful (delivers none) h = h
Step-Faithful {s = s} (delivers (some t)) (c, h) =
    (refl, notify-Served t s.published s.subscribers h)
Step-Faithful (subscribes target) (c, h) = (c, ((tt, tt), h))
Step-Faithful {s = s} (takes k) (c, h) =
    (c, at_key-All (Served s.published) take_event k s.subscribers (take-Served s.published) h)
Step-Faithful {s = s} (hands k) (c, h) =
    (c, at_key-All (Served s.published) hand_event k s.subscribers (hand-Served s.published) h)
Step-Faithful {s = s} (leaves k) (c, h) = (c, without-All (Served s.published) k s.subscribers h)

-- In every state that the service and its subscribers come to, in whatever order they move, the
-- current time is the latest that was published, every subscriber holds a part of the published
-- times, in their order and none twice, and it has handed on only times of its own hour.
pub Reached-Faithful : {s : TimeService} → Reached s → Faithful s
unfolding new_service current_time
Reached-Faithful (begins e) = subst (λ o. AtSome Faithful o) e (refl, tt)
  where
    AtSome : (TimeService → Type 0) → Option TimeService → Type 0
    AtSome Q none = Unit {0}
    AtSome Q (some s) = Q s
Reached-Faithful (goes r step) = Step-Faithful step (Reached-Faithful r)
