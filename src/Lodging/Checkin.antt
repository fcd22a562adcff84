-- ===== src/Lodging/Checkin.antt =====
-- On `finishCheckin`: what it reads and answers.
use kenshu_elaris_project_gu.Prelude.{
  All, Any, Bool, Bool-cases, List, Option, [], ap, arith, if◌then◌else◌, inl, inr, none, not, refl,
  some, subst, true, ℕ, ◌&&◌, ◌++◌, ◌∙◌, ◌∷◌, ◌≡◌,
}
use kenshu_elaris_project_gu.GoText.{Text}
use kenshu_elaris_project_gu.Lodging.Chat.{
  Act, Chat, Event, GuestResponse, Message, next, replied, reply, shown_booking_number,
  shown_document,
}
use kenshu_elaris_project_gu.Lodging.Gate.{answer, answer_to, checkin_from, finish_checkin}
use kenshu_elaris_project_gu.Lodging.Plan.{
  LodgingFlow, SystemRequest, booking_checking, check_in_complete, eq_notification, eq_request,
  no_request,
}
use kenshu_elaris_project_gu.World.{Outcome, err, ok, panics}

-- What holds of a success.
abbrev pub OnDone : {A : Type 0} → (A → Chat → Type 0) → Outcome A × Chat → Type 0
OnDone Q (ok a, c) = Q a c
OnDone Q (err e, c) = Unit {0}
OnDone Q (panics, c) = Unit {0}

-- The message makes a request that the flow has set.
abbrev pub asks_for : SystemRequest → Message → Bool
asks_for r m = not (eq_request r no_request) && eq_request m.request r

abbrev pub Completes : Message → Type 0
Completes m = eq_notification m.notification check_in_complete ≡ true

module _ (flow : LodgingFlow) (document booking : Text) where
  -- What a message asks for; a notice that the booking is being checked asks for nothing.
  abbrev pub answer_due : Message → Option GuestResponse
  answer_due m =
      if eq_notification m.notification booking_checking
      then none
      else if asks_for flow.show_document_request m
      then some (shown_document document)
      else if asks_for flow.show_booking_number_request m
      then some (shown_booking_number booking)
      else none

  abbrev pub with_answer : Message → Option GuestResponse → List Event → List Event
  with_answer m none l = l
  with_answer m (some r) l = replied m.correlation_id r ∷ l

  -- The answers that some messages ask for, put to a log one by one.
  unfoldable pub answered : List Message → List Event → List Event
  answered [] l = l
  answered (m ∷ ms) l = answered ms (with_answer m (answer_due m) l)

  -- Messages were read up to the first that completes the check-in, and answered.
  pub record CheckedIn (inbox : List Message) (c c' : Chat) : Type 0 where
    pub before : List Message
    pub last : Message
    pub read : inbox ≡ before ++ (last ∷ c'.inbox)
    pub complete : Completes last
    pub early : All (λ m. ¬ Completes m) before
    pub replies : c'.log ≡ answered before c.log

  CheckedIn-more :
      (m : Message) (ms : List Message) (c c1 c' : Chat)
      → ¬ Completes m
      → c1.log ≡ with_answer m (answer_due m) c.log
      → CheckedIn ms c1 c'
      → CheckedIn (m ∷ ms) c c'
  unfolding answered
  CheckedIn-more m ms c c1 c' h e k = record {
    before = m ∷ k.before;
    last = k.last;
    read = ap (λ l. m ∷ l) k.read;
    complete = k.complete;
    early = (h, k.early);
    replies = k.replies ∙ ap (answered k.before) e;
  }

  OnDone-weaken :
      (Q R : Unit {0} → Chat → Type 0) (r : Outcome (Unit {0}) × Chat)
      → ((a : Unit {0}) (c : Chat) → Q a c → R a c)
      → OnDone Q r
      → OnDone R r
  OnDone-weaken Q R (ok a, c) f h = f a c h
  OnDone-weaken Q R (err e, c) f h = tt
  OnDone-weaken Q R (panics, c) f h = tt

  answer-log :
      (m : Message) (r : Option GuestResponse) (c : Chat) (f : Act (Unit {0})) (Q : Chat → Type 0)
      → ((c1 : Chat) → c1.log ≡ with_answer m r c.log → OnDone (λ _. Q) (f c1))
      → OnDone (λ _. Q) (next (answer m r c).0 (λ _. f) (answer m r c).1)
  unfolding reply
  answer-log m none c f Q k = k c refl
  answer-log m (some r) c f Q k = elim (Bool-cases (c.sends c.sent)) [
    | inl e ↦ rw e (k _ refl)
    | inr e ↦ rw e tt
  ]

  checking-early :
      (m : Message) → eq_notification m.notification booking_checking ≡ true → ¬ Completes m
  checking-early m e h = ground (arith, e, h)

  checkin_from-CheckedIn :
      (ms : List Message) (c : Chat)
      → OnDone (λ _ c'. CheckedIn ms c c') (checkin_from flow document booking ms c)
  unfolding checkin_from answered answer_to
  checkin_from-CheckedIn [] c = tt
  checkin_from-CheckedIn (m ∷ ms) c =
      let c1 : Chat = record c { inbox = ms } in
      elim (Bool-cases (eq_notification m.notification booking_checking)) [
        | inl e ↦ rw e (
            OnDone-weaken _ _ (checkin_from flow document booking ms c1)
              (λ _ c' k. CheckedIn-more m ms c c1 c' (checking-early m e) (rw e refl) k)
              (checkin_from-CheckedIn ms c1))
        | inr e ↦ elim (Bool-cases (eq_notification m.notification check_in_complete)) [
          | inl f ↦
              rw (e, f)
                (record {
                  before = [];
                  last = m;
                  read = refl;
                  complete = f;
                  early = tt;
                  replies = refl;
                })
          | inr f ↦
              rw (e, f)
                (answer-log m (answer_to flow document booking m) c1
                  (checkin_from flow document booking ms) (λ c'. CheckedIn (m ∷ ms) c c')
                  λ c2 l.
                    OnDone-weaken _ _ (checkin_from flow document booking ms c2)
                      (λ _ c' k.
                        CheckedIn-more m ms c c2 c' (λ h. ground (arith, f, h)) (l ∙ rw e refl) k)
                      (checkin_from-CheckedIn ms c2))
        ]
      ]

  -- If the check-in succeeds, the messages of the inbox were read up to the first that says that the
  -- check-in is complete, and of those before it each that made the flow's request for the document
  -- was answered with the document, and each other that made its request for the booking number with
  -- the booking number, under its own identifier and in order, save those that only say that the
  -- booking is being checked; nothing else was put to the log.
  pub finish_checkin-CheckedIn :
      (c c' : Chat) → finish_checkin flow document booking c ≡ (ok tt, c') → CheckedIn c.inbox c c'
  unfolding finish_checkin
  finish_checkin-CheckedIn c c' e =
      subst (λ r. OnDone (λ _ c1. CheckedIn c.inbox c c1) r) e (checkin_from-CheckedIn c.inbox c)

  answer_ends :
      (m : Message) (r : Option GuestResponse) (c : Chat) (f : Act (Unit {0}))
      → ((n : ℕ) → c.sends n ≡ true)
      → ((c1 : Chat) → ((n : ℕ) → c1.sends n ≡ true) → (f c1).0 ≡ ok tt)
      → (next (answer m r c).0 (λ _. f) (answer m r c).1).0 ≡ ok tt
  unfolding reply
  answer_ends m none c f s k = k c s
  answer_ends m (some r) c f s k = rw (s c.sent) (k _ s)

  checkin_from_ends :
      (ms : List Message) (c : Chat)
      → ((n : ℕ) → c.sends n ≡ true)
      → Any Completes ms
      → (checkin_from flow document booking ms c).0 ≡ ok tt
  unfolding checkin_from
  checkin_from_ends [] c s h = absurd h
  checkin_from_ends (m ∷ ms) c s h =
      let c1 : Chat = record c { inbox = ms } in
      elim (Bool-cases (eq_notification m.notification booking_checking)) [
        | inl e ↦ rw e (checkin_from_ends ms c1 s (later h (checking-early m e)))
        | inr e ↦ elim (Bool-cases (eq_notification m.notification check_in_complete)) [
          | inl f ↦ rw (e, f) refl
          | inr f ↦
              rw (e, f)
                (answer_ends m (answer_to flow document booking m) c1
                  (checkin_from flow document booking ms) s
                  λ c2 s2. checkin_from_ends ms c2 s2 (later h (λ k. ground (arith, f, k))))
        ]
      ]
    where
      later : Any Completes (m ∷ ms) → ¬ Completes m → Any Completes ms
      later (inl k) n = absurd (n k)
      later (inr k) n = k

  -- If every send is acknowledged and a message that says that the check-in is complete will arrive,
  -- then the check-in succeeds.
  pub finish_checkin_ends :
      (c : Chat)
      → ((n : ℕ) → c.sends n ≡ true)
      → Any Completes c.inbox
      → (finish_checkin flow document booking c).0 ≡ ok tt
  unfolding finish_checkin
  finish_checkin_ends c s h = checkin_from_ends c.inbox c s h
