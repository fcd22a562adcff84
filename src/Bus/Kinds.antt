-- ===== src/Bus/Kinds.antt =====
-- On the bus: how the deliveries are sorted by kind.
use kenshu_elaris_project_gu.Prelude.{
  List, Option, [], ap, arith, false, if◌then◌else◌, length, none, refl, some, subst, suc, sym,
  true, ◌++◌, ◌∙◌, ◌∷◌, ◌≡◌,
}
use kenshu_elaris_project_gu.Bus.{
  Decoders, Delivery, GuestBus, Topic, after_delivery, booking_confirmation_type,
  checkin_today_type, handle_delivery, message_type, payment_request_type, publish, run,
}
use kenshu_elaris_project_gu.Bus.Kept.{publish_all}
use kenshu_elaris_project_gu.GoText.{Text, text_eq, text_eq_iff}
use kenshu_elaris_project_gu.World.{Error}

abbrev listed : {M : Type 0} → Option M → List M
listed none = []
listed (some m) = m ∷ []

-- The message of a delivery, if it has that type and can be read.
unfoldable pub of_type : {B M : Type 0} → Text → (B → Option M) → Delivery B → List M
of_type type decode d = if text_eq (message_type d) type then listed (decode d.body) else []

-- Those of many deliveries, in order.
unfoldable pub all_of_type : {B M : Type 0} → Text → (B → Option M) → List (Delivery B) → List M
all_of_type type decode [] = []
all_of_type type decode (d ∷ ds) = of_type type decode d ++ all_of_type type decode ds

publish_all-append :
    {M : Type 0} (xs ys : List M) (t : Topic M)
    → publish_all (xs ++ ys) t ≡ publish_all ys (publish_all xs t)
unfolding publish_all
publish_all-append [] ys t = refl
publish_all-append (x ∷ xs) ys t = publish_all-append xs ys (publish x t)

-- A text that is `s` is no other.
not_another : (t s r : Text) → text_eq s r ≡ false → text_eq t s ≡ true → text_eq t r ≡ false
not_another t s r h e = subst (λ x. text_eq x r ≡ false) (sym ((text_eq_iff t s).0 e)) h

module _ {B : Type 0} (decode : Decoders B) where
  -- Each topic of a bus is that of another, with some deliveries published.
  pub record Publishes (ds : List (Delivery B)) (b b' : GuestBus) : Type 0 where
    pub payments :
        b'.payment_requests
        ≡ publish_all
            (all_of_type payment_request_type decode.payment_request_of ds)
            b.payment_requests
    pub confirmations :
        b'.booking_confirmations
        ≡ publish_all
            (all_of_type booking_confirmation_type decode.booking_confirmation_of ds)
            b.booking_confirmations
    pub checkins :
        b'.checkin_todays
        ≡ publish_all (all_of_type checkin_today_type decode.checkin_today_of ds) b.checkin_todays

  after_payment :
      (d : Delivery B) (b : GuestBus)
      → (after_delivery decode d b).payment_requests
        ≡ publish_all (of_type payment_request_type decode.payment_request_of d) b.payment_requests
  unfolding after_delivery handle_delivery of_type publish_all
  after_payment d b = ground arith

  after_confirmation :
      (d : Delivery B) (b : GuestBus)
      → (after_delivery decode d b).booking_confirmations
        ≡ publish_all
            (of_type booking_confirmation_type decode.booking_confirmation_of d)
            b.booking_confirmations
  unfolding after_delivery handle_delivery of_type publish_all text_eq
  after_confirmation d b =
      ground
        (arith, not_another (message_type d) payment_request_type booking_confirmation_type refl)

  after_checkin :
      (d : Delivery B) (b : GuestBus)
      → (after_delivery decode d b).checkin_todays
        ≡ publish_all (of_type checkin_today_type decode.checkin_today_of d) b.checkin_todays
  unfolding after_delivery handle_delivery of_type publish_all text_eq
  after_checkin d b = ground (
    arith,
    not_another (message_type d) payment_request_type checkin_today_type refl,
    not_another (message_type d) booking_confirmation_type checkin_today_type refl,
  )

  -- Whatever is delivered, each topic of the bus ends as if the readable messages of its own kind
  -- alone had been published, in order; and each delivery is acknowledged or rejected once.
  pub run-Publishes :
      (ended : Option Error) (ds : List (Delivery B)) (b : GuestBus)
      → Publishes ds b (run decode ended ds b).1 × (length (run decode ended ds b).0 ≡ length ds)
  unfolding run all_of_type publish_all
  run-Publishes ended [] b =
      (record { payments = refl; confirmations = refl; checkins = refl }, refl)
  run-Publishes ended (d ∷ ds) b =
      let (rest, counted) = run-Publishes ended ds (after_delivery decode d b) in
      (
        record {
          payments =
              rest.payments
              ∙ ap (publish_all (all_of_type payment_request_type decode.payment_request_of ds))
                  (after_payment d b)
              ∙ sym (
                  publish_all-append (of_type payment_request_type decode.payment_request_of d) _
                    _);
          confirmations =
              rest.confirmations
              ∙ ap
                  (publish_all
                    (all_of_type booking_confirmation_type decode.booking_confirmation_of ds))
                  (after_confirmation d b)
              ∙ sym (
                  publish_all-append
                    (of_type booking_confirmation_type decode.booking_confirmation_of d) _ _);
          checkins =
              rest.checkins
              ∙ ap (publish_all (all_of_type checkin_today_type decode.checkin_today_of ds))
                  (after_checkin d b)
              ∙ sym (publish_all-append (of_type checkin_today_type decode.checkin_today_of d) _ _);
        },
        ap suc counted,
      )
