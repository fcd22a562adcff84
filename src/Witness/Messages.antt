-- ===== src/Witness/Messages.antt =====
-- The theorems on the bus and the waits, at a guest who has booked.
use kenshu_elaris_project_gu.Prelude.{
  Any, List, Option, [], length, none, pos, refl, some, suc, true, ℕ, ◌++◌, ◌+◌, ◌∷◌, ◌≡◌, ◌≤◌, ◌⊎◌,
}
use kenshu_elaris_project_gu.Bus.{
  Decoders, Delivery, Topic, new_bus, payment_request_type, publish, run, string_value,
}
use kenshu_elaris_project_gu.Bus.Kept.{IsEmptyChannel, Offered, publish-Offered}
use kenshu_elaris_project_gu.Bus.Kinds.{Publishes, run-Publishes}
use kenshu_elaris_project_gu.Bus.Messages.{BookingConfirmed, PaymentRequest}
use kenshu_elaris_project_gu.Cache.{ensure_key, get, load, lookup}
use kenshu_elaris_project_gu.Domain.{GuestJourneyCacheValue}
use kenshu_elaris_project_gu.GoText.{Text, text, text_eq}
use kenshu_elaris_project_gu.Waits.{
  Round, Waited, match_booking_confirmation, match_payment_request, received, wait,
}
use kenshu_elaris_project_gu.Waits.Accepted.{Confirmed, match_booking_confirmation-Confirmed}
use kenshu_elaris_project_gu.Waits.Loop.{wait_takes_one_a_round}
use kenshu_elaris_project_gu.Witness.Data.{invoiced_value, services, world_with}
use kenshu_elaris_project_gu.World.{World, ok}

abbrev booked : World GuestJourneyCacheValue
booked = world_with invoiced_value

abbrev invoice : PaymentRequest
invoice = record {
  invoice_number = text " INV-2 ";
  total = some (record { amount = pos 100; currency = text "EUR" });
  cottage_name = some (text "Pine");
  payer_email = some (text "Ada.King@test.com ");
}

abbrev foreign : PaymentRequest
foreign = record invoice { cottage_name = some (text "Oak") }

abbrev confirmation : BookingConfirmed
confirmation = record { booking_id = text "b1"; confirmed = true; guest_id = some (text "g1") }

abbrev same : ℕ → ℕ
same c = c

confirmation_runs :
    match_booking_confirmation services confirmation booked
    ≡ (ok tt, (match_booking_confirmation services confirmation booked).1)
unfolding match_booking_confirmation load get ensure_key lookup text_eq
confirmation_runs = refl

match_booking_confirmation-Confirmed_example :
    Confirmed services confirmation booked
      (match_booking_confirmation services confirmation booked).1
match_booking_confirmation-Confirmed_example =
    match_booking_confirmation-Confirmed services confirmation booked
      (match_booking_confirmation services confirmation booked).1 confirmation_runs

-- A foreign request is kept, and the guest's own arrives.
abbrev rounds : List (Round PaymentRequest)
rounds = record { queued = []; signal = received invoice } ∷ []

abbrev waited : Waited GuestJourneyCacheValue PaymentRequest
waited = wait (match_payment_request services same) rounds (foreign ∷ []) booked

-- The guest's own request stands behind two foreign ones, and nothing else arrives.
wait_takes_one_a_round_example :
    length (foreign ∷ foreign ∷ invoice ∷ [])
    ≤ length
        (wait (match_payment_request services same) [] (foreign ∷ foreign ∷ invoice ∷ []) booked).1
      + suc (length {A = Round PaymentRequest} [])
wait_takes_one_a_round_example =
    wait_takes_one_a_round (match_payment_request services same) []
      (foreign ∷ foreign ∷ invoice ∷ []) booked

abbrev topic : Topic PaymentRequest
topic = record { channels = none ∷ some foreign ∷ []; pending = foreign ∷ [] }

publish-Offered_example :
    (Any IsEmptyChannel topic.channels
      × Offered invoice topic.channels (publish invoice topic).channels
      × ((publish invoice topic).pending ≡ topic.pending))
    ⊎ ((¬ Any IsEmptyChannel topic.channels)
        × ((publish invoice topic).channels ≡ topic.channels)
        × ((publish invoice topic).pending ≡ topic.pending ++ (invoice ∷ [])))
publish-Offered_example = publish-Offered invoice topic

-- Bodies that are the messages themselves, and one that is none.
abbrev decoders : Decoders (Option PaymentRequest)
decoders = record {
  payment_request_of = λ b. b;
  booking_confirmation_of = λ b. none;
  checkin_today_of = λ b. none;
}

abbrev typed : Text → Option PaymentRequest → Delivery (Option PaymentRequest)
typed type b = record {
  headers = some ((text "message_type", some (string_value type)) ∷ []);
  body = b;
}

abbrev deliveries : List (Delivery (Option PaymentRequest))
deliveries =
    typed payment_request_type (some invoice)
    ∷ typed (text "unknown") (some invoice)
    ∷ typed payment_request_type (some foreign)
    ∷ []

run-Publishes_example :
    Publishes decoders deliveries new_bus (run decoders none deliveries new_bus).1
    × (length (run decoders none deliveries new_bus).0 ≡ length deliveries)
run-Publishes_example = run-Publishes decoders none deliveries new_bus
