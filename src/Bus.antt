-- ===== src/Bus.antt =====
-- internal/app/journey/journey_services/guest_communication_bus.go: the messages for one guest are handed to
-- the subscribers of their kind, or kept. The bus has the same code for each of its three kinds; a
-- topic is that code once. A mutex makes each operation one step.
pub mod Messages
pub mod Kept
pub mod Kinds
use Messages.{BookingConfirmed, CheckinToday, PaymentRequest}
use kenshu_elaris_project_gu.Prelude.{
  Bool, List, Option, [], false, if◌then◌else◌, is_some, none, some, true, ◌++◌, ◌∷◌,
}
use kenshu_elaris_project_gu.GoText.{Text, text, text_eq}
use kenshu_elaris_project_gu.World.{Error, channel_closed}

-- The channels of the subscribers, each with room for one message, and the messages kept. The
-- channels are a set in the source; nothing depends on their order.
pub record Topic (M : Type 0) : Type 0 where
  pub channels : List (Option M)
  pub pending : List M

module _ {M : Type 0} where
  abbrev pub empty_topic : Topic M
  empty_topic = record { channels = []; pending = [] }

  -- `notify…Subscribers`: a channel that is full is passed over.
  unfoldable pub notify_subscribers : M → List (Option M) → List (Option M)
  notify_subscribers msg [] = []
  notify_subscribers msg (none ∷ channels) = some msg ∷ notify_subscribers msg channels
  notify_subscribers msg (some m ∷ channels) = some m ∷ notify_subscribers msg channels

  -- `delivered`
  unfoldable pub has_room : List (Option M) → Bool
  has_room [] = false
  has_room (none ∷ channels) = true
  has_room (some m ∷ channels) = has_room channels

  -- `publish…`
  unfoldable pub publish : M → Topic M → Topic M
  publish msg t =
      if has_room t.channels
      then record t { channels = notify_subscribers msg t.channels }
      else record t { pending = t.pending ++ (msg ∷ []) }

  -- `takePending…`
  unfoldable pub take_pending : Topic M → Option M × Topic M
  take_pending t = elim (t.pending) [
    | [] ↦ (none, t)
    | msg ∷ rest ↦ (some msg, record t { pending = rest })
  ]

-- A value of a header: a string, bytes, or any other with what `fmt.Sprint` makes of it.
pub data HeaderValue : Type 0 where
  string_value bytes_value other_value : Text → HeaderValue

-- A delivery of the queue: its headers, of which the table or a value may be nil, and its body.
pub record Delivery (B : Type 0) : Type 0 where
  pub headers : Option (List (Text × Option HeaderValue))
  pub body : B

abbrev header_text : Option HeaderValue → Text
header_text none = []
header_text (some (string_value s)) = s
header_text (some (bytes_value s)) = s
header_text (some (other_value s)) = s

unfoldable pub header_in : List (Text × Option HeaderValue) → Text → Text
header_in [] key = []
header_in ((k, v) ∷ table) key =
    let rest = header_in table key in if text_eq k key then header_text v else rest

-- `deliveryHeader`
unfoldable pub delivery_header : Option (List (Text × Option HeaderValue)) → Text → Text
delivery_header none key = []
delivery_header (some table) key = header_in table key

-- `deliveryHeader(delivery, "message_type")`
abbrev pub message_type : {B : Type 0} → Delivery B → Text
message_type d = delivery_header d.headers (text "message_type")

-- `proto.Unmarshal` at the three types of message
pub record Decoders (B : Type 0) : Type 0 where
  pub payment_request_of : B → Option PaymentRequest
  pub booking_confirmation_of : B → Option BookingConfirmed
  pub checkin_today_of : B → Option CheckinToday

pub record GuestBus : Type 0 where
  pub payment_requests : Topic PaymentRequest
  pub booking_confirmations : Topic BookingConfirmed
  pub checkin_todays : Topic CheckinToday
  pub done : Bool
  pub err_of : Option Error

-- `NewGuestCommunicationBus`, and what `Reset` makes of any bus
unfoldable pub new_bus : GuestBus
new_bus = record {
  payment_requests = empty_topic;
  booking_confirmations = empty_topic;
  checkin_todays = empty_topic;
  done = false;
  err_of = none;
}

abbrev pub payment_request_type : Text
payment_request_type = text "paymentSimulator.payment.v1.PaymentRequest"

abbrev pub booking_confirmation_type : Text
booking_confirmation_type = text "cottageManager.invoice.BookingConfirmedNotificationEvent"

abbrev pub checkin_today_type : Text
checkin_today_type = text "lodging.v1.CheckInTodayNotification"

-- `publishPaymentRequest`, `publishBookingConfirmation` and `publishCheckinToday`
abbrev pub publish_payment_request : PaymentRequest → GuestBus → GuestBus
publish_payment_request m b = record b { payment_requests = publish m b.payment_requests }

abbrev pub publish_booking_confirmation : BookingConfirmed → GuestBus → GuestBus
publish_booking_confirmation m b = record b {
  booking_confirmations = publish m b.booking_confirmations;
}

abbrev pub publish_checkin_today : CheckinToday → GuestBus → GuestBus
publish_checkin_today m b = record b { checkin_todays = publish m b.checkin_todays }

module _ {B : Type 0} (decode : Decoders B) where
  abbrev handle_payment : Option PaymentRequest → GuestBus → Option GuestBus
  handle_payment none b = none
  handle_payment (some m) b = some (publish_payment_request m b)

  abbrev handle_confirmation : Option BookingConfirmed → GuestBus → Option GuestBus
  handle_confirmation none b = none
  handle_confirmation (some m) b = some (publish_booking_confirmation m b)

  abbrev handle_checkin : Option CheckinToday → GuestBus → Option GuestBus
  handle_checkin none b = none
  handle_checkin (some m) b = some (publish_checkin_today m b)

  -- `handleDelivery`; none is an error
  unfoldable pub handle_delivery : Delivery B → GuestBus → Option GuestBus
  handle_delivery d b =
      if text_eq (message_type d) payment_request_type
      then handle_payment (decode.payment_request_of d.body) b
      else if text_eq (message_type d) booking_confirmation_type
      then handle_confirmation (decode.booking_confirmation_of d.body) b
      else if text_eq (message_type d) checkin_today_type
      then handle_checkin (decode.checkin_today_of d.body) b
      else none

  -- The bus behind a delivery: an error leaves it as it was.
  unfoldable pub after_delivery : Delivery B → GuestBus → GuestBus
  after_delivery d b = elim (handle_delivery d b) [ none ↦ b | some b' ↦ b' ]

  -- The goroutine of `Start` over the deliveries until the channel is closed (`ended` is none) or
  -- the context ends. The deliveries are acknowledged (true) or rejected, in order.
  unfoldable pub run : Option Error → List (Delivery B) → GuestBus → List Bool × GuestBus
  run ended [] b = ([], record b { done = true; err_of = some (or_closed ended) })
    where
      or_closed : Option Error → Error
      or_closed none = channel_closed
      or_closed (some e) = e
  run ended (d ∷ ds) b =
      let rest = run ended ds (after_delivery d b) in
      (is_some (handle_delivery d b) ∷ rest.0, rest.1)
