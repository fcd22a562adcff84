-- ===== src/ChatClient.antt =====
-- internal/infra/websocket/lodging_chat.go: the client of the lodging chat. Its reader hands on what
-- arrives over two channels; a call that sends waits for its acknowledgement and keeps the messages
-- that arrive before it.
pub mod Reader
pub mod Fifo
pub mod Inbox
pub mod Awaited
use kenshu_elaris_project_gu.Prelude.{
  Bool, List, Option, [], false, if◌then◌else◌, length, none, not, some, suc, true, zero, ℕ, ◌++◌,
  ◌+◌, ◌||◌, ◌∷◌,
}
use kenshu_elaris_project_gu.GoText.{Text, text_eq}
use kenshu_elaris_project_gu.Lodging.Chat.{GuestResponse}
use kenshu_elaris_project_gu.Lodging.Plan.{
  GuestAction, SystemNotification, SystemRequest, eq_notification, eq_request, no_notification,
  no_request,
}
use kenshu_elaris_project_gu.World.{Error, Outcome, chat_failed, err, ok, panics, request_is_nil}

-- `lodging.ChatMessage`, as far as the client and the lodging step read and set it
pub data Payload : Type 0 where
  guest_action : GuestAction → Payload
  guest_response : GuestResponse → Payload
  ack : Text → Payload
  system_notification : SystemNotification → Payload
  system_request : SystemRequest → Payload
  no_payload : Payload

pub record ChatMessage : Type 0 where
  pub message_id : Text
  pub correlation_id : Text
  pub payload : Payload

-- What the reader puts into `ackCh` and into `inboundCh`.
pub data Arrival : Type 0 where
  acked : Text → Arrival
  inbound : ChatMessage → Arrival

-- The client. `arrivals` are what will still arrive, in the order in which the `select`s take it;
-- when they are over, the reader has failed or the context has ended. The n-th fresh identifier is
-- `ids n`, and the n-th write succeeds or fails by `writes`.
pub record Client : Type 0 where
  pub pending : List ChatMessage
  pub arrivals : List Arrival
  pub ends_with : Error
  pub ids : ℕ → Text
  pub made : ℕ
  pub writes : ℕ → Bool
  pub tried : ℕ
  pub written : List ChatMessage  -- the latest first

abbrev pub Replied : Type 0 → Type 0
Replied A = Outcome A × Client

-- `uuid.NewString`
abbrev pub made_ids : ℕ → Client → Client
made_ids n c = record c { made = c.made + n }

-- The loop of `sendAndWaitAck`, over what arrives.
unfoldable pub wait_for_ack :
    Error
    → Text
    → List ChatMessage
    → List Arrival
    → Outcome (Unit {0}) × (List ChatMessage × List Arrival)
wait_for_ack ending id pending [] = (err ending, (pending, []))
wait_for_ack ending id pending (acked a ∷ arrivals) =
    let later = wait_for_ack ending id pending arrivals in
    if text_eq a id then (ok tt, (pending, arrivals)) else later
wait_for_ack ending id pending (inbound m ∷ arrivals) =
    wait_for_ack ending id (pending ++ (m ∷ [])) arrivals

abbrev pub after_wait :
    Client → Outcome (Unit {0}) × (List ChatMessage × List Arrival) → Replied (Unit {0})
after_wait c (o, (pending, arrivals)) = (o, record c { pending = pending; arrivals = arrivals })

-- `write`
unfoldable pub write : ChatMessage → Client → Bool × Client
write msg c =
    if c.writes c.tried
    then (true, record c { tried = suc c.tried; written = msg ∷ c.written })
    else (false, record c { tried = suc c.tried })

-- `sendAndWaitAck`
unfoldable pub send_and_wait_ack : ChatMessage → Client → Replied (Unit {0})
send_and_wait_ack msg c =
    let w = write msg c in
    if w.0
    then after_wait (w.1) (wait_for_ack c.ends_with msg.message_id c.pending c.arrivals)
    else (err chat_failed, w.1)

-- `SendAction`
unfoldable pub send_action : GuestAction → Client → Replied (Unit {0})
send_action action c =
    send_and_wait_ack
      (record {
        message_id = c.ids c.made;
        correlation_id = c.ids (suc c.made);
        payload = guest_action action;
      })
      (made_ids 2 c)

-- `Reply`; none is the nil request
unfoldable pub reply : Option ChatMessage → GuestResponse → Client → Replied (Unit {0})
reply none response c = (err request_is_nil, c)
reply (some request) response c =
    send_and_wait_ack
      (record {
        message_id = c.ids c.made;
        correlation_id = request.correlation_id;
        payload = guest_response response;
      })
      (made_ids 1 c)

-- The first message of `inboundCh`; what is in `ackCh` stays there. There it may be at most 32
-- acknowledgements: behind more of them the reader of the program would stop.
unfoldable pub first_inbound : List Arrival → Option (ChatMessage × List Arrival)
first_inbound [] = none
first_inbound (acked a ∷ arrivals) = elim (first_inbound arrivals) [
  | none ↦ none
  | some (m, rest) ↦ some (m, acked a ∷ rest)
]
first_inbound (inbound m ∷ arrivals) = some (m, arrivals)

abbrev pub from_channel : Option (ChatMessage × List Arrival) → Client → Replied ChatMessage
from_channel none c = (err c.ends_with, c)
from_channel (some (m, rest)) c = (ok m, record c { arrivals = rest })

abbrev pub from_pending : List ChatMessage → Client → Replied ChatMessage
from_pending [] c = from_channel (first_inbound c.arrivals) c
from_pending (m ∷ rest) c = (ok m, record c { pending = rest })

-- `nextMessage`
unfoldable pub next_message : Client → Replied ChatMessage
next_message c = from_pending c.pending c

-- `GetSystemNotification` and `GetSystemRequest`
abbrev pub notification_of : Payload → SystemNotification
notification_of (system_notification n) = n
notification_of (guest_action a) = no_notification
notification_of (guest_response r) = no_notification
notification_of (ack id) = no_notification
notification_of (system_request r) = no_notification
notification_of no_payload = no_notification

abbrev pub request_of : Payload → SystemRequest
request_of (system_request r) = r
request_of (guest_action a) = no_request
request_of (guest_response r) = no_request
request_of (ack id) = no_request
request_of (system_notification n) = no_request
request_of no_payload = no_request

-- The test of `WaitForNextSystemMessage`
unfoldable pub is_system : ChatMessage → Bool
is_system m =
    not (eq_notification (notification_of m.payload) no_notification)
    || not (eq_request (request_of m.payload) no_request)

abbrev pub keep_system :
    Replied ChatMessage → (Client → Option (Replied ChatMessage)) → Option (Replied ChatMessage)
keep_system (ok m, c) again = let later = again c in if is_system m then some (ok m, c) else later
keep_system (err e, c) again = some (err e, c)
keep_system (panics, c) again = some (panics, c)

-- The loop of `WaitForNextSystemMessage`, with a bound on its rounds; none means that it ran out.
unfoldable pub wait_rounds : ℕ → Client → Option (Replied ChatMessage)
wait_rounds zero c = none
wait_rounds (suc n) c = keep_system (next_message c) (wait_rounds n)

-- The messages that the client still hands on, in their order.
unfoldable pub inbounds : List Arrival → List ChatMessage
inbounds [] = []
inbounds (acked a ∷ arrivals) = inbounds arrivals
inbounds (inbound m ∷ arrivals) = m ∷ inbounds arrivals

abbrev pub expected : Client → List ChatMessage
expected c = c.pending ++ inbounds c.arrivals

-- `WaitForNextSystemMessage`: each round but the last takes a message.
unfoldable pub wait_for_next_system_message : Client → Option (Replied ChatMessage)
wait_for_next_system_message c = wait_rounds (suc (length (expected c))) c
