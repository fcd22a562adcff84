-- ===== src/Witness/Channels.antt =====
-- The theorems on the chat client and on the time events, at a short chat and a short day.
use kenshu_elaris_project_gu.Lodging.Chat.{receive_cottage_key}
use kenshu_elaris_project_gu.TimeEvents.{takes}
use kenshu_elaris_project_gu.Prelude.{
  Bool, List, [], arith, length, none, refl, some, true, ◌*◌, ◌<◌, ◌∷◌,
}
use kenshu_elaris_project_gu.ChatClient.{
  ChatMessage, Client, ack, acked, inbound, inbounds, is_system, no_payload, reply, send_action,
  system_request, wait_for_next_system_message,
}
use kenshu_elaris_project_gu.ChatClient.Awaited.{Agrees, await-Agrees, expect_rounds}
use kenshu_elaris_project_gu.ChatClient.Fifo.{Sends, action_and_reply-Sends}
use kenshu_elaris_project_gu.ChatClient.Inbox.{
  Answers, inbox_of, system_messages, wait_for_next_system_message-Answers,
}
use kenshu_elaris_project_gu.ChatClient.Reader.{
  Frame, HandsOn, message, read_loop, read_loop-HandsOn, unreadable,
}
use kenshu_elaris_project_gu.GoText.{text}
use kenshu_elaris_project_gu.GoTime.{Instant, hour_ns}
use kenshu_elaris_project_gu.Lodging.Chat.{Chat, Message, await}
use kenshu_elaris_project_gu.Lodging.Plan.{eq_request, give_cottage_key, take_cottage_key}
use kenshu_elaris_project_gu.TimeEvents.{
  Reached, TimeService, at_key, begins, delivers, goes, handle_delivery, new_service, subscribe,
  subscribes, take_event,
}
use kenshu_elaris_project_gu.TimeEvents.Faithful.{Faithful, Reached-Faithful}
use kenshu_elaris_project_gu.World.{chat_failed, context_canceled}

abbrev key_request : ChatMessage
key_request = record {
  message_id = text "m1";
  correlation_id = text "c1";
  payload = system_request give_cottage_key;
}

abbrev empty_message : ChatMessage
empty_message = record { message_id = []; correlation_id = []; payload = no_payload }

-- A client to which a stray acknowledgement, two messages and its own acknowledgement arrive.
abbrev client : Client
client = record {
  pending = [];
  arrivals =
      acked (text "old") ∷ inbound empty_message ∷ inbound key_request ∷ acked (text "id") ∷ [];
  ends_with = context_canceled;
  ids = λ _. text "id";
  made = 0;
  writes = λ _. true;
  tried = 0;
  written = [];
}

wait_for_next_system_message-Answers_example :
    Answers context_canceled (inbox_of client) (wait_for_next_system_message client)
wait_for_next_system_message-Answers_example = wait_for_next_system_message-Answers client

abbrev gives_key : Message → Bool
gives_key m = eq_request m.request give_cottage_key

abbrev lodge : Chat
lodge = record {
  inbox = inbox_of client;
  sends = λ _. true;
  sent = 0;
  current = λ _. none;
  events = λ _. [];
  waits = 0;
  log = [];
}

one_message : length (inbox_of client) < 2
unfolding inbounds system_messages is_system
one_message = omega arith

await-Agrees_example :
    Agrees context_canceled (await gives_key lodge) (expect_rounds gives_key 2 client)
await-Agrees_example = await-Agrees gives_key 2 client lodge refl one_message

action_and_reply-Sends_example :
    Sends client (text "id") (send_action take_cottage_key client)
    × Sends client (text "id") (reply (some key_request) (receive_cottage_key (text "k")) client)
action_and_reply-Sends_example =
    action_and_reply-Sends take_cottage_key key_request (receive_cottage_key (text "k")) client

abbrev frames : List Frame
frames =
    message key_request
    ∷ message (record { message_id = text "a"; correlation_id = []; payload = ack (text "id") })
    ∷ message empty_message
    ∷ unreadable chat_failed
    ∷ message key_request
    ∷ []

read_loop-HandsOn_example : HandsOn frames (read_loop (λ _. text "r") 0 frames)
read_loop-HandsOn_example = read_loop-HandsOn (λ _. text "r") 0 frames

-- Six in the morning of the first day, for a subscriber of that hour.
abbrev six : Instant
six = 6 * hour_ns

abbrev nobody : TimeService
nobody = record { subscribers = []; current = none; made = 0; published = [] }

reached :
    Reached
      (handle_delivery (some six) (record (subscribe 6 nobody) {
        subscribers = at_key take_event 0 (subscribe 6 nobody).subscribers;
      })).1
unfolding new_service
reached = goes (goes (goes (begins refl) (subscribes 6)) (takes 0)) (delivers (some six))

Reached-Faithful_example :
    Faithful
      (handle_delivery (some six) (record (subscribe 6 nobody) {
        subscribers = at_key take_event 0 (subscribe 6 nobody).subscribers;
      })).1
Reached-Faithful_example = Reached-Faithful reached
