-- ===== src/ChatClient/Reader.antt =====
-- `readLoop` and `sendAck` of internal/infra/websocket/lodging_chat.go, and what they hand on.
use kenshu_elaris_project_gu.Prelude.{
  Bool, Bool-cases, List, Option, [], ap, if◌then◌else◌, inl, inr, is_some, map, none, not, refl,
  some, suc, ℕ, ◌&&◌, ◌++◌, ◌∷◌, ◌≡◌,
}
use kenshu_elaris_project_gu.ChatClient.{
  Arrival, ChatMessage, Payload, ack, acked, guest_action, guest_response, inbound, no_payload,
  system_notification, system_request,
}
use kenshu_elaris_project_gu.GoText.{Text, is_empty}
use kenshu_elaris_project_gu.World.{Error}

-- What `ReadMessage` and `protojson.Unmarshal` make of a frame.
pub data Frame : Type 0 where
  unreadable : Error → Frame
  message : ChatMessage → Frame

-- What the reader has done: what it put into the channels, the acknowledgements that it tried to
-- write, in order, and the error that ended it; none while it still reads.
pub record Reading : Type 0 where
  pub handed_on : List Arrival
  pub acks : List ChatMessage
  pub failed : Option Error

-- `sendAck`, given a fresh identifier
unfoldable pub send_ack : Text → ChatMessage → List ChatMessage → List ChatMessage
send_ack id msg acks =
    if is_empty msg.message_id
    then acks
    else record { message_id = id; correlation_id = msg.message_id; payload = ack msg.message_id }
      ∷ acks

-- `msg.GetAck()`
abbrev pub ack_of : Payload → Option Text
ack_of (ack id) = some id
ack_of (guest_action a) = none
ack_of (guest_response r) = none
ack_of (system_notification n) = none
ack_of (system_request r) = none
ack_of no_payload = none

abbrev pub hand_on : Text → ChatMessage → Option Text → Reading → Reading
hand_on id m (some a) r = record r { handed_on = acked a ∷ r.handed_on }
hand_on id m none r = record r { handed_on = inbound m ∷ r.handed_on; acks = send_ack id m r.acks }

-- `readLoop` over the frames; `ids` are the identifiers for its acknowledgements.
unfoldable pub read_loop : (ℕ → Text) → ℕ → List Frame → Reading
read_loop ids n [] = record { handed_on = []; acks = []; failed = none }
read_loop ids n (unreadable e ∷ frames) = record { handed_on = []; acks = []; failed = some e }
read_loop ids n (message m ∷ frames) =
    hand_on (ids n) m (ack_of m.payload) (read_loop ids (suc n) frames)

-- Why a reader stopped at what was left of the frames: they are over, or the next is unreadable.
unfoldable pub StoppedAt : List Frame → Option Error → Type 0
StoppedAt [] failed = failed ≡ none
StoppedAt (unreadable e ∷ frames) failed = failed ≡ some e
StoppedAt (message m ∷ frames) failed = ⊥

abbrev arrival_for : ChatMessage → Option Text → Arrival
arrival_for m none = inbound m
arrival_for m (some a) = acked a

abbrev pub arrival_of : ChatMessage → Arrival
arrival_of m = arrival_for m (ack_of m.payload)

-- Whether a message is to be acknowledged.
abbrev pub wants_ack : ChatMessage → Bool
wants_ack m = not (is_some (ack_of m.payload)) && not (is_empty m.message_id)

unfoldable pub ids_to_ack : List ChatMessage → List Text
ids_to_ack [] = []
ids_to_ack (m ∷ ms) = let rest = ids_to_ack ms in if wants_ack m then m.message_id ∷ rest else rest

-- What an acknowledgement answers to, and what it says.
abbrev pub answers : ChatMessage → Text × Payload
answers a = (a.correlation_id, a.payload)

-- What the reader has done with the frames.
pub record HandsOn (frames : List Frame) (r : Reading) : Type 0 where
  pub messages : List ChatMessage
  pub left : List Frame
  pub read : frames ≡ map message messages ++ left
  pub stopped : StoppedAt left r.failed
  pub handed : r.handed_on ≡ map arrival_of messages
  pub acknowledged : map answers r.acks ≡ map (λ i. (i, ack i)) (ids_to_ack messages)

-- The messages up to the end or to the first frame that cannot be read, whose error ends the
-- reader, are handed on, in order, acknowledgements over one channel and all else over the other.
-- Exactly those with an identifier that are no acknowledgements are acknowledged, in the same
-- order, each by a message that answers to its identifier and names it as the acknowledged one.
pub read_loop-HandsOn :
    (ids : ℕ → Text) (n : ℕ) (frames : List Frame) → HandsOn frames (read_loop ids n frames)
unfolding read_loop ids_to_ack send_ack StoppedAt
read_loop-HandsOn ids n [] = record {
  messages = [];
  left = [];
  read = refl;
  stopped = refl;
  handed = refl;
  acknowledged = refl;
}
read_loop-HandsOn ids n (unreadable e ∷ frames) = record {
  messages = [];
  left = unreadable e ∷ frames;
  read = refl;
  stopped = refl;
  handed = refl;
  acknowledged = refl;
}
read_loop-HandsOn ids n (message m ∷ frames) =
    let h = read_loop-HandsOn ids (suc n) frames in by_ack (ack_of m.payload) refl h
  where
    by_ack :
        (o : Option Text)
        → ack_of m.payload ≡ o
        → HandsOn frames (read_loop ids (suc n) frames)
        → HandsOn (message m ∷ frames) (hand_on (ids n) m o (read_loop ids (suc n) frames))
    by_ack (some a) e h = record {
      messages = m ∷ h.messages;
      left = h.left;
      read = ap (λ l. message m ∷ l) h.read;
      stopped = h.stopped;
      handed = rw e (ap (λ l. acked a ∷ l) h.handed);
      acknowledged = rw e h.acknowledged;
    }
    by_ack none e h = elim (Bool-cases (is_empty m.message_id)) [
      | inl f ↦ rw f (record {
        messages = m ∷ h.messages;
        left = h.left;
        read = ap (λ l. message m ∷ l) h.read;
        stopped = h.stopped;
        handed = rw e (ap (λ l. inbound m ∷ l) h.handed);
        acknowledged = rw (e, f) h.acknowledged;
      })
      | inr f ↦ rw f (record {
        messages = m ∷ h.messages;
        left = h.left;
        read = ap (λ l. message m ∷ l) h.read;
        stopped = h.stopped;
        handed = rw e (ap (λ l. inbound m ∷ l) h.handed);
        acknowledged = rw (e, f) (ap (λ l. (m.message_id, ack m.message_id) ∷ l) h.acknowledged);
      })
    ]
