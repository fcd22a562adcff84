-- ===== src/Lodging/Chat.antt =====
-- The chat of internal/app/steps/lodging_step/run_lodging.go, behind the interfaces of internal/port/lodging_chat.go
-- and of internal/app/services/hour_notification_service.go, and the loops that wait.
use kenshu_elaris_project_gu.Prelude.{
  Bool, List, Option, [], if◌then◌else◌, ltb, none, not, some, suc, ℕ, ◌&&◌, ◌==◌, ◌∷◌,
}
use kenshu_elaris_project_gu.GoText.{Text}
use kenshu_elaris_project_gu.GoTime.{Instant, day_of}
use kenshu_elaris_project_gu.Lodging.Plan.{
  GuestAction, SystemNotification, SystemRequest, eq_notification, eq_request,
}
use kenshu_elaris_project_gu.World.{Outcome, chat_failed, context_canceled, err, ok, panics}

-- What the program reads of a `ChatMessage` of the system; the correlation id goes into replies.
pub record Message : Type 0 where
  pub correlation_id : Text
  pub notification : SystemNotification
  pub request : SystemRequest

pub data GuestResponse : Type 0 where
  shown_document shown_booking_number receive_cottage_key returned_cottage_key :
      Text → GuestResponse

-- What has happened: a time that ended a wait, an action that was acknowledged, a reply that was
-- acknowledged, and the closing of the chat.
pub data Event : Type 0 where
  woke : Instant → Event
  acted : GuestAction → Event
  replied : Text → GuestResponse → Event
  closed : Event

-- The chat and the clock. `inbox` are the system messages that will still arrive before
-- `WaitForNextSystemMessage` fails. The n-th send succeeds or fails by `sends`; at the n-th wait
-- `CurrentTime` answers `current`, and `events` arrive before the context ends. The log has the
-- latest event first.
pub record Chat : Type 0 where
  pub inbox : List Message
  pub sends : ℕ → Bool
  pub sent : ℕ
  pub current : ℕ → Option Instant
  pub events : ℕ → List Instant
  pub waits : ℕ
  pub log : List Event

abbrev pub Act : Type 0 → Type 0
Act A = Chat → Outcome A × Chat

abbrev pub next : {A B : Type 0} → Outcome A → (A → Act B) → Act B
next (ok a) f c = f a c
next (err e) f c = (err e, c)
next panics f c = (panics, c)

infixl 10 ◌>>=◌ ◌>>◌
abbrev pub ◌>>=◌ : {A B : Type 0} → Act A → (A → Act B) → Act B
◌>>=◌ m f c = next (m c).0 f (m c).1

abbrev pub ◌>>◌ : {B : Type 0} → Act (Unit {0}) → Act B → Act B
m >> n = m >>= λ _. n

abbrev pub return : {A : Type 0} → A → Act A
return a c = (ok a, c)

-- Send and wait for the acknowledgement.
abbrev pub send : Event → Act (Unit {0})
send e c =
    if c.sends c.sent
    then (ok tt, record c { sent = suc c.sent; log = e ∷ c.log })
    else (err chat_failed, record c { sent = suc c.sent })

-- `client.SendAction`
unfoldable pub send_action : GuestAction → Act (Unit {0})
send_action a = send (acted a)

-- `client.Reply`
unfoldable pub reply : Message → GuestResponse → Act (Unit {0})
reply msg r = send (replied msg.correlation_id r)

-- `sameUTCDay`
abbrev pub same_utc_day : Instant → Instant → Bool
same_utc_day a b = day_of a == day_of b

-- The loop of `waitUntil`: the first event on the target's day that is not before the target.
unfoldable pub first_event : Instant → List Instant → Option Instant
first_event target [] = none
first_event target (t ∷ ts) =
    let later = first_event target ts in
    if same_utc_day t target && not (ltb t target) then some t else later

-- The time that ends the wait: that of the clock, if it is late enough, or else of an event.
unfoldable pub wait_end : Instant → Option Instant → List Instant → Option Instant
wait_end target none ts = first_event target ts
wait_end target (some t) ts =
    let by_event = first_event target ts in if ltb t target then by_event else some t

-- `waitUntil`
unfoldable pub wait_until : Instant → Act (Unit {0})
unfolding wait_end
wait_until target c = elim (wait_end target (c.current c.waits) (c.events c.waits)) [
  | none ↦ (err context_canceled, record c { waits = suc c.waits })
  | some t ↦ (ok tt, record c { waits = suc c.waits; log = woke t ∷ c.log })
]

-- The first message that passes a test, and the inbox behind it.
unfoldable pub search_inbox : (Message → Bool) → List Message → Option (Message × List Message)
search_inbox wanted [] = none
search_inbox wanted (m ∷ ms) =
    let later = search_inbox wanted ms in if wanted m then some (m, ms) else later

-- `WaitForNextSystemMessage` until one passes the test
unfoldable pub await : (Message → Bool) → Act Message
await wanted c = elim (search_inbox wanted c.inbox) [
  | none ↦ (err chat_failed, record c { inbox = [] })
  | some (m, ms) ↦ (ok m, record c { inbox = ms })
]

-- `expectNotification`
unfoldable pub expect_notification : SystemNotification → Act (Unit {0})
expect_notification n = await (λ m. eq_notification m.notification n) >>= λ _. return tt

-- `expectRequest`
unfoldable pub expect_request : SystemRequest → Act Message
expect_request r = await (λ m. eq_request m.request r)
