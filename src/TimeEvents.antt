-- ===== src/TimeEvents.antt =====
-- internal/app/services/time_event_service.go and hour_notification_service.go: the hours of the clock are
-- handed to subscribers, each over a channel with room for one; a subscriber that is busy misses them.
pub mod Faithful
pub mod Served
use kenshu_elaris_project_gu.Prelude.{
  Bool, List, Option, [], false, if◌then◌else◌, none, some, suc, true, ℕ, ◌==◌, ◌∷◌, ◌≡◌,
}
use kenshu_elaris_project_gu.GoText.{Text, text, text_eq}
use kenshu_elaris_project_gu.GoTime.{Instant, hour}

-- The goroutine of one `HourNotification`: its channel, the time that it is handing on, and those that
-- it has handed on, the latest first. `key` is the identity of the channel.
pub record Subscriber : Type 0 where
  pub key : ℕ
  pub target : ℕ
  pub buffer : Option Instant
  pub sending : Option Instant
  pub handed : List Instant

-- The service, the number of channels made, and the times that it has published, the latest first.
pub record TimeService : Type 0 where
  pub subscribers : List Subscriber
  pub current : Option Instant
  pub made : ℕ
  pub published : List Instant

abbrev pub hour_change : Text
hour_change = text "hour_change"

-- `NewTimeEventService`
unfoldable pub new_service : Bool → Option TimeService
new_service client_set =
    if client_set
    then some (record { subscribers = []; current = none; made = 0; published = [] })
    else none

-- `Register`; none is the nil channel. The channels are a set; a new one is not in it yet.
unfoldable pub register : Text → Option Subscriber → TimeService → TimeService
register event_type none s = s
register event_type (some sub) s =
    if text_eq event_type hour_change then record s { subscribers = sub ∷ s.subscribers } else s

abbrev pub without : ℕ → List Subscriber → List Subscriber
without k [] = []
without k (sub ∷ subs) = let rest = without k subs in if sub.key == k then rest else sub ∷ rest

-- `Unregister`
unfoldable pub unregister : Text → Option ℕ → TimeService → TimeService
unregister event_type none s = s
unregister event_type (some k) s =
    if text_eq event_type hour_change then record s { subscribers = without k s.subscribers } else s

-- `CurrentTime`
unfoldable pub current_time : TimeService → Option Instant
current_time s = s.current

-- One `select` of `notify`: a channel that is full is passed over.
abbrev pub offer_event : Instant → Option Instant → Option Instant
offer_event t none = some t
offer_event t (some old) = some old

-- `notify`
unfoldable pub notify : Instant → List Subscriber → List Subscriber
notify t [] = []
notify t (sub ∷ subs) = record sub { buffer = offer_event t sub.buffer } ∷ notify t subs

-- `notifyHourChange`
unfoldable pub notify_hour_change : Instant → TimeService → TimeService
notify_hour_change t s = record s {
  current = some t;
  subscribers = notify t s.subscribers;
  published = t ∷ s.published;
}

-- A delivery of `Start`, given what `unmarshalTimeEvent` makes of its body: it is acknowledged (true)
-- or rejected.
unfoldable pub handle_delivery : Option Instant → TimeService → Bool × TimeService
handle_delivery none s = (false, s)
handle_delivery (some t) s = (true, notify_hour_change t s)

-- `HourNotification` up to its loop
unfoldable pub subscribe : ℕ → TimeService → TimeService
subscribe target s =
    register hour_change
      (some (record { key = s.made; target = target; buffer = none; sending = none; handed = [] }))
      (record s { made = suc s.made })

-- `eventTime.Hour() == hour`
abbrev pub is_hour : ℕ → Instant → Bool
is_hour target t = hour t == target

abbrev pub take_if_idle : Option Instant → Option Instant → Subscriber → Subscriber
take_if_idle (some t) none sub = record sub {
  buffer = none;
  sending = if is_hour sub.target t then some t else none;
}
take_if_idle none sending sub = sub
take_if_idle (some t) (some busy) sub = sub

-- The loop of `HourNotification` takes a time from its channel, if it is not handing one on.
unfoldable pub take_event : Subscriber → Subscriber
take_event sub = take_if_idle sub.buffer sub.sending sub

abbrev pub sent_on : Option Instant → Subscriber → Subscriber
sent_on none sub = sub
sent_on (some t) sub = record sub { sending = none; handed = t ∷ sub.handed }

-- It hands the time on.
unfoldable pub hand_event : Subscriber → Subscriber
hand_event sub = sent_on sub.sending sub

-- One subscriber moves.
unfoldable pub at_key : (Subscriber → Subscriber) → ℕ → List Subscriber → List Subscriber
at_key move k [] = []
at_key move k (sub ∷ subs) =
    let rest = at_key move k subs in if sub.key == k then move sub ∷ rest else sub ∷ rest

-- What the goroutines can do, in any order.
pub data Step : TimeService → TimeService → Type 0 where
  delivers : {s : TimeService} (o : Option Instant) → Step s (handle_delivery o s).1
  subscribes : {s : TimeService} (target : ℕ) → Step s (subscribe target s)
  takes :
      {s : TimeService} (k : ℕ)
      → Step s (record s { subscribers = at_key take_event k s.subscribers })
  hands :
      {s : TimeService} (k : ℕ)
      → Step s (record s { subscribers = at_key hand_event k s.subscribers })
  leaves : {s : TimeService} (k : ℕ) → Step s (unregister hour_change (some k) s)

-- The states that a new service comes to.
pub data Reached : TimeService → Type 0 where
  begins : {s : TimeService} → new_service true ≡ some s → Reached s
  goes : {s s' : TimeService} → Reached s → Step s s' → Reached s'
