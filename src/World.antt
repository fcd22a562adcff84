-- ===== src/World.antt =====
-- What one journey reads and changes: its `State`, the Redis server and the HTTP services. The
-- outside world answers by the number of the call (`Env`), so that any behaviour of it, faults
-- included, is some `Env`. A step of the program is an action: it returns an outcome and the new
-- world, on its error paths too.
pub mod Rules
use kenshu_elaris_project_gu.Prelude.{
  Bool, List, Option, false, none, some, suc, true, zero, ℕ, ◌%◌, ◌∷◌,
}
use kenshu_elaris_project_gu.Domain.{
  AvailablePeriodDto, BookingRequest, Confirmation, Cottage, Guest, GuestJourneyCacheValue,
  PayWithCardRequest, PayWithCardResponse, State,
}
use kenshu_elaris_project_gu.GoFloat.{Float64}
use kenshu_elaris_project_gu.GoText.{Text}
use kenshu_elaris_project_gu.GoTime.{Instant}

-- The errors that the program makes, one for each message, and those that it passes on.
pub data Error : Type 0 where
  state_is_nil cache_is_nil client_is_nil guest_is_nil : Error
  guest_id_is_empty redis_key_is_empty cottage_names_is_empty : Error
  redis_client_is_nil redis_failed redis_nil marshal_failed unmarshal_failed : Error
  invalid_guest_context invalid_booking_context invalid_invoice_context not_matched : Error
  no_suitable_period booking_already_created payment_not_succeeded : Error
  http_unreachable http_status http_unreadable clock_failed : Error
  context_canceled no_booking_id invalid_dependencies : Error
  invalid_consumer invalid_bus declare_failed bind_failed consume_failed close_failed : Error
  channel_closed : Error
  chat_factory_is_nil notification_is_nil chat_url_is_empty show_up_is_empty : Error
  chat_dial_failed chat_failed request_is_nil wrong_notification_type : Error
  lodging_step_is_nil : Error
  joined : Error → Error → Error

-- `panics` stops the goroutine, and with it the process.
pub data Outcome {ℓ} (A : Type ℓ) : Type ℓ where
  ok : A → Outcome A
  err : Error → Outcome A
  panics : Outcome A

-- What becomes of one Redis command: done, lost before the server saw it, or done with the reply
-- lost. In the last two the client reports an error.
pub data Fate : Type 0 where
  done lost_request lost_reply : Fate

-- An HTTP call as the program tells them apart: `err != nil`, `resp.IsError()`, a body that
-- `json.Unmarshal` refuses, a body that it reads.
pub data Reply (A : Type 0) : Type 0 where
  unreachable : Reply A
  status_error : Reply A
  unreadable : Reply A
  body : A → Reply A

-- The requests that the program sends.
pub data Request : Type 0 where
  post_guest : Guest → Request
  get_guest : Text → Request
  get_cottages : Request
  get_available_dates : Text → ℕ → ℕ → Request
  post_booking : Text → BookingRequest → Request
  post_payment : Text → PayWithCardRequest → Request

-- The world outside, asked at its n-th call. `P` is the type of the payloads that Redis stores;
-- `marshal` and `unmarshal` are `json.Marshal` and `json.Unmarshal` at the cache value.
pub record Env (P : Type 0) : Type 0 where
  pub redis_client : Bool  -- whether the cache was given a client
  pub redis : ℕ → Fate
  -- Whether the steps were given an HTTP client and a clock, where they follow_set them without a test.
  pub http_client_set : Bool
  pub clock_set : Bool
  pub marshal : GuestJourneyCacheValue → Option P
  pub unmarshal : P → Option GuestJourneyCacheValue
  pub now : ℕ → Option Instant
  pub random : ℕ → ℕ  -- what `rand.Intn` cuts down to its range
  pub rand_float : ℕ → Float64  -- what `rand.Float64` returns
  pub canceled : ℕ → Bool
  pub guest_id_of : ℕ → Guest → Reply Text
  pub retrieved : ℕ → Text → Reply (Unit {0})
  pub cottages : ℕ → Reply (List Cottage)
  pub available : ℕ → Text → ℕ → ℕ → Reply AvailablePeriodDto
  pub booked : ℕ → Text → BookingRequest → Reply Confirmation
  pub paid : ℕ → Text → PayWithCardRequest → Reply PayWithCardResponse

pub record World (P : Type 0) : Type 0 where
  pub calls : ℕ  -- calls made to the outside so far
  pub state : State
  pub store : List (Text × P)  -- the Redis server
  pub sent : List Request  -- the requests sent so far, the latest first

abbrev pub Action : Type 0 → Type 0 → Type 0
Action P A = World P → Outcome A × World P

module _ {P : Type 0} where
  abbrev pub pure : {A : Type 0} → A → Action P A
  pure a w = (ok a, w)

  abbrev pub raise : {A : Type 0} → Error → Action P A
  raise e w = (err e, w)

  abbrev pub panic : {A : Type 0} → Action P A
  panic w = (panics, w)

  abbrev pub continue : {A B : Type 0} → Outcome A → (A → Action P B) → Action P B
  continue (ok a) f w = f a w
  continue (err e) f w = (err e, w)
  continue panics f w = (panics, w)

  infixl 10 ◌>>=◌ ◌>>◌
  abbrev pub ◌>>=◌ : {A B : Type 0} → Action P A → (A → Action P B) → Action P B
  ◌>>=◌ m f w = continue (m w).0 f (m w).1

  abbrev pub ◌>>◌ : {B : Type 0} → Action P (Unit {0}) → Action P B → Action P B
  m >> n = m >>= λ _. n

  -- `if bad { return error }`
  abbrev pub reject_if : Bool → Error → Action P (Unit {0})
  reject_if true e w = (err e, w)
  reject_if false e w = (ok tt, w)

  abbrev pub get_state : Action P State
  get_state w = (ok w.state, w)

  abbrev pub set_state : State → Action P (Unit {0})
  set_state s w = (ok tt, record w { state = s })

  -- A pointer that the code follows without a test.
  abbrev pub deref : {A : Type 0} → Option A → Action P A
  deref none w = (panics, w)
  deref (some a) w = (ok a, w)

  -- A client that the code follows without a test, given whether it is set.
  abbrev pub follow_set : Bool → Action P (Unit {0})
  follow_set true w = (ok tt, w)
  follow_set false w = (panics, w)

  -- A pointer that the code tests first.
  abbrev pub expect : {A : Type 0} → Option A → Error → Action P A
  expect none e w = (err e, w)
  expect (some a) e w = (ok a, w)

  -- Ask the outside, and count the call.
  abbrev pub ask : {A : Type 0} → (ℕ → A) → Action P A
  ask f w = (ok (f w.calls), record w { calls = suc w.calls })

  -- The three tests behind every HTTP call.
  abbrev pub read_reply : {A : Type 0} → Reply A → Action P A
  read_reply unreachable w = (err http_unreachable, w)
  read_reply status_error w = (err http_status, w)
  read_reply unreadable w = (err http_unreadable, w)
  read_reply (body a) w = (ok a, w)

  -- Send a request and read its reply.
  abbrev pub call : {A : Type 0} → Request → (ℕ → Reply A) → Action P A
  call q f w = read_reply (f w.calls) (record w { calls = suc w.calls; sent = q ∷ w.sent })

  -- `rand.Intn(n)`, which panics at 0
  abbrev pub rand_intn : Env P → ℕ → Action P ℕ
  rand_intn env n w = elim n [
    | ℕ.zero ↦ (panics, w)
    | ℕ.suc k ↦ (ok (env.random w.calls % suc k), record w { calls = suc w.calls })
  ]
