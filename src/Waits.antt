-- ===== src/Waits.antt =====
-- internal/app/journey/journey_services/wait_payment_request.go, wait_booking_confirmation.go and
-- wait_checkin_today.go: a journey waits for a message that is its own.
pub mod Accepted
pub mod Loop
pub mod Quiet
use kenshu_elaris_project_gu.Prelude.{
  Bool, List, Option, [], ltb_ℤ, none, not, pos, some, true, ℕ, ◌++◌, ◌==◌, ◌||◌, ◌∷◌,
}
use kenshu_elaris_project_gu.BookingFlow.{start}
use kenshu_elaris_project_gu.Bus.Messages.{BookingConfirmed, CheckinToday, Money, PaymentRequest}
use kenshu_elaris_project_gu.Cache.{load, save}
use kenshu_elaris_project_gu.Domain.{GuestJourneyCacheValue, GuestJourneyInvoice}
use kenshu_elaris_project_gu.GoText.{Text, equal_fold, is_empty, text_eq, trim_space}
use kenshu_elaris_project_gu.GoTime.{Instant}
use kenshu_elaris_project_gu.World.{
  Action, Env, Error, Outcome, World, channel_closed, context_canceled, err, expect, get_state,
  not_matched, ok, panics, reject_if, ◌>>=◌, ◌>>◌,
}

-- `msg.GetTotal() == nil || amount <= 0 || the currency is blank`
abbrev pub bad_total : Option Money → Bool
bad_total none = true
bad_total (some m) = not (ltb_ℤ (pos 0) m.amount) || is_empty (trim_space m.currency)

-- `msg.GetBooking() == nil || the cottage name is blank`
abbrev pub no_summary : Option Text → Bool
no_summary none = true
no_summary (some name) = is_empty (trim_space name)

-- The getters of a nil sub-message return the zero value.
abbrev pub text_of : Option Text → Text
text_of none = []
text_of (some s) = s

-- `msg.GetPayer() == nil || !strings.EqualFold(…)`
abbrev pub other_payer : (ℕ → ℕ) → Option Text → Text → Bool
other_payer fold none email = true
other_payer fold (some payer) email = not (equal_fold fold (trim_space payer) (trim_space email))

abbrev pub other_guest : Option Text → Text → Bool
other_guest none id = true
other_guest (some guest) id = not (text_eq guest id)

abbrev pub other_time : Option Instant → Instant → Bool
other_time none t = true
other_time (some c) t = not (c == t)

-- `cacheValue.Invoice`, made if it is nil
abbrev pub invoice_or_new : Option GuestJourneyInvoice → GuestJourneyInvoice
invoice_or_new none = record { invoice_number = []; receipt_number = [] }
invoice_or_new (some i) = i

unfoldable pub with_invoice : GuestJourneyCacheValue → Text → GuestJourneyCacheValue
with_invoice value number = record value {
  invoice = some (record (invoice_or_new value.invoice) { invoice_number = number });
}

module _ {P : Type 0} (env : Env P) where
  -- `matchPaymentRequest`, whose own errors are one here: nobody reads them. `fold` is the case folding of `strings.EqualFold`
  unfoldable pub match_payment_request : (ℕ → ℕ) → PaymentRequest → Action P (Unit {0})
  match_payment_request fold msg = do
    value ← load env
    reject_if (is_empty (trim_space msg.invoice_number)) not_matched
    reject_if (bad_total msg.total) not_matched
    reject_if (no_summary msg.cottage_name) not_matched
    guest ← expect value.personal_info not_matched
    b ← expect value.booking not_matched
    reject_if (is_empty b.selected_cottage) not_matched
    reject_if (other_payer fold msg.payer_email guest.email) not_matched
    reject_if (not (text_eq (text_of msg.cottage_name) b.selected_cottage)) not_matched
    save env (with_invoice value (trim_space msg.invoice_number))

  -- `matchBookingConfirmation`
  unfoldable pub match_booking_confirmation : BookingConfirmed → Action P (Unit {0})
  match_booking_confirmation msg = do
    value ← load env
    b ← expect value.booking not_matched
    reject_if (not (text_eq msg.booking_id b.booking_id)) not_matched
    reject_if (not msg.confirmed) not_matched
    s ← get_state
    reject_if (other_guest msg.guest_id s.guest_id) not_matched

  -- `matchCheckinToday`
  unfoldable pub match_checkin_today : CheckinToday → Action P (Unit {0})
  match_checkin_today msg = do
    value ← load env
    b ← expect value.booking not_matched
    period ← expect b.selected_period not_matched
    reject_if (not (text_eq msg.booking_id b.booking_id)) not_matched
    s ← get_state
    reject_if (not (text_eq msg.guest_id s.guest_id)) not_matched
    reject_if (not (text_eq msg.cottage_name b.selected_cottage)) not_matched
    reject_if (other_time msg.check_in period.start) not_matched

-- What ends the `select` of a round.
pub data Signal (M : Type 0) : Type 0 where
  context_ended : Signal M
  bus_ended : Option Error → Signal M
  received : M → Signal M

-- One round of the loop: the messages that were kept before the round takes one, and the signal. A
-- message comes over the journey's own channel while that is empty, and is kept otherwise.
pub record Round (M : Type 0) : Type 0 where
  pub queued : List M
  pub signal : Signal M

-- `errors.Is(err, context.Canceled)` or no error: the wait reports a closed channel.
abbrev pub bus_error : Option Error → Error
bus_error none = channel_closed
bus_error (some context_canceled) = channel_closed
bus_error (some e) = e

-- The outcome and the world, and the messages that are still kept.
abbrev pub Waited : Type 0 → Type 0 → Type 0
Waited P M = (Outcome (Unit {0}) × World P) × List M

module _ {P M : Type 0} (matches : M → Action P (Unit {0})) where
  -- A match that fails, for whatever reason, goes on.
  abbrev pub or_else : Outcome (Unit {0}) × World P → List M → (World P → Waited P M) → Waited P M
  or_else (ok u, w) kept more = ((ok tt, w), kept)
  or_else (err e, w) kept more = more w
  or_else (panics, w) kept more = ((panics, w), kept)

  abbrev pub on_signal : Signal M → (World P → Waited P M) → List M → World P → Waited P M
  on_signal context_ended again kept w = ((err context_canceled, w), kept)
  on_signal (bus_ended e) again kept w = ((err (bus_error e), w), kept)
  on_signal (received m) again kept w = or_else (matches m w) kept again

  -- `takePending…` and its match
  abbrev pub on_pending : List M → (List M → World P → Waited P M) → World P → Waited P M
  on_pending [] select w = select [] w
  on_pending (m ∷ kept) select w = or_else (matches m w) kept (select kept)

  -- The loop of `Wait…Message` over the rounds; when they are over the context has ended. A wait to
  -- which nothing comes any more and whose context does not end blocks for ever, and has no rounds.
  unfoldable pub wait : List (Round M) → List M → World P → Waited P M
  wait [] kept w = on_pending kept (λ k w1. ((err context_canceled, w1), k)) w
  wait (r ∷ rounds) kept w =
      on_pending (kept ++ r.queued) (λ k w1. on_signal r.signal (wait rounds k) k w1) w

-- The three waits.
module _ {P : Type 0} (env : Env P) where
  -- `WaitPaymentRequestMessage`
  abbrev pub wait_payment_request :
      (ℕ → ℕ)
      → List (Round PaymentRequest)
      → List PaymentRequest
      → World P
      → Waited P PaymentRequest
  wait_payment_request fold = wait (match_payment_request env fold)

  -- `WaitBookingConfirmationMessage`
  abbrev pub wait_booking_confirmation :
      List (Round BookingConfirmed) → List BookingConfirmed → World P → Waited P BookingConfirmed
  wait_booking_confirmation = wait (match_booking_confirmation env)

  -- `WaitCheckinTodayMessage`
  abbrev pub wait_checkin_today :
      List (Round CheckinToday) → List CheckinToday → World P → Waited P CheckinToday
  wait_checkin_today = wait (match_checkin_today env)
