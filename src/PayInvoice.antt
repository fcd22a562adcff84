-- ===== src/PayInvoice.antt =====
-- internal/app/steps/payment_step/pay_invoice.go
pub mod Paid
use kenshu_elaris_project_gu.Prelude.{not, some, ◌++◌}
use kenshu_elaris_project_gu.Cache.{load, save}
use kenshu_elaris_project_gu.Domain.{
  Guest, GuestJourneyCacheValue, GuestJourneyInvoice, PayWithCardRequest,
}
use kenshu_elaris_project_gu.GoText.{Text, is_empty, text, text_eq, trim_space}
use kenshu_elaris_project_gu.Wiring.{Wiring}
use kenshu_elaris_project_gu.World.{
  Action, Env, cache_is_nil, call, client_is_nil, expect, get_state, guest_id_is_empty,
  invalid_booking_context, invalid_guest_context, invalid_invoice_context, payment_not_succeeded,
  post_payment, reject_if, state_is_nil, ◌>>=◌, ◌>>◌,
}

abbrev pub succeeded : Text
succeeded = text "PAYMENT_STATUS_SUCCEEDED"

-- The card with which every guest pays.
unfoldable pub card : Guest → PayWithCardRequest
card guest = record {
  number = text "4111111111111111";
  brand = text "VISA";
  exp_month = 12;
  exp_year = 2030;
  cvv = text "123";
  holder_name = trim_space (guest.given_names ++ (text " " ++ guest.surname));
}

unfoldable pub with_receipt :
    GuestJourneyCacheValue → GuestJourneyInvoice → Text → GuestJourneyCacheValue
with_receipt value invoice receipt = record value {
  invoice = some (record invoice { receipt_number = receipt });
}

module _ {P : Type 0} where
  -- `PayInvoiceStep.Validate`
  unfoldable pub validate : Wiring → Action P (Unit {0})
  validate d = do
    reject_if (not d.state_set) state_is_nil
    s ← get_state
    reject_if (is_empty s.guest_id) guest_id_is_empty
    reject_if (not d.cache_set) cache_is_nil
    reject_if (not d.client_set) client_is_nil

  -- The part of `Execute` behind its guards.
  unfoldable pub pay :
      Env P → GuestJourneyCacheValue → Guest → GuestJourneyInvoice → Action P (Unit {0})
  pay env value guest invoice = do
    answer ←
        call (post_payment invoice.invoice_number (card guest))
          (λ n. env.paid n invoice.invoice_number (card guest))
    reject_if (not (text_eq answer.status succeeded)) payment_not_succeeded
    save env (with_receipt value invoice answer.receipt_number)

  -- `Execute` behind its call of `Validate`.
  unfoldable pub settle : Env P → Action P (Unit {0})
  settle env = do
    value ← load env
    guest ← expect value.personal_info invalid_guest_context
    b ← expect value.booking invalid_booking_context
    reject_if (is_empty b.booking_id) invalid_booking_context
    reject_if (is_empty b.selected_cottage) invalid_booking_context
    period ← expect b.selected_period invalid_booking_context
    invoice ← expect value.invoice invalid_invoice_context
    reject_if (is_empty invoice.invoice_number) invalid_invoice_context
    pay env value guest invoice

  -- `PayInvoiceStep.Execute`
  unfoldable pub execute : Env P → Wiring → Action P (Unit {0})
  execute env d = do validate d; settle env
