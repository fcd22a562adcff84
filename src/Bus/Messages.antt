-- ===== src/Bus/Messages.antt =====
-- What the program reads of the messages of internal/domain/dto/communication and internal/domain/dto/lodging that
-- reach a guest. A sub-message that may be nil is an `Option`.
use kenshu_elaris_project_gu.Prelude.{Bool, Option, ℤ}
use kenshu_elaris_project_gu.GoText.{Text}
use kenshu_elaris_project_gu.GoTime.{Instant}

pub record Money : Type 0 where
  pub amount : ℤ
  pub currency : Text

-- `cottage_name` is the booking summary, `payer_email` the payer.
pub record PaymentRequest : Type 0 where
  pub invoice_number : Text
  pub total : Option Money
  pub cottage_name : Option Text
  pub payer_email : Option Text

pub record BookingConfirmed : Type 0 where
  pub booking_id : Text
  pub confirmed : Bool
  pub guest_id : Option Text

pub record CheckinToday : Type 0 where
  pub booking_id : Text
  pub guest_id : Text
  pub cottage_name : Text
  pub check_in : Option Instant
