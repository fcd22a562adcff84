-- ===== src/Domain.antt =====
-- The data of internal/domain: the journey's state, what Redis keeps of it, and the payloads that
-- the program exchanges with the other services. A Go pointer that may be nil is an `Option`.
use kenshu_elaris_project_gu.Prelude.{ℕ, Option, List}
use kenshu_elaris_project_gu.GoText.{Text}
use kenshu_elaris_project_gu.GoTime.{Instant}

-- internal/domain/dto/guest_registration/guest.go
pub record Guest : Type 0 where
  pub document_id : Text
  pub given_names : Text
  pub surname : Text
  pub email : Text
  pub billing_address : Text

-- internal/domain/dto/booking/available_period.go
pub record Period : Type 0 where
  pub start : Instant
  pub end : Instant

pub record PeriodDto : Type 0 where
  pub check_in : Instant
  pub check_out : Instant

pub record AvailablePeriodDto : Type 0 where
  pub name : Text
  pub periods : List PeriodDto

-- internal/domain/dto/guest_journey_cache.go
pub record GuestJourneyBooking : Type 0 where
  pub booking_id : Text
  pub selected_cottage : Text
  pub selected_period : Option Period

pub record GuestJourneyInvoice : Type 0 where
  pub invoice_number : Text
  pub receipt_number : Text

pub record GuestJourneyCacheValue : Type 0 where
  pub guest_id : Text
  pub personal_info : Option Guest
  pub booking : Option GuestJourneyBooking
  pub invoice : Option GuestJourneyInvoice

-- internal/domain/state.go. `cottage_names` tells the nil slice from an empty one.
pub record State : Type 0 where
  pub guest : Option Guest
  pub guest_id : Text
  pub cottage_names : Option (List Text)
  pub redis_key : Text
  pub queue_name : Text
  pub routing_key : Text

-- internal/domain/dto/booking/booking.go. A date in the format 2006-01-02 is the number of the day it names.
pub record BookingRequest : Type 0 where
  pub guest_id : Text
  pub number_of_guests : ℕ
  pub check_in_date : ℕ
  pub check_out_date : ℕ
  pub guest_name : Text
  pub guest_email : Text
  pub guest_document : Text
  pub billing_address : Text

pub record Confirmation : Type 0 where
  pub id : Text

-- internal/domain/dto/booking/cottage.go; of a cottage the program reads the name alone
pub record Cottage : Type 0 where
  pub name : Text

-- internal/domain/dto/payment.go
pub record PayWithCardRequest : Type 0 where
  pub number : Text
  pub brand : Text
  pub exp_month : ℕ
  pub exp_year : ℕ
  pub cvv : Text
  pub holder_name : Text

pub record PayWithCardResponse : Type 0 where
  pub receipt_number : Text
  pub invoice_number : Text
  pub status : Text
