-- ===== src/Waits/Accepted.antt =====
-- What a message that is accepted has shown, and what it changes.
use kenshu_elaris_project_gu.Prelude.{
  Bool-cases, arith, false, inl, inr, not, some, subst, true, ℕ, ◌≡◌,
}
use kenshu_elaris_project_gu.Bus.Messages.{BookingConfirmed, PaymentRequest}
use kenshu_elaris_project_gu.Cache.{load, lookup}
use kenshu_elaris_project_gu.Cache.Effects.{Loaded, keyed, load-Loaded}
use kenshu_elaris_project_gu.Cache.Laws.{key_of}
use kenshu_elaris_project_gu.Domain.{Guest, GuestJourneyBooking, GuestJourneyCacheValue, State}
use kenshu_elaris_project_gu.GoText.{is_empty, text_eq, text_eq_iff, trim_space}
use kenshu_elaris_project_gu.Waits.{
  bad_total, match_booking_confirmation, other_guest, other_payer, text_of, with_invoice,
}
use kenshu_elaris_project_gu.World.{Env, World, not_matched, ok, reject_if}
use kenshu_elaris_project_gu.World.Rules.{
  Ensures, Ensures-ok, bind-Ensures, expect-Ensures, reject_if-Ensures,
}

module _ {P : Type 0} (env : Env P) where
  -- The request is for the booking that Redis keeps for the guest, and its invoice is in the cache.
  pub record Invoiced (fold : ℕ → ℕ) (msg : PaymentRequest) (w w' : World P) : Type 0 where
    pub old : P
    pub value : GuestJourneyCacheValue
    pub guest : Guest
    pub booking : GuestJourneyBooking
    pub old_kept : lookup (key_of w) w.store ≡ some old
    pub old_read : env.unmarshal old ≡ some value
    pub has_guest : value.personal_info ≡ some guest
    pub has_booking : value.booking ≡ some booking
    pub numbered : is_empty (trim_space msg.invoice_number) ≡ false
    pub positive : bad_total msg.total ≡ false
    pub own : other_payer fold msg.payer_email guest.email ≡ false
    pub same_cottage : text_of msg.cottage_name ≡ booking.selected_cottage
    pub new : P
    pub new_kept : lookup (key_of w) w'.store ≡ some new
    pub new_written : env.marshal (with_invoice value (trim_space msg.invoice_number)) ≡ some new
    pub same_state : w'.state ≡ keyed w
    pub none_sent : w'.sent ≡ w.sent

  -- The confirmation is of the booking that Redis keeps, and nothing has changed but for the key.
  pub record Confirmed (msg : BookingConfirmed) (w w' : World P) : Type 0 where
    pub value : GuestJourneyCacheValue
    pub booking : GuestJourneyBooking
    pub loaded : Loaded env w value w'
    pub has_booking : value.booking ≡ some booking
    pub same_booking : msg.booking_id ≡ booking.booking_id
    pub is_confirmed : msg.confirmed ≡ true
    pub own : other_guest msg.guest_id w.state.guest_id ≡ false

  confirm_end :
      (msg : BookingConfirmed) (w w1 : World P) (value : GuestJourneyCacheValue)
      (b : GuestJourneyBooking)
      → Loaded env w value w1
      → value.booking ≡ some b
      → not (text_eq msg.booking_id b.booking_id) ≡ false
      → not msg.confirmed ≡ false
      → Ensures
          (λ _. Confirmed msg w)
          (reject_if (other_guest msg.guest_id w1.state.guest_id) not_matched w1)
  confirm_end msg w w1 value b l hb i c =
      elim (Bool-cases (other_guest msg.guest_id w1.state.guest_id)) [
        | inl e ↦ rw e tt
        | inr e ↦ rw e (record {
          value = value;
          booking = b;
          loaded = l;
          has_booking = hb;
          same_booking = (text_eq_iff msg.booking_id b.booking_id).0 (ground (arith, i));
          is_confirmed = ground (arith, c);
          own = subst (λ (st : State). other_guest msg.guest_id st.guest_id ≡ false) l.same_state e;
        })
      ]

  match_confirmation-Ensures :
      (msg : BookingConfirmed) (w : World P)
      → Ensures (λ _. Confirmed msg w) (match_booking_confirmation env msg w)
  unfolding match_booking_confirmation
  match_confirmation-Ensures msg w =
      let R : Unit {0} → World P → Type 0 = λ _. Confirmed msg w in
      bind-Ensures (Loaded env w) R (load env w) _ (load-Loaded env w) λ value w1 l.
        expect-Ensures R value.booking _ _ w1 λ b hb.
          reject_if-Ensures R (not (text_eq msg.booking_id b.booking_id)) _ _ w1 λ i.
            reject_if-Ensures R (not msg.confirmed) _ _ w1
              λ c. confirm_end msg w w1 value b l hb i c

  -- If a booking confirmation is accepted, then its booking is the one that Redis keeps for the
  -- guest, it is confirmed, its guest is the guest of the state, and nothing was sent or written.
  pub match_booking_confirmation-Confirmed :
      (msg : BookingConfirmed) (w w' : World P)
      → match_booking_confirmation env msg w ≡ (ok tt, w')
      → Confirmed msg w w'
  match_booking_confirmation-Confirmed msg w w' e =
      Ensures-ok (λ _. Confirmed msg w) e (match_confirmation-Ensures msg w)
