-- ===== src/Waits/Quiet.antt =====
-- On the waits: what they leave of a number read off the requests sent.
use kenshu_elaris_project_gu.Prelude.{List, [], not, ℕ, ◌++◌, ◌∙◌, ◌∷◌, ◌≡◌}
use kenshu_elaris_project_gu.Bus.Messages.{BookingConfirmed, CheckinToday, PaymentRequest}
use kenshu_elaris_project_gu.Cache.{load, save}
use kenshu_elaris_project_gu.Domain.{Guest, GuestJourneyBooking, GuestJourneyCacheValue}
use kenshu_elaris_project_gu.GoText.{is_empty, text_eq, trim_space}
use kenshu_elaris_project_gu.Quiet.{
  Quiet, bind-Quiet, expect-Quiet, load-Quiet, reject_if-Quiet, save-Quiet,
}
use kenshu_elaris_project_gu.Waits.{
  Round, Signal, Waited, bad_total, bus_ended, context_ended, match_booking_confirmation,
  match_checkin_today, match_payment_request, no_summary, on_pending, on_signal, or_else,
  other_guest, other_payer, other_time, received, text_of, wait, with_invoice,
}
use kenshu_elaris_project_gu.World.{
  Action, Env, Outcome, Request, World, err, expect, not_matched, ok, panics, reject_if, ◌>>◌,
}

module _ {P : Type 0} (env : Env P) (f : List Request → ℕ) where
  pub match_payment-Quiet :
      (fold : ℕ → ℕ) (msg : PaymentRequest) → Quiet f (match_payment_request env fold msg)
  unfolding match_payment_request
  match_payment-Quiet fold msg = bind-Quiet f (load env) _ (load-Quiet f env) λ value.
      bind-Quiet f (reject_if (is_empty (trim_space msg.invoice_number)) not_matched) _
        (reject_if-Quiet f _ _)
        λ _.
          bind-Quiet f (reject_if (bad_total msg.total) not_matched) _ (reject_if-Quiet f _ _) λ _.
            bind-Quiet f (reject_if (no_summary msg.cottage_name) not_matched) _
              (reject_if-Quiet f _ _)
              λ _.
                bind-Quiet f (expect value.personal_info not_matched) _ (expect-Quiet f _ _)
                  λ guest.
                    bind-Quiet f (expect value.booking not_matched) _ (expect-Quiet f _ _)
                      λ b. own_payment-Quiet fold msg value guest b
    where
      own_payment-Quiet :
          (fold : ℕ → ℕ) (msg : PaymentRequest) (value : GuestJourneyCacheValue) (guest : Guest)
          (b : GuestJourneyBooking)
          → Quiet f (do
            reject_if (is_empty b.selected_cottage) not_matched
            reject_if (other_payer fold msg.payer_email guest.email) not_matched
            reject_if (not (text_eq (text_of msg.cottage_name) b.selected_cottage)) not_matched
            save env (with_invoice value (trim_space msg.invoice_number)))
      own_payment-Quiet fold msg value guest b =
          bind-Quiet f (reject_if (is_empty b.selected_cottage) not_matched) _
            (reject_if-Quiet f _ _)
            λ _.
              bind-Quiet f (reject_if (other_payer fold msg.payer_email guest.email) not_matched) _
                (reject_if-Quiet f _ _)
                λ _.
                  bind-Quiet f
                    (reject_if (not (text_eq (text_of msg.cottage_name) b.selected_cottage))
                      not_matched)
                    _ (reject_if-Quiet f _ _) λ _. save-Quiet f env _

  pub match_confirmation-Quiet :
      (msg : BookingConfirmed) → Quiet f (match_booking_confirmation env msg)
  unfolding match_booking_confirmation
  match_confirmation-Quiet msg = bind-Quiet f (load env) _ (load-Quiet f env) λ value.
      bind-Quiet f (expect value.booking not_matched) _ (expect-Quiet f _ _) λ b.
        bind-Quiet f (reject_if (not (text_eq msg.booking_id b.booking_id)) not_matched) _
          (reject_if-Quiet f _ _)
          λ _.
            bind-Quiet f (reject_if (not msg.confirmed) not_matched) _ (reject_if-Quiet f _ _)
              λ _ w. reject_if-Quiet f (other_guest msg.guest_id w.state.guest_id) not_matched w

  pub match_checkin-Quiet : (msg : CheckinToday) → Quiet f (match_checkin_today env msg)
  unfolding match_checkin_today
  match_checkin-Quiet msg = bind-Quiet f (load env) _ (load-Quiet f env) λ value.
      bind-Quiet f (expect value.booking not_matched) _ (expect-Quiet f _ _) λ b.
        bind-Quiet f (expect b.selected_period not_matched) _ (expect-Quiet f _ _) λ period.
          bind-Quiet f (reject_if (not (text_eq msg.booking_id b.booking_id)) not_matched) _
            (reject_if-Quiet f _ _)
            λ _ w.
              bind-Quiet f (reject_if (not (text_eq msg.guest_id w.state.guest_id)) not_matched) _
                (reject_if-Quiet f _ _)
                (λ _.
                  bind-Quiet f
                    (reject_if (not (text_eq msg.cottage_name b.selected_cottage)) not_matched) _
                    (reject_if-Quiet f _ _)
                    λ _. reject_if-Quiet f (other_time msg.check_in period.start) not_matched)
                w

-- A wait whose matches keep the number keeps it.
module _ {P M : Type 0} (f : List Request → ℕ) (matches : M → Action P (Unit {0}))
    (quiet : (m : M) → Quiet f (matches m)) (n : ℕ) where
  abbrev Kept : Waited P M → Type 0
  Kept r = f r.0.1.sent ≡ n

  or_else-Kept :
      (r : Outcome (Unit {0}) × World P) (kept : List M) (more : World P → Waited P M)
      → f r.1.sent ≡ n
      → ((w : World P) → f w.sent ≡ n → Kept (more w))
      → Kept (or_else matches r kept more)
  or_else-Kept (ok u, w) kept more e k = e
  or_else-Kept (err x, w) kept more e k = k w e
  or_else-Kept (panics, w) kept more e k = e

  on_signal-Kept :
      (s : Signal M) (again : World P → Waited P M) (kept : List M) (w : World P)
      → f w.sent ≡ n
      → ((w1 : World P) → f w1.sent ≡ n → Kept (again w1))
      → Kept (on_signal matches s again kept w)
  on_signal-Kept context_ended again kept w e k = e
  on_signal-Kept (bus_ended x) again kept w e k = e
  on_signal-Kept (received m) again kept w e k =
      or_else-Kept (matches m w) kept again (quiet m w ∙ e) k

  on_pending-Kept :
      (l : List M) (select : List M → World P → Waited P M) (w : World P)
      → f w.sent ≡ n
      → ((k : List M) (w1 : World P) → f w1.sent ≡ n → Kept (select k w1))
      → Kept (on_pending matches l select w)
  on_pending-Kept [] select w e h = h [] w e
  on_pending-Kept (m ∷ kept) select w e h =
      or_else-Kept (matches m w) kept (select kept) (quiet m w ∙ e) (h kept)

  pub wait-Kept :
      (rounds : List (Round M)) (kept : List M) (w : World P)
      → f w.sent ≡ n
      → Kept (wait matches rounds kept w)
  unfolding wait
  wait-Kept [] kept w e = on_pending-Kept kept _ w e (λ k w1 h. h)
  wait-Kept (r ∷ rounds) kept w e =
      on_pending-Kept (kept ++ r.queued) _ w e
        λ k w1 h. on_signal-Kept r.signal (wait matches rounds k) k w1 h (wait-Kept rounds k)
