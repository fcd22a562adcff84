-- ===== src/PaymentFlow/Once.antt =====
-- On the payment flow: how many payment requests it sends.
use kenshu_elaris_project_gu.PayInvoice
use kenshu_elaris_project_gu.Prelude.{List, [], arith, not, refl, suc, ℕ, ◌+◌, ◌-◌, ◌∷◌, ◌≤◌}
use kenshu_elaris_project_gu.Cache.{load}
use kenshu_elaris_project_gu.Domain.{
  Guest, GuestJourneyCacheValue, GuestJourneyInvoice, PayWithCardRequest, PayWithCardResponse,
}
use kenshu_elaris_project_gu.Flow.{run_step_graph}
use kenshu_elaris_project_gu.Flow.Ends.{Lists}
use kenshu_elaris_project_gu.Flow.Spends.{run-Spends}
use kenshu_elaris_project_gu.Flow.Walk.{AtEnd}
use kenshu_elaris_project_gu.GoText.{Text, is_empty, text_eq}
use kenshu_elaris_project_gu.PayInvoice.{card, pay, settle, succeeded}
use kenshu_elaris_project_gu.PaymentFlow.{
  PaymentStep, default_payment_flow, execute_step, new_payment_flow, pay_invoice, payment_end,
  state_map, validate_step,
}
use kenshu_elaris_project_gu.Quiet.{
  Adds, Adds-bind, Quiet, bind-Adds, bind-Quiet, call-Adds, expect-Quiet, load-Quiet,
  reject_if-Quiet, save-Quiet,
}
use kenshu_elaris_project_gu.Wiring.{Wiring}
use kenshu_elaris_project_gu.World.{
  Env, Reply, Request, World, call, expect, get_available_dates, get_cottages, get_guest,
  invalid_booking_context, invalid_guest_context, invalid_invoice_context, payment_not_succeeded,
  post_booking, post_guest, post_payment, reject_if,
}

-- How many payment requests have been sent.
unfoldable pub payments_sent : List Request → ℕ
payments_sent [] = 0
payments_sent (post_payment _ _ ∷ requests) = suc (payments_sent requests)
payments_sent (post_booking _ _ ∷ requests) = payments_sent requests
payments_sent (post_guest _ ∷ requests) = payments_sent requests
payments_sent (get_guest _ ∷ requests) = payments_sent requests
payments_sent (get_cottages ∷ requests) = payments_sent requests
payments_sent (get_available_dates _ _ _ ∷ requests) = payments_sent requests

-- Any number of which a payment request adds at most `n`.
module _ {P : Type 0} (env : Env P) (f : List Request → ℕ) (n : ℕ)
    (payment_adds : (number : Text) (r : PayWithCardRequest) (sent : List Request)
      → f (post_payment number r ∷ sent) ≤ f sent + n) where
  pay-Adds :
      (value : GuestJourneyCacheValue) (guest : Guest) (invoice : GuestJourneyInvoice)
      → Adds f n (PayInvoice.pay env value guest invoice)
  unfolding PayInvoice.pay
  pay-Adds value guest invoice =
      let q = post_payment invoice.invoice_number (PayInvoice.card guest) in
      let g : ℕ → Reply PayWithCardResponse =
        λ i. env.paid i invoice.invoice_number (PayInvoice.card guest) in
      Adds-bind f n (call q g) _ (call-Adds f n q g (payment_adds _ _)) λ answer.
        bind-Quiet f
          (reject_if (not (text_eq answer.status PayInvoice.succeeded)) payment_not_succeeded) _
          (reject_if-Quiet f _ payment_not_succeeded) λ _. save-Quiet f env _

  settle-Adds : Adds f n (PayInvoice.settle env)
  unfolding PayInvoice.settle
  settle-Adds = bind-Adds f n (load env) _ (load-Quiet f env) λ value.
      bind-Adds f n (expect value.personal_info invalid_guest_context) _ (expect-Quiet f _ _)
        λ guest.
          bind-Adds f n (expect value.booking invalid_booking_context) _ (expect-Quiet f _ _) λ b.
            bind-Adds f n (reject_if (is_empty b.booking_id) invalid_booking_context) _
              (reject_if-Quiet f _ _)
              λ _.
                bind-Adds f n (reject_if (is_empty b.selected_cottage) invalid_booking_context) _
                  (reject_if-Quiet f _ _)
                  λ _.
                    bind-Adds f n (expect b.selected_period invalid_booking_context) _
                      (expect-Quiet f _ _)
                      λ period.
                        bind-Adds f n (expect value.invoice invalid_invoice_context) _
                          (expect-Quiet f _ _)
                          λ invoice.
                            bind-Adds f n
                              (reject_if (is_empty invoice.invoice_number) invalid_invoice_context)
                              _ (reject_if-Quiet f _ _) λ _. pay-Adds value guest invoice

  module _ (d : Wiring) where
    pay_validate-Quiet : Quiet f (PayInvoice.validate {P = P} d)
    unfolding PayInvoice.validate
    pay_validate-Quiet w = ground arith

    abbrev pays : PaymentStep → ℕ
    pays pay_invoice = n
    pays payment_end = 0

    validate-Quiet : (s : PaymentStep) → Quiet f (validate_step env d s)
    unfolding validate_step
    validate-Quiet pay_invoice w = pay_validate-Quiet w
    validate-Quiet payment_end w = refl

    execute-pays :
        (s : PaymentStep) (w : World P) → f (execute_step env d s w).1.sent ≤ f w.sent + pays s
    unfolding execute_step PayInvoice.execute
    execute-pays pay_invoice w =
        bind-Adds f n (PayInvoice.validate d) _ pay_validate-Quiet (λ _. settle-Adds) w
    execute-pays payment_end w = omega arith

    pays-le : (s : PaymentStep) → pays s ≤ pays s
    pays-le s = omega arith

    next-pays :
        (s : PaymentStep) → Lists (λ t. pays t ≤ pays s - pays s) ((new_payment_flow env d).next s)
    unfolding new_payment_flow state_map default_payment_flow
    next-pays pay_invoice = (omega arith, tt)
    next-pays payment_end = tt

    -- A payment flow sends the request once, whatever it counts for.
    pub run-pays_once :
        (fuel : ℕ) (w : World P)
        → AtEnd
            (λ o w'. f w'.sent ≤ f w.sent + n)
            (run_step_graph env (new_payment_flow env d) fuel pay_invoice w)
    unfolding new_payment_flow
    run-pays_once fuel w =
        run-Spends env (new_payment_flow env d) f pays pays validate-Quiet execute-pays pays-le
          next-pays fuel pay_invoice w
