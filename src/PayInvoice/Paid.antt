-- ===== src/PayInvoice/Paid.antt =====
-- What a payment that returns nil has done, and what an unpaid one leaves alone.
use kenshu_elaris_project_gu.Prelude.{
  ap, arith, false, inl, inr, not, refl, some, subst, suc, sym, ℕ, ◌∙◌, ◌∷◌, ◌≡◌, ◌⊎◌,
}
use kenshu_elaris_project_gu.Cache.{load, lookup, save}
use kenshu_elaris_project_gu.Cache.Effects.{
  Loaded, Saved, Saved-kept, key_of-keyed, keyed, keyed-keyed, load-Loaded, load-same, save-Saved,
}
use kenshu_elaris_project_gu.Cache.Laws.{key_of}
use kenshu_elaris_project_gu.Domain.{
  Guest, GuestJourneyCacheValue, GuestJourneyInvoice, PayWithCardResponse,
}
use kenshu_elaris_project_gu.GoText.{is_empty, text_eq, text_eq_iff}
use kenshu_elaris_project_gu.PayInvoice.{
  card, execute, pay, settle, succeeded, validate, with_receipt,
}
use kenshu_elaris_project_gu.Wiring.{Wiring}
use kenshu_elaris_project_gu.World.{Env, World, body, ok, post_payment}
use kenshu_elaris_project_gu.World.Rules.{
  Ensures, Ensures-at, Ensures-ok, Ensures-weaken, bind-Always, bind-Ensures, expect-Always,
  expect-Ensures, read_reply-Always, read_reply-Ensures, reject_if-Always, reject_if-Ensures,
}

module _ {P : Type 0} (env : Env P) where
  -- The service has taken a payment for the invoice that Redis kept.
  pub record Accepted (w : World P) : Type 0 where
    pub payload : P
    pub value : GuestJourneyCacheValue
    pub guest : Guest
    pub invoice : GuestJourneyInvoice
    pub kept : lookup (key_of w) w.store ≡ some payload
    pub decoded : env.unmarshal payload ≡ some value
    pub has_guest : value.personal_info ≡ some guest
    pub has_invoice : value.invoice ≡ some invoice
    pub numbered : is_empty invoice.invoice_number ≡ false
    pub number : ℕ
    pub answer : PayWithCardResponse
    pub answered : env.paid number invoice.invoice_number (card guest) ≡ body answer
    pub success : answer.status ≡ succeeded

  -- The payment is in the cache.
  pub record Paid (w w' : World P) : Type 0 where
    pub accepted : Accepted w
    pub one_sent :
        w'.sent ≡ post_payment accepted.invoice.invoice_number (card accepted.guest) ∷ w.sent
    pub new : P
    pub new_kept : lookup (key_of w) w'.store ≡ some new
    pub saved : GuestJourneyCacheValue
    pub new_written : env.marshal saved ≡ some new
    pub receipt :
        saved.invoice
        ≡ some (record {
          invoice_number = accepted.invoice.invoice_number;
          receipt_number = accepted.answer.receipt_number;
        })
    pub same_id : saved.guest_id ≡ accepted.value.guest_id
    pub same_guest : saved.personal_info ≡ accepted.value.personal_info
    pub same_booking : saved.booking ≡ accepted.value.booking
    pub same_state : w'.state ≡ keyed w

  accept :
      (w w1 : World P) (value : GuestJourneyCacheValue) (guest : Guest)
      (invoice : GuestJourneyInvoice) (answer : PayWithCardResponse) (n : ℕ)
      → Loaded env w value w1
      → value.personal_info ≡ some guest
      → value.invoice ≡ some invoice
      → is_empty invoice.invoice_number ≡ false
      → env.paid n invoice.invoice_number (card guest) ≡ body answer
      → not (text_eq answer.status succeeded) ≡ false
      → Accepted w
  accept w w1 value guest invoice answer n l hg hi full e success = record {
    payload = l.payload;
    value = value;
    guest = guest;
    invoice = invoice;
    kept = l.kept;
    decoded = l.decoded;
    has_guest = hg;
    has_invoice = hi;
    numbered = full;
    number = n;
    answer = answer;
    answered = e;
    success = (text_eq_iff answer.status succeeded).0 (ground (arith, success));
  }

  pay-Paid :
      (w w1 : World P) (value : GuestJourneyCacheValue) (guest : Guest)
      (invoice : GuestJourneyInvoice)
      → Loaded env w value w1
      → value.personal_info ≡ some guest
      → value.invoice ≡ some invoice
      → is_empty invoice.invoice_number ≡ false
      → Ensures (λ _. Paid w) (pay env value guest invoice w1)
  unfolding pay accept with_receipt
  pay-Paid w w1 value guest invoice l hg hi full =
      let w2 : World P = record w1 {
        calls = suc w1.calls;
        sent = post_payment invoice.invoice_number (card guest) ∷ w1.sent;
      } in
      read_reply-Ensures (λ _. Paid w) (env.paid w1.calls invoice.invoice_number (card guest)) _ w2
        λ answer e.
          reject_if-Ensures (λ _. Paid w) (not (text_eq answer.status succeeded)) _ _ w2
            λ success.
              let v = with_receipt value invoice answer.receipt_number in
              Ensures-weaken (λ _. Saved env w2 v) (λ _. Paid w) (save env v w2)
                (λ _ w' s. record {
                  accepted = accept w w1 value guest invoice answer w1.calls l hg hi full e success;
                  one_sent =
                      s.same_sent
                      ∙ ap (λ x. post_payment invoice.invoice_number (card guest) ∷ x) l.same_sent;
                  new = s.payload;
                  new_kept =
                      subst (λ k. lookup k w'.store ≡ some s.payload)
                        (key_of-keyed w w2 l.same_state) (Saved-kept env w2 v w' s);
                  saved = v;
                  new_written = s.encoded;
                  receipt = refl;
                  same_id = refl;
                  same_guest = refl;
                  same_booking = refl;
                  same_state = s.same_state ∙ keyed-keyed w w2 l.same_state;
                })
                (save-Saved env v w2)

  -- Unless a payment was accepted, the server keeps what it kept.
  pay-store :
      (w w1 : World P) (value : GuestJourneyCacheValue) (guest : Guest)
      (invoice : GuestJourneyInvoice)
      → Loaded env w value w1
      → value.personal_info ≡ some guest
      → value.invoice ≡ some invoice
      → is_empty invoice.invoice_number ≡ false
      → ((pay env value guest invoice w1).1.store ≡ w.store) ⊎ Accepted w
  unfolding pay
  pay-store w w1 value guest invoice l hg hi full =
      let R : World P → Type 0 = λ w'. (w'.store ≡ w.store) ⊎ Accepted w in
      read_reply-Always R (env.paid w1.calls invoice.invoice_number (card guest)) _ _
        (inl l.same_store)
        λ answer e.
          reject_if-Always R (not (text_eq answer.status succeeded)) _ _ _ (inl l.same_store)
            λ success. inr (accept w w1 value guest invoice answer w1.calls l hg hi full e success)

  validate_same : (d : Wiring) (w : World P) → Ensures (λ _ w'. w' ≡ w) (validate d w)
  unfolding validate
  validate_same d w = ground arith

  validate_world : (d : Wiring) (w : World P) → (validate d w).1 ≡ w
  unfolding validate
  validate_world d w = ground arith

  settle-Ensures : (w : World P) → Ensures (λ _. Paid w) (settle env w)
  unfolding settle
  settle-Ensures w =
      let R : Unit {0} → World P → Type 0 = λ _. Paid w in
      bind-Ensures (Loaded env w) R (load env w) _ (load-Loaded env w) λ value w1 l.
        expect-Ensures R value.personal_info _ _ w1 λ guest hg.
          expect-Ensures R value.booking _ _ w1 λ b hb.
            reject_if-Ensures R (is_empty b.booking_id) _ _ w1 λ _.
              reject_if-Ensures R (is_empty b.selected_cottage) _ _ w1 λ _.
                expect-Ensures R b.selected_period _ _ w1 λ period hp.
                  expect-Ensures R value.invoice _ _ w1 λ invoice hi.
                    reject_if-Ensures R (is_empty invoice.invoice_number) _ _ w1
                      λ full. pay-Paid w w1 value guest invoice l hg hi full

  settle-store : (w : World P) → ((settle env w).1.store ≡ w.store) ⊎ Accepted w
  unfolding settle
  settle-store w =
      let R : World P → Type 0 = λ w'. (w'.store ≡ w.store) ⊎ Accepted w in
      let same : (load env w).1.store ≡ w.store = (load-same env w).0 in
      bind-Always R (load env w) _ (inl same) λ value loaded.
        let l = Ensures-at (Loaded env w) (load env w) loaded (load-Loaded env w) in
        expect-Always R value.personal_info _ _ _ (inl same) λ guest hg.
          expect-Always R value.booking _ _ _ (inl same) λ b hb.
            reject_if-Always R (is_empty b.booking_id) _ _ _ (inl same) λ _.
              reject_if-Always R (is_empty b.selected_cottage) _ _ _ (inl same) λ _.
                expect-Always R b.selected_period _ _ _ (inl same) λ period hp.
                  expect-Always R value.invoice _ _ _ (inl same) λ invoice hi.
                    reject_if-Always R (is_empty invoice.invoice_number) _ _ _ (inl same)
                      λ full. pay-store w (load env w).1 value guest invoice l hg hi full

  -- If the step returns nil, it sent one payment, with the guest's card, for the invoice that Redis
  -- kept; the service accepted it; and Redis keeps now the value that it kept, with the receipt
  -- number of that answer in its invoice and nothing else changed.
  pub execute-Paid : (d : Wiring) (w w' : World P) → execute env d w ≡ (ok tt, w') → Paid w w'
  unfolding execute
  execute-Paid d w w' e =
      Ensures-ok (λ _. Paid w) e
        (bind-Ensures (λ _ x. x ≡ w) (λ _. Paid w) (validate d w) _ (validate_same d w)
          λ _ w0 same.
            subst (λ x. Ensures (λ _. Paid w) (settle env x)) (sym same) (settle-Ensures w))

  -- Whatever the outcome, Redis keeps what it kept unless the service answered that the payment for
  -- the kept invoice succeeded.
  pub execute-store :
      (d : Wiring) (w : World P) → ((execute env d w).1.store ≡ w.store) ⊎ Accepted w
  unfolding execute
  execute-store d w =
      let R : World P → Type 0 = λ w'. (w'.store ≡ w.store) ⊎ Accepted w in
      let here : (validate d w).1 ≡ w = validate_world d w in
      bind-Always R (validate d w) _ (inl (ap (λ (x : World P). x.store) here))
        λ _ _. subst (λ x. R (settle env x).1) (sym here) (settle-store w)
