-- ===== src/BookCottage/Once.antt =====
-- On `BookCottageStep.Execute`: the requests that it sends, and what it leaves.
use kenshu_elaris_project_gu.Prelude.{
  arith, false, inl, inr, not, refl, some, subst, suc, sym, true, ℕ, ◌∙◌, ◌∷◌, ◌≡◌, ◌⊎◌,
}
use kenshu_elaris_project_gu.BookCottage.{book, booking_request, execute, with_booking_id}
use kenshu_elaris_project_gu.Cache.{load, lookup, save}
use kenshu_elaris_project_gu.Cache.Effects.{
  Loaded, Saved, Saved-kept, key_of-keyed, keyed, keyed-keyed, load-Loaded, load-same, save-Saved,
  save-same_sent,
}
use kenshu_elaris_project_gu.Cache.Laws.{RoundTrips, key_of}
use kenshu_elaris_project_gu.Domain.{
  BookingRequest, Confirmation, Guest, GuestJourneyBooking, GuestJourneyCacheValue, Period, State,
}
use kenshu_elaris_project_gu.GoText.{Text, is_empty}
use kenshu_elaris_project_gu.World.{Env, World, body, ok, post_booking}
use kenshu_elaris_project_gu.World.Rules.{
  Ensures, Ensures-at, Ensures-ok, Ensures-weaken, bind-Always, bind-Ensures, expect-Always,
  expect-Ensures, follow_set-Always, follow_set-Ensures, read_reply-Always, read_reply-Ensures,
  reject_if-Always, reject_if-Ensures,
}

-- One booking request went out, for the stay that Redis kept and while it kept no booking.
pub record Books {P : Type 0} (env : Env P) (w w' : World P) : Type 0 where
  pub payload : P
  pub value : GuestJourneyCacheValue
  pub guest : Guest
  pub booking : GuestJourneyBooking
  pub period : Period
  pub kept : lookup (key_of w) w.store ≡ some payload
  pub decoded : env.unmarshal payload ≡ some value
  pub has_guest : value.personal_info ≡ some guest
  pub has_booking : value.booking ≡ some booking
  pub has_period : booking.selected_period ≡ some period
  pub unbooked : is_empty booking.booking_id ≡ true
  pub one_sent :
      w'.sent
      ≡ post_booking booking.selected_cottage (booking_request w.state.guest_id guest period)
        ∷ w.sent

-- Nothing was sent, or that one request.
abbrev pub SendsAtMostOne : {P : Type 0} → Env P → World P → World P → Type 0
SendsAtMostOne env w w' = (w'.sent ≡ w.sent) ⊎ Books env w w'

module _ {P : Type 0} (env : Env P) where
  -- What the step leaves behind when it succeeds.
  pub record Booked (w w' : World P) : Type 0 where
    pub sent_one : Books env w w'
    pub number : ℕ
    pub answer : Confirmation
    pub answered :
        env.booked number sent_one.booking.selected_cottage
          (booking_request w.state.guest_id sent_one.guest sent_one.period)
        ≡ body answer
    pub new : P
    pub new_kept : lookup (key_of w) w'.store ≡ some new
    pub new_written :
        env.marshal (with_booking_id sent_one.value sent_one.booking answer.id) ≡ some new
    pub same_state : w'.state ≡ keyed w

  book-sent :
      (value : GuestJourneyCacheValue) (guest : Guest) (b : GuestJourneyBooking) (period : Period)
      (w : World P)
      → (book env value guest b period w).1.sent
        ≡ post_booking b.selected_cottage (booking_request w.state.guest_id guest period) ∷ w.sent
  unfolding book
  book-sent value guest b period w =
      let request = booking_request w.state.guest_id guest period in
      read_reply-Always (λ w'. w'.sent ≡ post_booking b.selected_cottage request ∷ w.sent)
        (env.booked w.calls b.selected_cottage request) _ _ refl
        λ answer e. save-same_sent env (with_booking_id value b answer.id) _

  sent_after :
      (value : GuestJourneyCacheValue) (guest : Guest) (b : GuestJourneyBooking) (period : Period)
      (w w1 : World P)
      → w1.sent ≡ w.sent
      → w1.state ≡ keyed w
      → (book env value guest b period w1).1.sent
        ≡ post_booking b.selected_cottage (booking_request w.state.guest_id guest period) ∷ w.sent
  sent_after value guest b period w w1 same state = book-sent value guest b period w1 ∙ λ i.
      post_booking b.selected_cottage (booking_request (state i).guest_id guest period) ∷ same i

  -- Whatever the outcome, the step sends at most one booking request, and only while the value that
  -- Redis keeps for the guest has no booking.
  pub execute-SendsAtMostOne : (w : World P) → SendsAtMostOne env w (execute env w).1
  unfolding execute
  execute-SendsAtMostOne w =
      let R : World P → Type 0 = SendsAtMostOne env w in
      let same = (load-same env w).1 in
      bind-Always R (load env w) _ (inl same) λ value loaded.
        let l = Ensures-at (Loaded env w) (load env w) loaded (load-Loaded env w) in
        expect-Always R value.personal_info _ _ _ (inl same) λ guest hg.
          expect-Always R value.booking _ _ _ (inl same) λ b hb.
            reject_if-Always R (is_empty b.selected_cottage) _ _ _ (inl same) λ _.
              expect-Always R b.selected_period _ _ _ (inl same) λ period hp.
                reject_if-Always R (not (is_empty b.booking_id)) _ _ _ (inl same) λ free.
                  follow_set-Always R env.http_client_set _ _ (inl same) (
                    inr (record {
                      payload = l.payload;
                      value = value;
                      guest = guest;
                      booking = b;
                      period = period;
                      kept = l.kept;
                      decoded = l.decoded;
                      has_guest = hg;
                      has_booking = hb;
                      has_period = hp;
                      unbooked = ground (arith, free);
                      one_sent = sent_after value guest b period w (load env w).1 same l.same_state;
                    }))

  book_end :
      (value : GuestJourneyCacheValue) (guest : Guest) (b : GuestJourneyBooking) (period : Period)
      (w w1 : World P)
      → Loaded env w value w1
      → value.personal_info ≡ some guest
      → value.booking ≡ some b
      → b.selected_period ≡ some period
      → is_empty b.booking_id ≡ true
      → Ensures (λ _. Booked w) (book env value guest b period w1)
  unfolding book
  book_end value guest b period w w1 l hg hb hp free =
      let request = booking_request w1.state.guest_id guest period in
      let w2 : World P = record w1 {
        calls = suc w1.calls;
        sent = post_booking b.selected_cottage request ∷ w1.sent;
      } in
      read_reply-Ensures (λ _. Booked w) (env.booked w1.calls b.selected_cottage request) _ w2
        λ answer e.
          let v = with_booking_id value b answer.id in
          Ensures-weaken (λ _. Saved env w2 v) (λ _. Booked w) (save env v w2)
            (λ _ w' s. record {
              sent_one = record {
                payload = l.payload;
                value = value;
                guest = guest;
                booking = b;
                period = period;
                kept = l.kept;
                decoded = l.decoded;
                has_guest = hg;
                has_booking = hb;
                has_period = hp;
                unbooked = free;
                one_sent = s.same_sent ∙ λ i.
                    post_booking b.selected_cottage
                      (booking_request (l.same_state i).guest_id guest period)
                    ∷ l.same_sent i;
              };
              number = w1.calls;
              answer = answer;
              answered =
                  subst
                    (λ (st : State).
                      env.booked w1.calls b.selected_cottage
                        (booking_request st.guest_id guest period)
                      ≡ body answer)
                    l.same_state e;
              new = s.payload;
              new_kept =
                  subst (λ k. lookup k w'.store ≡ some s.payload) (key_of-keyed w w2 l.same_state)
                    (Saved-kept env w2 v w' s);
              new_written = s.encoded;
              same_state = s.same_state ∙ keyed-keyed w w2 l.same_state;
            })
            (save-Saved env v w2)

  pub book-Ensures : (w : World P) → Ensures (λ _. Booked w) (execute env w)
  unfolding execute
  book-Ensures w =
      let R : Unit {0} → World P → Type 0 = λ _. Booked w in
      bind-Ensures (Loaded env w) R (load env w) _ (load-Loaded env w) λ value w1 l.
        expect-Ensures R value.personal_info _ _ w1 λ guest hg.
          expect-Ensures R value.booking _ _ w1 λ b hb.
            reject_if-Ensures R (is_empty b.selected_cottage) _ _ w1 λ _.
              expect-Ensures R b.selected_period _ _ w1 λ period hp.
                reject_if-Ensures R (not (is_empty b.booking_id)) _ _ w1 λ free.
                  follow_set-Ensures R env.http_client_set _ w1
                    (book_end value guest b period w w1 l hg hb hp (ground (arith, free)))

  pub execute-Booked : (w w' : World P) → execute env w ≡ (ok tt, w') → Booked w w'
  execute-Booked w w' e = Ensures-ok (λ _. Booked w) e (book-Ensures w)

  -- No answer of the booking service has an empty id.
  abbrev pub AnswersWithIds : Type 0
  AnswersWithIds =
      (n : ℕ) (cottage : Text) (r : BookingRequest) (a : Confirmation)
      → env.booked n cottage r ≡ body a
      → is_empty a.id ≡ false

  not_again :
      (w w' : World P)
      → RoundTrips env
      → AnswersWithIds
      → Booked w w'
      → ¬ Books env w' (execute env w').1
  unfolding with_booking_id
  not_again w w' trip ids k again =
      let id : is_empty k.answer.id ≡ false = ids _ _ _ _ k.answered in
      let read = trip _ k.new k.new_written in
      let key : lookup (key_of w') w'.store ≡ some k.new =
        subst (λ x. lookup x w'.store ≡ some k.new) (sym (key_of-keyed w w' k.same_state))
          k.new_kept in
      let payload : again.payload ≡ k.new = cc (again.kept, key) in
      let booked : env.unmarshal k.new ≡ some again.value =
        subst (λ x. env.unmarshal x ≡ some again.value) payload again.decoded in
      ground (arith, again.has_booking, again.unbooked, id, read, booked)

  -- After a run that returned nil a second run sends nothing, whatever its outcome, if the service
  -- answers with ids that are not empty and `json` round trips.
  pub execute-execute_sends_none :
      (w w' : World P)
      → RoundTrips env
      → AnswersWithIds
      → execute env w ≡ (ok tt, w')
      → (execute env w').1.sent ≡ w'.sent
  execute-execute_sends_none w w' trip ids e = elim (execute-SendsAtMostOne w') [
    | inl same ↦ same
    | inr again ↦ absurd (not_again w w' trip ids (execute-Booked w w' e) again)
  ]
