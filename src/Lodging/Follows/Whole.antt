-- ===== src/Lodging/Follows/Whole.antt =====
-- On the lodging step: the actions of the whole stay.
use kenshu_elaris_project_gu.Prelude.{
  Bool, Bool-cases, List, Option, [], false, inl, inr, none, refl, some, true, ◌++◌, ◌∷◌, ◌≡◌,
}
use kenshu_elaris_project_gu.Domain.{Period}
use kenshu_elaris_project_gu.GoText.{Text}
use kenshu_elaris_project_gu.Lodging.Acts.{
  Follows, Follows-bind, actions_of, await-quiet, reply-quiet, rev_append, send_action-Follows,
}
use kenshu_elaris_project_gu.Lodging.Chat.{
  Chat, GuestResponse, Message, await, closed, expect_request, receive_cottage_key, reply,
  send_action,
}
use kenshu_elaris_project_gu.Lodging.Enter.{Lodger, load_cache}
use kenshu_elaris_project_gu.Lodging.Follows.{
  after_quiet, execute_action_plan-Follows, execute_checkout_plan-Follows, planned_actions,
  quiet_bind,
}
use kenshu_elaris_project_gu.Lodging.Gate.{
  answer, answer_to, checkin_from, execute_action_plan, finish_checkin,
}
use kenshu_elaris_project_gu.Lodging.Plan.{
  GuestAction, LodgingFlow, booking_checking, build_checkout_action_plan, build_stay_action_plan,
  check_in_complete, eq_notification, eq_request, expand_plan, give_cottage_key, take_cottage_key,
}
use kenshu_elaris_project_gu.Lodging.Stay.{execute, run_stay, settle_in, stay_with_client}
use kenshu_elaris_project_gu.World.{Env, Error, Outcome, World, chat_dial_failed, err, ok}

-- What a guest does from the arrival to the return of the key.
unfoldable pub itinerary : LodgingFlow → Period → List GuestAction
itinerary flow p =
    planned_actions (expand_plan 0 flow.show_up)
    ++ (take_cottage_key ∷ planned_actions (build_stay_action_plan flow p)
        ++ planned_actions (build_checkout_action_plan flow p))

answer-quiet :
    (m : Message) (r : Option GuestResponse) (c : Chat)
    → actions_of (answer m r c).1.log ≡ actions_of c.log
answer-quiet m none c = refl
answer-quiet m (some r) c = reply-quiet m r c

checkin_from-quiet :
    (flow : LodgingFlow) (document booking : Text) (ms : List Message) (c : Chat)
    → actions_of (checkin_from flow document booking ms c).1.log ≡ actions_of c.log
unfolding checkin_from
checkin_from-quiet flow document booking [] c = refl
checkin_from-quiet flow document booking (m ∷ ms) c =
    let c1 : Chat = record c { inbox = ms } in
    elim (Bool-cases (eq_notification m.notification booking_checking)) [
      | inl e ↦ rw e (checkin_from-quiet flow document booking ms c1)
      | inr e ↦ elim (Bool-cases (eq_notification m.notification check_in_complete)) [
        | inl f ↦ rw (e, f) refl
        | inr f ↦
            rw (e, f)
              (quiet_bind c1 (answer m (answer_to flow document booking m) c1)
                (λ _. checkin_from flow document booking ms)
                (answer-quiet m (answer_to flow document booking m) c1)
                (λ _. checkin_from-quiet flow document booking ms _))
      ]
    ]

-- The stay behind the check-in.
after_checkin :
    (flow : LodgingFlow) (key : Text) (lodger : Lodger) (c : Chat)
    → Follows
        (take_cottage_key ∷ planned_actions (build_stay_action_plan flow lodger.selected_period)
          ++ planned_actions (build_checkout_action_plan flow lodger.selected_period))
        c
        (settle_in flow key lodger c)
unfolding settle_in expect_request
after_checkin flow key lodger c =
    let p = lodger.selected_period in
    let days = planned_actions (build_stay_action_plan flow p) in
    let leaving = planned_actions (build_checkout_action_plan flow p) in
    let wanted : Message → Bool = λ m. eq_request m.request give_cottage_key in
    after_quiet (take_cottage_key ∷ days ++ leaving) c (await wanted c) _ (await-quiet wanted c)
      λ m _.
        let c1 = (await wanted c).1 in
        after_quiet (take_cottage_key ∷ days ++ leaving) c1 (reply m (receive_cottage_key key) c1) _
          (reply-quiet m (receive_cottage_key key) c1)
          λ _ _.
            let c2 = (reply m (receive_cottage_key key) c1).1 in
            Follows-bind (take_cottage_key ∷ []) (days ++ leaving) c2
              (send_action take_cottage_key c2) _ (send_action-Follows take_cottage_key c2)
              λ _ _.
                let c3 = (send_action take_cottage_key c2).1 in
                Follows-bind days leaving c3
                  (execute_action_plan p (build_stay_action_plan flow p) c3) _
                  (execute_action_plan-Follows p (build_stay_action_plan flow p) c3)
                  λ _ _. execute_checkout_plan-Follows key p (build_checkout_action_plan flow p) _

run_stay-Follows :
    (flow : LodgingFlow) (key : Text) (lodger : Lodger) (c : Chat)
    → Follows (itinerary flow lodger.selected_period) c (run_stay flow key lodger c)
unfolding run_stay itinerary finish_checkin
run_stay-Follows flow key lodger c =
    let p = lodger.selected_period in
    let rest =
      planned_actions (build_stay_action_plan flow p)
      ++ planned_actions (build_checkout_action_plan flow p) in
    Follows-bind (planned_actions (expand_plan 0 flow.show_up)) (take_cottage_key ∷ rest) c
      (execute_action_plan p (expand_plan 0 flow.show_up) c) _
      (execute_action_plan-Follows p (expand_plan 0 flow.show_up) c)
      λ _ _.
        let c1 = (execute_action_plan p (expand_plan 0 flow.show_up) c).1 in
        after_quiet (take_cottage_key ∷ rest) c1
          (finish_checkin flow lodger.personal_info.document_id lodger.booking.booking_id c1) _
          (checkin_from-quiet flow lodger.personal_info.document_id lodger.booking.booking_id
            c1.inbox c1)
          λ _ _. after_checkin flow key lodger _

-- Closing the chat is no action.
Follows-close :
    (plan : List GuestAction) (c : Chat) (r : Outcome (Unit {0}) × Chat)
    → Follows plan c r
    → Follows plan c (r.0, record (r.1) { log = closed ∷ r.1.log })
unfolding actions_of
Follows-close plan c r f = record {
  taken = f.taken;
  left = f.left;
  parts = f.parts;
  logged = f.logged;
  finished = f.finished;
}

Follows-undone :
    (plan : List GuestAction) (c : Chat) (e : Error) → Follows {A = Unit {0}} plan c (err e, c)
unfolding rev_append
Follows-undone plan c e = record {
  taken = [];
  left = plan;
  parts = refl;
  logged = refl;
  finished = λ z. absurd z;
}

-- If the step reads a lodger from the cache, then, however the stay ends, the actions that the guest
-- has taken are a first part of the itinerary, in its order: the arrival, the taking of the key, the
-- days of the stay and the checkout; and if the step returns nil they are all of it.
pub execute-Follows :
    {P : Type 0} (env : Env P) (dialed : Bool) (flow : LodgingFlow) (key : Text) (w : World P)
    (c : Chat) (lodger : Lodger)
    → (load_cache env w).0 ≡ ok lodger
    → Follows (itinerary flow lodger.selected_period) c (execute env dialed flow key w c).0
unfolding execute stay_with_client
execute-Follows env true flow key w c lodger e =
    rw (execute, e)
      (Follows-close (itinerary flow lodger.selected_period) c (run_stay flow key lodger c)
        (run_stay-Follows flow key lodger c))
execute-Follows env false flow key w c lodger e =
    rw (execute, e) (Follows-undone (itinerary flow lodger.selected_period) c chat_dial_failed)
