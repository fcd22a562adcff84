-- ===== src/Lodging/Follows.antt =====
-- On the lodging step: the actions of each phase.
pub mod Whole
use kenshu_elaris_project_gu.Prelude.{
  Bool-cases, List, Option, [], inl, inr, map, none, refl, some, ℕ, ◌∙◌, ◌∷◌, ◌≡◌,
}
use kenshu_elaris_project_gu.Domain.{Period}
use kenshu_elaris_project_gu.GoText.{Text}
use kenshu_elaris_project_gu.Lodging.Acts.{
  Follows, Follows-bind, Follows-quiet, actions_of, await-quiet, reply-quiet, send_action-Follows,
  wait_until-quiet,
}
use kenshu_elaris_project_gu.Lodging.Chat.{
  Act, Chat, Message, await, expect_notification, expect_request, next, return,
  returned_cottage_key, send_action,
}
use kenshu_elaris_project_gu.Lodging.Gate.{
  execute_action_plan, execute_checkout_plan, return_key, target_of, wait_for_action_gate,
  wait_for_hour, wait_for_notification_of, wait_for_request_of,
}
use kenshu_elaris_project_gu.Lodging.Plan.{
  ActionPlanStep, GuestAction, SystemNotification, SystemRequest, eq_notification, eq_request,
  no_notification, no_request, request_cottage_key,
}
use kenshu_elaris_project_gu.World.{Outcome, err, ok, panics}

-- The actions of a plan, in order.
abbrev pub planned_actions : List ActionPlanStep → List GuestAction
planned_actions plan = map (λ s. s.action) plan

-- A part that takes no action, and what follows it.
pub after_quiet :
    {A B : Type 0} (ys : List GuestAction) (c : Chat) (r : Outcome A × Chat) (f : A → Act B)
    → actions_of r.1.log ≡ actions_of c.log
    → ((a : A) → r.0 ≡ ok a → Follows ys r.1 (f a r.1))
    → Follows ys c (next r.0 f r.1)
after_quiet ys c r f e k = Follows-bind [] ys c r f (Follows-quiet c r e) k

pub quiet_bind :
    {A B : Type 0} (c : Chat) (r : Outcome A × Chat) (f : A → Act B)
    → actions_of r.1.log ≡ actions_of c.log
    → ((a : A) → actions_of (f a r.1).1.log ≡ actions_of r.1.log)
    → actions_of (next r.0 f r.1).1.log ≡ actions_of c.log
quiet_bind c (ok a, c1) f e k = k a ∙ e
quiet_bind c (err x, c1) f e k = e
quiet_bind c (panics, c1) f e k = e

expect_notification-quiet :
    (n : SystemNotification) (c : Chat)
    → actions_of (expect_notification n c).1.log ≡ actions_of c.log
unfolding expect_notification
expect_notification-quiet n c =
    quiet_bind c (await (λ m. eq_notification m.notification n) c) (λ _. return tt)
      (await-quiet (λ m. eq_notification m.notification n) c) (λ _. refl)

wait_for_notification_of-quiet :
    (n : SystemNotification) (c : Chat)
    → actions_of (wait_for_notification_of n c).1.log ≡ actions_of c.log
wait_for_notification_of-quiet n c = elim (Bool-cases (eq_notification n no_notification)) [
  | inl e ↦ rw e refl
  | inr e ↦ rw e (expect_notification-quiet n c)
]

wait_for_request_of-quiet :
    (r : SystemRequest) (c : Chat) → actions_of (wait_for_request_of r c).1.log ≡ actions_of c.log
unfolding expect_request
wait_for_request_of-quiet r c = elim (Bool-cases (eq_request r no_request)) [
  | inl e ↦ rw e refl
  | inr e ↦ rw e (
      quiet_bind c (await (λ m. eq_request m.request r) c) (λ m. return (some m))
        (await-quiet (λ m. eq_request m.request r) c) (λ _. refl))
]

wait_for_hour-quiet :
    (p : Period) (s : ActionPlanStep) (h : Option ℕ) (c : Chat)
    → actions_of (wait_for_hour p s h c).1.log ≡ actions_of c.log
wait_for_hour-quiet p s none c = refl
wait_for_hour-quiet p s (some h) c = wait_until-quiet (target_of p s h) c

gate-quiet :
    (p : Period) (s : ActionPlanStep) (c : Chat)
    → actions_of (wait_for_action_gate p s c).1.log ≡ actions_of c.log
unfolding wait_for_action_gate
gate-quiet p s c =
    quiet_bind c (wait_for_hour p s s.gate.not_before_hour c) _
      (wait_for_hour-quiet p s s.gate.not_before_hour c)
      λ _.
        let c1 = (wait_for_hour p s s.gate.not_before_hour c).1 in
        quiet_bind c1 (wait_for_notification_of s.gate.system_notification c1) _
          (wait_for_notification_of-quiet s.gate.system_notification c1)
          λ _. wait_for_request_of-quiet s.gate.system_request _

return_key-quiet :
    (r : SystemRequest) (key : Text) (m : Option Message) (c : Chat)
    → actions_of (return_key r key m c).1.log ≡ actions_of c.log
return_key-quiet r key none c = elim (Bool-cases (eq_request r request_cottage_key)) [
  | inl e ↦ rw e refl
  | inr e ↦ rw e refl
]
return_key-quiet r key (some m) c = elim (Bool-cases (eq_request r request_cottage_key)) [
  | inl e ↦ rw e (reply-quiet m (returned_cottage_key key) c)
  | inr e ↦ rw e refl
]

-- However the run of a plan ends, the actions taken are a first part of the plan, in its order, and
-- all of it if the run succeeds.
pub execute_action_plan-Follows :
    (p : Period) (plan : List ActionPlanStep) (c : Chat)
    → Follows (planned_actions plan) c (execute_action_plan p plan c)
unfolding execute_action_plan
execute_action_plan-Follows p [] c = Follows-quiet c (ok tt, c) refl
execute_action_plan-Follows p (s ∷ plan) c =
    after_quiet (planned_actions (s ∷ plan)) c (wait_for_action_gate p s c) _ (gate-quiet p s c)
      λ _ _.
        let c1 = (wait_for_action_gate p s c).1 in
        Follows-bind (s.action ∷ []) (planned_actions plan) c1 (send_action s.action c1) _
          (send_action-Follows s.action c1)
          λ _ _.
            let c2 = (send_action s.action c1).1 in
            after_quiet (planned_actions plan) c2
              (wait_for_notification_of s.gate.wait_for_notification c2) _
              (wait_for_notification_of-quiet s.gate.wait_for_notification c2)
              λ _ _. execute_action_plan-Follows p plan _

pub execute_checkout_plan-Follows :
    (key : Text) (p : Period) (plan : List ActionPlanStep) (c : Chat)
    → Follows (planned_actions plan) c (execute_checkout_plan key p plan c)
unfolding execute_checkout_plan
execute_checkout_plan-Follows key p [] c = Follows-quiet c (ok tt, c) refl
execute_checkout_plan-Follows key p (s ∷ plan) c =
    after_quiet (planned_actions (s ∷ plan)) c (wait_for_action_gate p s c) _ (gate-quiet p s c)
      λ m _.
        let c1 = (wait_for_action_gate p s c).1 in
        after_quiet (planned_actions (s ∷ plan)) c1 (return_key s.gate.system_request key m c1) _
          (return_key-quiet s.gate.system_request key m c1)
          λ _ _.
            let c2 = (return_key s.gate.system_request key m c1).1 in
            Follows-bind (s.action ∷ []) (planned_actions plan) c2 (send_action s.action c2) _
              (send_action-Follows s.action c2)
              λ _ _.
                let c3 = (send_action s.action c2).1 in
                after_quiet (planned_actions plan) c3
                  (wait_for_notification_of s.gate.wait_for_notification c3) _
                  (wait_for_notification_of-quiet s.gate.wait_for_notification c3)
                  λ _ _. execute_checkout_plan-Follows key p plan _
