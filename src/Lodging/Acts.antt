-- ===== src/Lodging/Acts.antt =====
-- On the lodging step: the actions in a log, and their relation to a plan.
use mathlib.Core.List.{append-nil, append_assoc}
use kenshu_elaris_project_gu.Prelude.{
  Bool, Bool-cases, List, [], ap, arith, inl, inr, refl, sym, ◌++◌, ◌∙◌, ◌∷◌, ◌≡◌,
}
use kenshu_elaris_project_gu.GoTime.{Instant}
use kenshu_elaris_project_gu.Lodging.Chat.{
  Act, Chat, Event, GuestResponse, Message, acted, await, closed, next, replied, reply, send_action,
  wait_until, woke,
}
use kenshu_elaris_project_gu.Lodging.Plan.{GuestAction}
use kenshu_elaris_project_gu.World.{Outcome, err, ok, panics}

-- The actions of a log, the latest first.
unfoldable pub actions_of : List Event → List GuestAction
actions_of [] = []
actions_of (acted a ∷ l) = a ∷ actions_of l
actions_of (woke t ∷ l) = actions_of l
actions_of (replied m r ∷ l) = actions_of l
actions_of (closed ∷ l) = actions_of l

-- A log behind which more actions were taken, in their order.
unfoldable pub rev_append : {A : Type 0} → List A → List A → List A
rev_append [] l = l
rev_append (a ∷ xs) l = rev_append xs (a ∷ l)

rev_append-append :
    {A : Type 0} (xs ys l : List A) → rev_append (xs ++ ys) l ≡ rev_append ys (rev_append xs l)
unfolding rev_append
rev_append-append [] ys l = refl
rev_append-append (a ∷ xs) ys l = rev_append-append xs ys (a ∷ l)

abbrev pub IsOk : {A : Type 0} → Outcome A → Type 0
IsOk (ok a) = Unit {0}
IsOk (err e) = ⊥
IsOk panics = ⊥

-- The actions taken are a first part of `plan`, and all of it if the outcome is a success.
pub record Follows {A : Type 0} (plan : List GuestAction) (c : Chat) (r : Outcome A × Chat)
    : Type 0 where
  pub taken : List GuestAction
  pub left : List GuestAction
  pub parts : plan ≡ taken ++ left
  pub logged : actions_of r.1.log ≡ rev_append taken (actions_of c.log)
  pub finished : IsOk r.0 → left ≡ []

pub Follows-quiet :
    {A : Type 0} (c : Chat) (r : Outcome A × Chat)
    → actions_of r.1.log ≡ actions_of c.log
    → Follows [] c r
unfolding rev_append
Follows-quiet c r e = record {
  taken = [];
  left = [];
  parts = refl;
  logged = e;
  finished = λ _. refl;
}

pub all_taken :
    {A : Type 0} (plan : List GuestAction) (c : Chat) (r : Outcome A × Chat)
    → (f : Follows plan c r) → IsOk r.0
    → f.taken ≡ plan
all_taken plan c r f k =
    sym (append-nil f.taken) ∙ ap (λ l. f.taken ++ l) (sym (f.finished k)) ∙ sym f.parts

pub Follows-bind :
    {A B : Type 0} (xs ys : List GuestAction) (c : Chat) (r : Outcome A × Chat) (f : A → Act B)
    → Follows xs c r
    → ((a : A) → r.0 ≡ ok a → Follows ys r.1 (f a r.1))
    → Follows (xs ++ ys) c (next r.0 f r.1)
Follows-bind xs ys c (ok a, c1) f h k =
    let g = k a refl in
    record {
      taken = xs ++ g.taken;
      left = g.left;
      parts = ap (λ l. xs ++ l) g.parts ∙ sym (append_assoc xs g.taken g.left);
      logged =
          g.logged
          ∙ ap (rev_append g.taken) (
              h.logged ∙ ap (λ l. rev_append l (actions_of c.log)) (all_taken xs c (ok a, c1) h tt))
          ∙ sym (rev_append-append xs g.taken (actions_of c.log));
      finished = g.finished;
    }
Follows-bind xs ys c (err e, c1) f h k = record {
  taken = h.taken;
  left = h.left ++ ys;
  parts = ap (λ l. l ++ ys) h.parts ∙ append_assoc h.taken h.left ys;
  logged = h.logged;
  finished = λ z. absurd z;
}
Follows-bind xs ys c (panics, c1) f h k = record {
  taken = h.taken;
  left = h.left ++ ys;
  parts = ap (λ l. l ++ ys) h.parts ∙ append_assoc h.taken h.left ys;
  logged = h.logged;
  finished = λ z. absurd z;
}

pub send_action-Follows : (a : GuestAction) (c : Chat) → Follows (a ∷ []) c (send_action a c)
unfolding send_action actions_of rev_append
send_action-Follows a c = elim (Bool-cases (c.sends c.sent)) [
  | inl e ↦
      rw e (record { taken = a ∷ []; left = []; parts = refl; logged = refl; finished = λ _. refl })
  | inr e ↦
      rw e (record {
        taken = [];
        left = a ∷ [];
        parts = refl;
        logged = refl;
        finished = λ z. absurd z;
      })
]

pub wait_until-quiet :
    (t : Instant) (c : Chat) → actions_of (wait_until t c).1.log ≡ actions_of c.log
unfolding wait_until actions_of
wait_until-quiet t c = ground arith

pub await-quiet : (p : Message → Bool) (c : Chat) → actions_of (await p c).1.log ≡ actions_of c.log
unfolding await
await-quiet p c = ground arith

pub reply-quiet :
    (m : Message) (r : GuestResponse) (c : Chat) → actions_of (reply m r c).1.log ≡ actions_of c.log
unfolding reply actions_of
reply-quiet m r c = ground arith
