-- ===== src/ChatClient/Fifo.antt =====
-- On the client: which messages a call leaves to come, and when a call that sends succeeds.
use mathlib.Core.List.{append_assoc}
use kenshu_elaris_project_gu.Prelude.{
  Any, Bool, Bool-cases, List, [], arith, false, inl, inr, refl, some, true, ◌++◌, ◌↔◌, ◌∙◌, ◌∷◌,
  ◌≡◌,
}
use kenshu_elaris_project_gu.ChatClient.{
  Arrival, ChatMessage, Client, acked, expected, inbound, inbounds, made_ids, reply, send_action,
  send_and_wait_ack, wait_for_ack, write,
}
use kenshu_elaris_project_gu.GoText.{Text, text_eq, text_eq_iff}
use kenshu_elaris_project_gu.Lodging.Chat.{GuestResponse}
use kenshu_elaris_project_gu.Lodging.Plan.{GuestAction}
use kenshu_elaris_project_gu.World.{Error, Outcome, ok}

-- An arrival acknowledges a message.
abbrev pub Acks : Text → Arrival → Type 0
Acks id (acked a) = a ≡ id
Acks id (inbound m) = ⊥

wait_for_ack-keeps :
    (ending : Error) (id : Text) (pending : List ChatMessage) (arrivals : List Arrival)
    → (wait_for_ack ending id pending arrivals).1.0
        ++ inbounds (wait_for_ack ending id pending arrivals).1.1
      ≡ pending ++ inbounds arrivals
unfolding wait_for_ack inbounds
wait_for_ack-keeps ending id pending [] = refl
wait_for_ack-keeps ending id pending (acked a ∷ arrivals) = elim (Bool-cases (text_eq a id)) [
  | inl e ↦ rw e refl
  | inr e ↦ rw e (wait_for_ack-keeps ending id pending arrivals)
]
wait_for_ack-keeps ending id pending (inbound m ∷ arrivals) =
    wait_for_ack-keeps ending id (pending ++ (m ∷ [])) arrivals
    ∙ append_assoc pending (m ∷ []) (inbounds arrivals)

wait_for_ack-acked :
    (ending : Error) (id : Text) (pending : List ChatMessage) (arrivals : List Arrival)
    → ((wait_for_ack ending id pending arrivals).0 ≡ ok tt) ↔ Any (Acks id) arrivals
unfolding wait_for_ack
wait_for_ack-acked ending id pending [] = (λ h. cc, λ h. absurd h)
wait_for_ack-acked ending id pending (acked a ∷ arrivals) = elim (Bool-cases (text_eq a id)) [
  | inl e ↦ rw e ((λ _. inl ((text_eq_iff a id).0 e)), (λ _. refl))
  | inr e ↦
      let later = wait_for_ack-acked ending id pending arrivals in
      rw e (
        (λ h. inr (later.0 h)),
        λ h. elim h [ inl same ↦ absurd (not_same e same) | inr k ↦ later.1 k ],
      )
]
  where
    not_same : text_eq a id ≡ false → ¬ (a ≡ id)
    not_same e same = ground (arith, e, (text_eq_iff a id).1 same)
wait_for_ack-acked ending id pending (inbound m ∷ arrivals) =
    let later = wait_for_ack-acked ending id (pending ++ (m ∷ [])) arrivals in
    ((λ h. inr (later.0 h)), λ h. elim h [ inl none_such ↦ absurd none_such | inr k ↦ later.1 k ])

-- A send that was written and has been acknowledged, and nothing else, succeeds; it takes no message
-- from those that are still expected.
abbrev pub Sends : Client → Text → Outcome (Unit {0}) × Client → Type 0
Sends c id r =
    ((r.0 ≡ ok tt) ↔ ((c.writes c.tried ≡ true) × Any (Acks id) c.arrivals))
    × (expected r.1 ≡ expected c)

send_and_wait_ack-Sends :
    (msg : ChatMessage) (c : Client) → Sends c msg.message_id (send_and_wait_ack msg c)
unfolding send_and_wait_ack write
send_and_wait_ack-Sends msg c = by_write (c.writes c.tried) refl
  where
    by_write : (b : Bool) → c.writes c.tried ≡ b → Sends c msg.message_id (send_and_wait_ack msg c)
    by_write true e =
        let acks = wait_for_ack-acked c.ends_with msg.message_id c.pending c.arrivals in
        simp e (
          ((λ h. (refl, acks.0 h)), (λ (_, k). acks.1 k)),
          wait_for_ack-keeps c.ends_with msg.message_id c.pending c.arrivals,
        )
    by_write false e = simp e (((λ h. cc), (λ (f, _). cc)), refl)

-- `SendAction` and `Reply` return nil exactly if the message was written and an acknowledgement with
-- its identifier arrives; whatever their outcome, the messages that the client will hand on are
-- the same, in the same order, those kept while waiting before those still to arrive.
pub action_and_reply-Sends :
    (a : GuestAction) (request : ChatMessage) (response : GuestResponse) (c : Client)
    → Sends c (c.ids c.made) (send_action a c)
      × Sends c (c.ids c.made) (reply (some request) response c)
unfolding send_action reply
action_and_reply-Sends a request response c =
    (send_and_wait_ack-Sends _ (made_ids 2 c), send_and_wait_ack-Sends _ (made_ids 1 c))
