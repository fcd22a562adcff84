-- ===== src/ChatClient/Inbox.antt =====
-- On the client: it behaves as the inbox of system messages that the lodging step reads.
use kenshu_elaris_project_gu.Prelude.{
  Bool-cases, List, Option, [], ap, arith, if◌then◌else◌, inl, inr, length, none, refl, some, subst,
  suc, zero, ℕ, ◌++◌, ◌<◌, ◌∙◌, ◌∷◌, ◌≡◌,
}
use kenshu_elaris_project_gu.ChatClient.{
  Arrival, ChatMessage, Client, acked, expected, first_inbound, from_channel, from_pending, inbound,
  inbounds, is_system, keep_system, next_message, notification_of, request_of,
  wait_for_next_system_message, wait_rounds,
}
use kenshu_elaris_project_gu.Lodging.Chat.{Message}
use kenshu_elaris_project_gu.World.{Error, Outcome, err, ok}

-- What the lodging step reads of a message.
abbrev pub seen : ChatMessage → Message
seen m = record {
  correlation_id = m.correlation_id;
  notification = notification_of m.payload;
  request = request_of m.payload;
}

unfoldable pub system_messages : List ChatMessage → List Message
system_messages [] = []
system_messages (m ∷ ms) =
    let rest = system_messages ms in if is_system m then seen m ∷ rest else rest

-- The inbox that a client stands for.
abbrev pub inbox_of : Client → List Message
inbox_of c = system_messages (expected c)

-- The first of the expected messages is taken, or there is none and the call fails.
abbrev Takes : Client → List ChatMessage → Outcome ChatMessage × Client → Type 0
Takes c [] r = r ≡ (err c.ends_with, c)
Takes c (m ∷ ms) r =
    (c' : Client) × (r ≡ (ok m, c')) × (expected c' ≡ ms) × (c'.ends_with ≡ c.ends_with)

abbrev Finds : List ChatMessage → Option (ChatMessage × List Arrival) → Type 0
Finds [] o = o ≡ none
Finds (m ∷ ms) o = (rest : List Arrival) × (o ≡ some (m, rest)) × (inbounds rest ≡ ms)

first_inbound-Finds : (l : List Arrival) → Finds (inbounds l) (first_inbound l)
unfolding first_inbound inbounds
first_inbound-Finds [] = refl
first_inbound-Finds (acked a ∷ l) = behind (inbounds l) (first_inbound l) (first_inbound-Finds l)
  where
    behind :
        (ms : List ChatMessage) (o : Option (ChatMessage × List Arrival))
        → Finds ms o
        → Finds ms (elim o as (λ _. Option (ChatMessage × List Arrival)) [
          | none ↦ none
          | some (m, rest) ↦ some (m, acked a ∷ rest)
        ])
    behind [] o h = rw h refl
    behind (m ∷ ms) o (rest, e, k) = rw e (acked a ∷ rest, refl, k)
first_inbound-Finds (inbound m ∷ l) = (l, refl, refl)

next_message-Takes : (c : Client) → Takes c (expected c) (next_message c)
unfolding next_message
next_message-Takes c = by_pending c.pending refl
  where
    by_channel :
        (ms : List ChatMessage) (o : Option (ChatMessage × List Arrival))
        → c.pending ≡ []
        → Finds ms o
        → Takes c ms (from_channel o c)
    by_channel [] o p h = rw h refl
    by_channel (m ∷ ms) o p (rest, e, k) =
        rw e (record c { arrivals = rest }, refl, ap (λ l. l ++ inbounds rest) p ∙ k, refl)

    by_pending :
        (l : List ChatMessage)
        → c.pending ≡ l
        → Takes c (l ++ inbounds c.arrivals) (from_pending l c)
    by_pending [] p =
        by_channel (inbounds c.arrivals) (first_inbound c.arrivals) p
          (first_inbound-Finds c.arrivals)
    by_pending (m ∷ rest) p = (record c { pending = rest }, refl, refl, refl)

-- What a wait returns, by the inbox: its first message, or an error if it is empty.
abbrev pub Answers : Error → List Message → Option (Outcome ChatMessage × Client) → Type 0
Answers e [] r = (c' : Client) × (r ≡ some (err e, c')) × (inbox_of c' ≡ [])
Answers e (x ∷ xs) r =
    (m : ChatMessage) × (c' : Client) × (r ≡ some (ok m, c'))
    × (seen m ≡ x)
    × (inbox_of c' ≡ xs)
    × (c'.ends_with ≡ e)

round-Answers :
    (c : Client) (ms : List ChatMessage) (r : Outcome ChatMessage × Client)
    (again : Client → Option (Outcome ChatMessage × Client))
    → expected c ≡ ms
    → Takes c ms r
    → ((c' : Client)
        → length (expected c') < length ms
        → Answers c'.ends_with (inbox_of c') (again c'))
    → Answers c.ends_with (system_messages ms) (keep_system r again)
unfolding system_messages
round-Answers c [] r again p h k = rw h (c, refl, ap system_messages p)
round-Answers c (m ∷ ms) r again p (c', e, behind, same) k = rw e (elim (Bool-cases (is_system m)) [
  | inl s ↦ rw s (m, c', refl, refl, ap system_messages behind, same)
  | inr s ↦ rw s (
      subst (λ x. Answers x (system_messages ms) (again c')) same
        (subst (λ l. Answers c'.ends_with (system_messages l) (again c')) behind
          (k c' (omega (arith, ap length behind)))))
])

wait_rounds-Answers :
    (n : ℕ) (c : Client)
    → length (expected c) < n
    → Answers c.ends_with (inbox_of c) (wait_rounds n c)
unfolding wait_rounds
wait_rounds-Answers zero c l = absurd (omega (arith, l))
wait_rounds-Answers (suc n) c l =
    round-Answers c (expected c) (next_message c) (wait_rounds n) refl (next_message-Takes c)
      λ c' shorter. wait_rounds-Answers n c' (omega (arith, l, shorter))

-- `WaitForNextSystemMessage` takes the first system message of those that the client will hand on,
-- passes over the others before it, and leaves the rest of the system messages in their order; it
-- fails, with the error of the reader or of the context, exactly if there is none: the client
-- refines the inbox over which the lodging step is modelled.
pub wait_for_next_system_message-Answers :
    (c : Client) → Answers c.ends_with (inbox_of c) (wait_for_next_system_message c)
unfolding wait_for_next_system_message
wait_for_next_system_message-Answers c =
    wait_rounds-Answers (suc (length (expected c))) c (omega arith)
