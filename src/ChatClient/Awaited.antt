-- ===== src/ChatClient/Awaited.antt =====
-- `expectNotification` and `expectRequest` of internal/app/steps/lodging_step/run_lodging.go over the client: the
-- waits of the lodging step are those of the client.
use kenshu_elaris_project_gu.Prelude.{
  Bool, Bool-cases, List, Option, [], ap, arith, if◌then◌else◌, inl, inr, length, none, refl, some,
  subst, suc, sym, zero, ℕ, ◌<◌, ◌∷◌, ◌≡◌,
}
use kenshu_elaris_project_gu.ChatClient.{ChatMessage, Client, wait_for_next_system_message}
use kenshu_elaris_project_gu.ChatClient.Inbox.{
  Answers, inbox_of, seen, wait_for_next_system_message-Answers,
}
use kenshu_elaris_project_gu.Lodging.Chat.{Chat, Message, await, search_inbox}
use kenshu_elaris_project_gu.World.{Error, Outcome, chat_failed, err, ok, panics}

-- One round: a message that is not wanted is passed over.
abbrev wanted_or :
    (Message → Bool)
    → Option (Outcome ChatMessage × Client)
    → (Client → Option (Outcome ChatMessage × Client))
    → Option (Outcome ChatMessage × Client)
wanted_or wanted none again = none
wanted_or wanted (some (ok m, c)) again =
    let later = again c in if wanted (seen m) then some (ok m, c) else later
wanted_or wanted (some (err e, c)) again = some (err e, c)
wanted_or wanted (some (panics, c)) again = some (panics, c)

-- The loop over `WaitForNextSystemMessage`, with a bound on its rounds.
unfoldable pub expect_rounds : (Message → Bool) → ℕ → Client → Option (Outcome ChatMessage × Client)
expect_rounds wanted zero c = none
expect_rounds wanted (suc n) c =
    wanted_or wanted (wait_for_next_system_message c) (expect_rounds wanted n)

-- The result of a search of the inbox, as the client returns it.
abbrev Found :
    Error → Option (Message × List Message) → Option (Outcome ChatMessage × Client) → Type 0
Found e none r = (c : Client) × (r ≡ some (err e, c)) × (inbox_of c ≡ [])
Found e (some (x, xs)) r =
    (m : ChatMessage) × (c : Client) × (r ≡ some (ok m, c)) × (seen m ≡ x) × (inbox_of c ≡ xs)

round-Found :
    (wanted : Message → Bool) (e : Error) (inbox : List Message)
    (r : Option (Outcome ChatMessage × Client))
    (again : Client → Option (Outcome ChatMessage × Client))
    → Answers e inbox r
    → ((c : Client)
        → length (inbox_of c) < length inbox
        → Found c.ends_with (search_inbox wanted (inbox_of c)) (again c))
    → Found e (search_inbox wanted inbox) (wanted_or wanted r again)
unfolding search_inbox
round-Found wanted e [] r again (c, eq, k) h = rw eq (c, refl, k)
round-Found wanted e (x ∷ xs) r again (m, c, eq, s, k, same) h = rw eq (
    subst (λ y. Found e (search_inbox wanted (y ∷ xs)) (wanted_or wanted (some (ok m, c)) again)) s
      (elim (Bool-cases (wanted (seen m))) [
        | inl t ↦ rw t (m, c, refl, refl, k)
        | inr t ↦ rw t (
            subst (λ z. Found z (search_inbox wanted xs) (again c)) same
              (subst (λ l. Found c.ends_with (search_inbox wanted l) (again c)) k
                (h c (omega (arith, ap length k)))))
      ]))

expect_rounds-Found :
    (wanted : Message → Bool) (n : ℕ) (c : Client)
    → length (inbox_of c) < n
    → Found c.ends_with (search_inbox wanted (inbox_of c)) (expect_rounds wanted n c)
unfolding expect_rounds
expect_rounds-Found wanted zero c l = absurd (omega (arith, l))
expect_rounds-Found wanted (suc n) c l =
    round-Found wanted c.ends_with (inbox_of c) (wait_for_next_system_message c)
      (expect_rounds wanted n) (wait_for_next_system_message-Answers c)
      λ c' shorter. expect_rounds-Found wanted n c' (omega (arith, l, shorter))

-- The client returns what the wait of the lodging step returns, and stands for its inbox again.
abbrev pub Agrees : Error → Outcome Message × Chat → Option (Outcome ChatMessage × Client) → Type 0
Agrees e (ok x, chat) r =
    (m : ChatMessage) × (c : Client) × (r ≡ some (ok m, c))
    × (seen m ≡ x)
    × (inbox_of c ≡ chat.inbox)
Agrees e (err x, chat) r = (c : Client) × (r ≡ some (err e, c)) × (inbox_of c ≡ chat.inbox)
Agrees e (panics, chat) r = ⊥

by_search :
    (e : Error) (chat : Chat) (o : Option (Message × List Message))
    (r : Option (Outcome ChatMessage × Client))
    → Found e o r
    → Agrees e
        (elim o as (λ _. Outcome Message × Chat) [
          | none ↦ (err chat_failed, record chat { inbox = [] })
          | some (m, ms) ↦ (ok m, record chat { inbox = ms })
        ])
        r
by_search e chat none r h = h
by_search e chat (some (m, ms)) r h = h

-- A chat whose inbox is the one that the client stands for waits for a notification or a request as
-- the client does: both return the same message, or both fail, and what they leave stands for the
-- same inbox; one round more than the inbox has messages is enough.
pub await-Agrees :
    (wanted : Message → Bool) (n : ℕ) (c : Client) (chat : Chat)
    → chat.inbox ≡ inbox_of c
    → length (inbox_of c) < n
    → Agrees c.ends_with (await wanted chat) (expect_rounds wanted n c)
unfolding await
await-Agrees wanted n c chat same l =
    by_search c.ends_with chat (search_inbox wanted chat.inbox) (expect_rounds wanted n c) (
      subst (λ i. Found c.ends_with (search_inbox wanted i) (expect_rounds wanted n c)) (sym same)
        (expect_rounds-Found wanted n c l))
