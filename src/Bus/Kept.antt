-- ===== src/Bus/Kept.antt =====
-- On the bus: what becomes of a message that is published.
use mathlib.Core.List.{append-nil, append_assoc}
use kenshu_elaris_project_gu.Prelude.{
  Any, Bool-cases, List, Option, [], ap, false, inl, inr, none, refl, some, sym, true, ◌++◌, ◌↔◌,
  ◌∙◌, ◌∷◌, ◌≡◌, ◌⊎◌,
}
use kenshu_elaris_project_gu.Bus.{Topic, has_room, notify_subscribers, publish}

-- A channel before and behind a publication.
abbrev pub Keeps : {M : Type 0} → M → Option M → Option M → Type 0
Keeps msg none after = after ≡ some msg
Keeps msg (some m) after = after ≡ some m

-- Every channel has what it had, or the message if it was empty.
abbrev pub Offered : {M : Type 0} → M → List (Option M) → List (Option M) → Type 0
Offered msg [] [] = Unit {0}
Offered msg [] (_ ∷ _) = ⊥
Offered msg (_ ∷ _) [] = ⊥
Offered msg (c ∷ cs) (d ∷ ds) = Keeps msg c d × Offered msg cs ds

module _ {M : Type 0} where
  abbrev pub IsEmptyChannel : Option M → Type 0
  IsEmptyChannel c = c ≡ none

  notify_subscribers-Offered :
      (msg : M) (cs : List (Option M)) → Offered msg cs (notify_subscribers msg cs)
  unfolding notify_subscribers
  notify_subscribers-Offered msg [] = tt
  notify_subscribers-Offered msg (none ∷ cs) = (refl, notify_subscribers-Offered msg cs)
  notify_subscribers-Offered msg (some m ∷ cs) = (refl, notify_subscribers-Offered msg cs)

  has_room_iff : (cs : List (Option M)) → (has_room cs ≡ true) ↔ Any IsEmptyChannel cs
  unfolding has_room
  has_room_iff [] = (λ h. cc, λ h. absurd h)
  has_room_iff (none ∷ cs) = (λ _. inl refl, λ _. refl)
  has_room_iff (some m ∷ cs) =
      (λ h. inr ((has_room_iff cs).0 h), λ k. (has_room_iff cs).1 (later k))
    where
      later : Any IsEmptyChannel (some m ∷ cs) → Any IsEmptyChannel cs
      later (inl e) = cc
      later (inr k) = k

  -- A published message goes into every empty channel of a subscriber; if there is none it is kept
  -- behind the messages kept before. Full channels and the messages kept before stay as they were.
  pub publish-Offered :
      (msg : M) (t : Topic M)
      → (Any IsEmptyChannel t.channels
          × Offered msg t.channels (publish msg t).channels
          × ((publish msg t).pending ≡ t.pending))
        ⊎ ((¬ Any IsEmptyChannel t.channels)
            × ((publish msg t).channels ≡ t.channels)
            × ((publish msg t).pending ≡ t.pending ++ (msg ∷ [])))
  unfolding publish
  publish-Offered msg t = elim (Bool-cases (has_room t.channels)) [
    | inl e ↦
        rw (publish, e)
          (inl ((has_room_iff t.channels).0 e, notify_subscribers-Offered msg t.channels, refl))
    | inr e ↦ rw (publish, e) (inr (λ k. no_room e ((has_room_iff t.channels).1 k), refl, refl))
  ]
    where
      no_room : has_room t.channels ≡ false → has_room t.channels ≡ true → ⊥
      no_room e f = cc

  -- Publishing one message after another.
  unfoldable pub publish_all : List M → Topic M → Topic M
  publish_all [] t = t
  publish_all (m ∷ ms) t = publish_all ms (publish m t)

  -- With no subscriber, the messages are kept in the order in which they came.
  pub publish_all-pending :
      (ms : List M) (t : Topic M)
      → t.channels ≡ []
      → publish_all ms t ≡ record t { pending = t.pending ++ ms }
  unfolding publish_all publish has_room
  publish_all-pending [] t e = ap (λ l. record t { pending = l }) (sym (append-nil t.pending))
  publish_all-pending (m ∷ ms) t e =
      ap (publish_all ms) (kept m t e)
      ∙ publish_all-pending ms (record t { pending = t.pending ++ (m ∷ []) }) e
      ∙ ap (λ l. record t { pending = l }) (append_assoc t.pending (m ∷ []) ms)
    where
      kept :
          (m : M) (t : Topic M)
          → t.channels ≡ []
          → publish m t ≡ record t { pending = t.pending ++ (m ∷ []) }
      kept m t e = rw e refl
