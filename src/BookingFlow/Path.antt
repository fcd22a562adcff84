-- ===== src/BookingFlow/Path.antt =====
-- On the booking flow: the ways through its graph.
use kenshu_elaris_project_gu.Prelude.{
  Any, List, Option, [], inl, inr, none, refl, some, subst, true, ◌∷◌, ◌≡◌, ◌≢◌,
}
use kenshu_elaris_project_gu.BookingFlow.{
  BookingStep, book_cottage, default_booking_flow, end, list_cottages, select_cottage,
  select_period, start, state_map,
}
use kenshu_elaris_project_gu.GoFloat.{above_zero}
use kenshu_elaris_project_gu.Selector.{WeightedTuple}

-- Some item of positive weight has the value `t`.
abbrev pub PositiveIn : List (WeightedTuple BookingStep) → BookingStep → Type 0
PositiveIn items t = Any (λ i. (i.value ≡ t) × (above_zero i.weight ≡ true)) items

abbrev EdgeIn : Option (List (WeightedTuple BookingStep)) → BookingStep → Type 0
EdgeIn none t = ⊥
EdgeIn (some items) t = PositiveIn items t

-- An edge of the graph, of positive weight.
abbrev pub Edge : BookingStep → BookingStep → Type 0
Edge s t = EdgeIn (state_map default_booking_flow s) t

-- The steps that a flow has executed, the latest first, and the step at which it stands.
pub data Walks : List BookingStep → BookingStep → Type 0 where
  begin : Walks [] start
  move :
      {past : List BookingStep} {s t : BookingStep} → Walks past s → Edge s t → Walks (s ∷ past) t

abbrev pub Done : BookingStep → List BookingStep → Type 0
Done s past = Any (λ t. t ≡ s) past

-- What a flow has done by the time that it stands at a step.
abbrev pub Prepared : List BookingStep → BookingStep → Type 0
Prepared past list_cottages = ¬ Done book_cottage past
Prepared past select_cottage = Done list_cottages past × ¬ Done book_cottage past
Prepared past select_period =
    Done list_cottages past × Done select_cottage past × ¬ Done book_cottage past
Prepared past book_cottage =
    Done list_cottages past
    × Done select_cottage past
    × Done select_period past
    × ¬ Done book_cottage past
Prepared past end = Done list_cottages past

-- Nothing booked, and not booking now.
unbooked :
    (s : BookingStep) (past : List BookingStep)
    → s ≢ book_cottage
    → ¬ Done book_cottage past
    → ¬ Done book_cottage (s ∷ past)
unbooked s past h k (inl e) = h e
unbooked s past h k (inr m) = k m

move-Prepared :
    (past : List BookingStep) (s t : BookingStep)
    → Prepared past s
    → Edge s t
    → Prepared (s ∷ past) t
unfolding state_map default_booking_flow
move-Prepared past list_cottages t p (inl e) =
    subst (Prepared (list_cottages ∷ past)) e.0 (inl refl, unbooked list_cottages past (λ e. cc) p)
move-Prepared past list_cottages t p (inr (inl e)) =
    subst (Prepared (list_cottages ∷ past)) e.0 (inl refl)
move-Prepared past list_cottages t p (inr (inr e)) = absurd e
move-Prepared past select_cottage t p (inl e) =
    subst (Prepared (select_cottage ∷ past)) e.0
      (inr p.0, inl refl, unbooked select_cottage past (λ e. cc) p.1)
move-Prepared past select_cottage t p (inr (inl e)) =
    subst (Prepared (select_cottage ∷ past)) e.0 (unbooked select_cottage past (λ e. cc) p.1)
move-Prepared past select_cottage t p (inr (inr (inl e))) =
    subst (Prepared (select_cottage ∷ past)) e.0 (inr p.0)
move-Prepared past select_cottage t p (inr (inr (inr e))) = absurd e
move-Prepared past select_period t p (inl e) =
    subst (Prepared (select_period ∷ past)) e.0
      (inr p.0, inr p.1, unbooked select_period past (λ e. cc) p.2)
move-Prepared past select_period t p (inr (inl e)) =
    subst (Prepared (select_period ∷ past)) e.0 (inr p.0, unbooked select_period past (λ e. cc) p.2)
move-Prepared past select_period t p (inr (inr (inl e))) =
    subst (Prepared (select_period ∷ past)) e.0 (unbooked select_period past (λ e. cc) p.2)
move-Prepared past select_period t p (inr (inr (inr (inl e)))) =
    subst (Prepared (select_period ∷ past)) e.0
      (inr p.0, inr p.1, inl refl, unbooked select_period past (λ e. cc) p.2)
move-Prepared past select_period t p (inr (inr (inr (inr (inl e))))) =
    subst (Prepared (select_period ∷ past)) e.0 (inr p.0)
move-Prepared past select_period t p (inr (inr (inr (inr (inr e))))) = absurd e
move-Prepared past book_cottage t p (inl e) = subst (Prepared (book_cottage ∷ past)) e.0 (inr p.0)
move-Prepared past book_cottage t p (inr e) = absurd e
move-Prepared past end t p e = absurd e

-- On every way through the graph a guest who stands at booking has listed the cottages, selected a
-- cottage and selected a period, and has not booked; nobody selects a period before a cottage, or
-- either before listing.
pub Walks-Prepared : {past : List BookingStep} {s : BookingStep} → Walks past s → Prepared past s
Walks-Prepared begin = λ m. m
Walks-Prepared (move {past} {s} {t} walk edge) = move-Prepared past s t (Walks-Prepared walk) edge
