-- ===== src/SelectPeriod/Chosen.antt =====
-- On `SelectPeriodStep.Execute`: the choice among the candidates.
use mathlib.Core.List.Perm
use mathlib.Core.Logic.Or
use mathlib.Core.Bool.{Bool-set}
use mathlib.Core.List.{Mem, Perm, mem-cons, mem-cons_self, not-mem-nil}
use kenshu_elaris_project_gu.Prelude.{All, List, Option, [], none, refl, some, ◌∷◌, ◌≡◌}
use kenshu_elaris_project_gu.SelectPeriod.{selected_of}
use kenshu_elaris_project_gu.SelectPeriod.Ranking.{
  StayCandidate, sort_stable, unique_stay_candidates,
}
use kenshu_elaris_project_gu.SelectPeriod.Ranking.Order.{
  AtMost, AtMost-refl, IsSorted, sort_stable-IsSorted, sort_stable-perm,
}

-- What the step selects from the candidates that it has collected.
abbrev pub selection : List StayCandidate → Option StayCandidate
selection cs = selected_of (unique_stay_candidates (sort_stable cs))

-- `b` is among the candidates and none stands before it; where there is no `b`, there is none.
abbrev pub IsBest : List StayCandidate → Option StayCandidate → Type 0
IsBest cs none = cs ≡ []
IsBest cs (some b) = Mem b cs × ((c : StayCandidate) → Mem c cs → AtMost b c)

selected_of-head :
    (c : StayCandidate) (cs : List StayCandidate)
    → selected_of (unique_stay_candidates (c ∷ cs)) ≡ some c
unfolding unique_stay_candidates
selected_of-head c cs = refl

selected_of-nil : selected_of (unique_stay_candidates []) ≡ none
unfolding unique_stay_candidates
selected_of-nil = refl

All-mem :
    (b c : StayCandidate) (cs : List StayCandidate) → All (AtMost b) cs → Mem c cs → AtMost b c
All-mem b c [] h m = absurd (not-mem-nil m)
All-mem b c (d ∷ ds) h m =
    Or.elim (Bool-set _ _) (mem-cons.0 m) (λ e. rw e h.0) (All-mem b c ds h.1)

IsBest-sorted :
    (cs sorted : List StayCandidate)
    → Perm sorted cs
    → IsSorted sorted
    → IsBest cs (selected_of (unique_stay_candidates sorted))
IsBest-sorted cs [] p h = rw selected_of-nil (Perm.eq-nil (Perm.symm p))
IsBest-sorted cs (b ∷ bs) p h = rw (selected_of-head b bs) (
  Perm.subset p b mem-cons_self,
  λ c m.
      Or.elim (Bool-set _ _) (mem-cons.0 (Perm.subset (Perm.symm p) c m))
        (λ e. rw e (AtMost-refl b)) (All-mem b c bs h.0),
)

-- The selected candidate is one of those collected, and no other stands before it in the order of
-- distance, then nights, then start, then name; nothing is selected only if nothing was collected.
pub selection-IsBest : (cs : List StayCandidate) → IsBest cs (selection cs)
selection-IsBest cs =
    IsBest-sorted cs (sort_stable cs) (sort_stable-perm cs) (sort_stable-IsSorted cs)
