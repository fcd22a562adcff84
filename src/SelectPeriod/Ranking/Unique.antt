-- ===== src/SelectPeriod/Ranking/Unique.antt =====
-- On `uniqueStayCandidates`: what it keeps.
use kenshu_elaris_project_gu.Prelude.{
  All, Any, Bool-cases, List, [], arith, false, inl, inr, subst, sym, true, ◌∷◌, ◌≡◌, ◌⊎◌,
}
use kenshu_elaris_project_gu.GoText.{text_eq_iff}
use kenshu_elaris_project_gu.SelectPeriod.Ranking.{
  StayCandidate, same_key, seen_key, unique_from, unique_stay_candidates,
}

-- No two of the candidates have one key.
abbrev pub DistinctKeys : List StayCandidate → Type 0
DistinctKeys [] = Unit {0}
DistinctKeys (c ∷ cs) = All (λ d. same_key c d ≡ false) cs × DistinctKeys cs

same_key_refl : (c : StayCandidate) → same_key c c ≡ true
unfolding same_key
same_key_refl c = ground (arith, text_eq_iff c.cottage_name c.cottage_name)

seen_key_tail :
    (c d : StayCandidate) (seen : List StayCandidate)
    → seen_key d (c ∷ seen) ≡ false
    → seen_key d seen ≡ false
unfolding seen_key
seen_key_tail c d seen h = ground (arith, h)

seen_key_head :
    (c d : StayCandidate) (seen : List StayCandidate)
    → seen_key d (c ∷ seen) ≡ false
    → same_key c d ≡ false
unfolding seen_key
seen_key_head c d seen h = ground (arith, h)

seen_key_split :
    (c x : StayCandidate) (seen us : List StayCandidate)
    → (seen_key x (c ∷ seen) ≡ true) ⊎ Any (λ d. same_key d x ≡ true) us
    → (seen_key x seen ≡ true) ⊎ Any (λ d. same_key d x ≡ true) (c ∷ us)
unfolding seen_key
seen_key_split c x seen us (inr h) = inr (inr h)
seen_key_split c x seen us (inl h) = elim (Bool-cases (same_key c x)) [
  | inl e ↦ inr (inl e)
  | inr e ↦ inl (ground (arith, h, e))
]

drop_unseen :
    (us cs : List StayCandidate)
    → All (λ c. (seen_key c [] ≡ true) ⊎ Any (λ d. same_key d c ≡ true) us) cs
    → All (λ c. Any (λ d. same_key d c ≡ true) us) cs
unfolding seen_key
drop_unseen us [] h = tt
drop_unseen us (c ∷ cs) (inl e, h) = cc
drop_unseen us (c ∷ cs) (inr e, h) = (e, drop_unseen us cs h)

unique_from-unseen :
    (seen cs : List StayCandidate) → All (λ d. seen_key d seen ≡ false) (unique_from seen cs)
unfolding unique_from
unique_from-unseen seen [] = tt
unique_from-unseen seen (c ∷ cs) = elim (Bool-cases (seen_key c seen)) [
  | inl e ↦ rw e (unique_from-unseen seen cs)
  | inr e ↦ rw e (e, weaken (unique_from (c ∷ seen) cs) (unique_from-unseen (c ∷ seen) cs))
]
  where
    weaken :
        (ds : List StayCandidate)
        → All (λ d. seen_key d (c ∷ seen) ≡ false) ds
        → All (λ d. seen_key d seen ≡ false) ds
    weaken [] h = tt
    weaken (d ∷ ds) h = (seen_key_tail c d seen h.0, weaken ds h.1)

unique_from-DistinctKeys : (seen cs : List StayCandidate) → DistinctKeys (unique_from seen cs)
unfolding unique_from
unique_from-DistinctKeys seen [] = tt
unique_from-DistinctKeys seen (c ∷ cs) = elim (Bool-cases (seen_key c seen)) [
  | inl e ↦ rw e (unique_from-DistinctKeys seen cs)
  | inr e ↦ rw e (
    first (unique_from (c ∷ seen) cs) (unique_from-unseen (c ∷ seen) cs),
    unique_from-DistinctKeys (c ∷ seen) cs,
  )
]
  where
    first :
        (ds : List StayCandidate)
        → All (λ d. seen_key d (c ∷ seen) ≡ false) ds
        → All (λ d. same_key c d ≡ false) ds
    first [] h = tt
    first (d ∷ ds) h = (seen_key_head c d seen h.0, first ds h.1)

unique_from_seen :
    (c : StayCandidate) (seen cs : List StayCandidate)
    → seen_key c seen ≡ true
    → unique_from seen (c ∷ cs) ≡ unique_from seen cs
unfolding unique_from
unique_from_seen c seen cs e = rw e

unique_from_new :
    (c : StayCandidate) (seen cs : List StayCandidate)
    → seen_key c seen ≡ false
    → unique_from seen (c ∷ cs) ≡ c ∷ unique_from (c ∷ seen) cs
unfolding unique_from
unique_from_new c seen cs e = rw e

-- Each of `xs` has a key that was seen, or one of `us`.
abbrev Covered : List StayCandidate → List StayCandidate → List StayCandidate → Type 0
Covered seen us = All (λ c. (seen_key c seen ≡ true) ⊎ Any (λ d. same_key d c ≡ true) us)

Covered-cons :
    (c : StayCandidate) (seen us xs : List StayCandidate)
    → Covered (c ∷ seen) us xs
    → Covered seen (c ∷ us) xs
Covered-cons c seen us [] h = tt
Covered-cons c seen us (x ∷ xs) h = (seen_key_split c x seen us h.0, Covered-cons c seen us xs h.1)

unique_from-Covered : (seen cs : List StayCandidate) → Covered seen (unique_from seen cs) cs
unfolding unique_from
unique_from-Covered seen [] = tt
unique_from-Covered seen (c ∷ cs) = elim (Bool-cases (seen_key c seen)) [
  | inl e ↦
      subst (λ us. Covered seen us (c ∷ cs)) (sym (unique_from_seen c seen cs e))
        (inl e, unique_from-Covered seen cs)
  | inr e ↦
      subst (λ us. Covered seen us (c ∷ cs)) (sym (unique_from_new c seen cs e))
        (
          inr (inl (same_key_refl c)),
          Covered-cons c seen (unique_from (c ∷ seen) cs) cs (unique_from-Covered (c ∷ seen) cs),
        )
]

-- The kept candidates have distinct keys, and each candidate shares its key with one that is kept.
pub unique_stay_candidates-DistinctKeys :
    (cs : List StayCandidate)
    → DistinctKeys (unique_stay_candidates cs)
      × All (λ c. Any (λ d. same_key d c ≡ true) (unique_stay_candidates cs)) cs
unfolding unique_stay_candidates
unique_stay_candidates-DistinctKeys cs =
    (unique_from-DistinctKeys [] cs, drop_unseen (unique_from [] cs) cs (unique_from-Covered [] cs))
