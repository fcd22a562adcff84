-- ===== src/SelectPeriod/Ranking/Order.antt =====
-- On the order of the candidates, and sorting by it.
use mathlib.Core.List.Perm
use mathlib.Core.List.{Perm}
use kenshu_elaris_project_gu.Prelude.{
  All, Bool-cases, List, [], arith, false, inl, inr, refl, true, ◌∷◌, ◌≡◌,
}
use kenshu_elaris_project_gu.GoText.{Text, text_lt}
use kenshu_elaris_project_gu.SelectPeriod.Ranking.{StayCandidate, insert_stable, less, sort_stable}

-- `a` stands before `b`, or they are level.
abbrev pub AtMost : StayCandidate → StayCandidate → Type 0
AtMost a b = less b a ≡ false

text_lt_asym : (s t : Text) → text_lt s t ≡ true → text_lt t s ≡ false
unfolding text_lt
text_lt_asym [] [] h = cc
text_lt_asym [] (y ∷ ys) h = refl
text_lt_asym (x ∷ xs) [] h = cc
text_lt_asym (x ∷ xs) (y ∷ ys) h = ground (arith, text_lt_asym xs ys)

text_lt_negtrans : (s t u : Text) → text_lt t s ≡ false → text_lt u t ≡ false → text_lt u s ≡ false
unfolding text_lt
text_lt_negtrans [] t [] h k = refl
text_lt_negtrans [] [] (z ∷ zs) h k = refl
text_lt_negtrans [] (y ∷ ys) (z ∷ zs) h k = refl
text_lt_negtrans (x ∷ xs) [] u h k = cc
text_lt_negtrans (x ∷ xs) (y ∷ ys) [] h k = cc
text_lt_negtrans (x ∷ xs) (y ∷ ys) (z ∷ zs) h k = ground (arith, text_lt_negtrans xs ys zs)

less-AtMost : (a b : StayCandidate) → less a b ≡ true → AtMost a b
unfolding less
less-AtMost a b h = ground (arith, text_lt_asym a.cottage_name b.cottage_name)

pub AtMost-refl : (a : StayCandidate) → AtMost a a
unfolding less
AtMost-refl a = ground (arith, text_lt_asym a.cottage_name a.cottage_name)

AtMost-trans : (a b c : StayCandidate) → AtMost a b → AtMost b c → AtMost a c
unfolding less
AtMost-trans a b c h k =
    ground (arith, text_lt_negtrans a.cottage_name b.cottage_name c.cottage_name)

-- Each candidate stands before, or level with, all those behind it.
abbrev pub IsSorted : List StayCandidate → Type 0
IsSorted [] = Unit {0}
IsSorted (c ∷ cs) = All (AtMost c) cs × IsSorted cs

All-AtMost-trans :
    (a b : StayCandidate) (cs : List StayCandidate)
    → AtMost a b
    → All (AtMost b) cs
    → All (AtMost a) cs
All-AtMost-trans a b [] h k = tt
All-AtMost-trans a b (c ∷ cs) h k = (AtMost-trans a b c h k.0, All-AtMost-trans a b cs h k.1)

pub All-insert_stable :
    (P : StayCandidate → Type 0) (x : StayCandidate) (ys : List StayCandidate)
    → P x
    → All P ys
    → All P (insert_stable x ys)
unfolding insert_stable
All-insert_stable P x [] h k = (h, tt)
All-insert_stable P x (y ∷ ys) h k = elim (Bool-cases (less y x)) [
  | inl e ↦ rw e (k.0, All-insert_stable P x ys h k.1)
  | inr e ↦ rw e (h, k)
]

insert_stable-IsSorted :
    (x : StayCandidate) (ys : List StayCandidate) → IsSorted ys → IsSorted (insert_stable x ys)
unfolding insert_stable
insert_stable-IsSorted x [] h = (tt, tt)
insert_stable-IsSorted x (y ∷ ys) h = elim (Bool-cases (less y x)) [
  | inl e ↦
      rw e
        (All-insert_stable (AtMost y) x ys (less-AtMost y x e) h.0, insert_stable-IsSorted x ys h.1)
  | inr e ↦ rw e ((e, All-AtMost-trans x y ys e h.0), h)
]

-- The candidates come out in order.
pub sort_stable-IsSorted : (cs : List StayCandidate) → IsSorted (sort_stable cs)
unfolding sort_stable
sort_stable-IsSorted [] = tt
sort_stable-IsSorted (c ∷ cs) = insert_stable-IsSorted c (sort_stable cs) (sort_stable-IsSorted cs)

insert_stable-perm :
    (x : StayCandidate) (ys : List StayCandidate) → Perm (insert_stable x ys) (x ∷ ys)
unfolding insert_stable
insert_stable-perm x [] = Perm.refl (x ∷ [])
insert_stable-perm x (y ∷ ys) = elim (Bool-cases (less y x)) [
  | inl e ↦ rw e (Perm.trans (Perm.cons y (insert_stable-perm x ys)) (Perm.swap x y ys))
  | inr e ↦ rw e (Perm.refl (x ∷ y ∷ ys))
]

-- The same candidates, each as often.
pub sort_stable-perm : (cs : List StayCandidate) → Perm (sort_stable cs) cs
unfolding sort_stable
sort_stable-perm [] = Perm.refl []
sort_stable-perm (c ∷ cs) =
    Perm.trans (insert_stable-perm c (sort_stable cs)) (Perm.cons c (sort_stable-perm cs))
