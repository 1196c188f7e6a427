-- ===== src/Text/Order.antt =====
-- Equality and order of texts are lawful.
use Prim.Native.Nat.{Ordering}
use Prim.Native.Nat.Ordering.{lt, eq, gt}
use qumulus.Base.{sym, ◌∙◌, ap, ◌≢◌, ◌⊎◌, inl, inr, ◌≡◌, refl, true, [], ◌∷◌, ◌↔◌, arith}
use qumulus.Text.{Text, text_eq, text_cmp}

pub text_eq_refl : (s : Text) → text_eq s s ≡ true
unfolding text_eq
text_eq_refl [] = refl
text_eq_refl (a ∷ s) = ground (arith, text_eq_refl s)

pub eq_of_text_eq : (s t : Text) → text_eq s t ≡ true → s ≡ t
unfolding text_eq
eq_of_text_eq [] [] h = refl
eq_of_text_eq [] (b ∷ t) h = cc
eq_of_text_eq (a ∷ s) [] h = cc
eq_of_text_eq (a ∷ s) (b ∷ t) h = ground (arith, eq_of_text_eq s t)

pub text_eq_of_eq : (s t : Text) → s ≡ t → text_eq s t ≡ true
text_eq_of_eq s t h = rw h (text_eq_refl t)

pub text_eq_iff : (s t : Text) → (text_eq s t ≡ true) ↔ (s ≡ t)
text_eq_iff s t = (eq_of_text_eq s t, text_eq_of_eq s t)

pub text_cmp_refl : (s : Text) → text_cmp s s ≡ eq
unfolding text_cmp
text_cmp_refl [] = refl
text_cmp_refl (a ∷ s) = ground (arith, text_cmp_refl s)

pub eq_of_text_cmp : (s t : Text) → text_cmp s t ≡ eq → s ≡ t
unfolding text_cmp
eq_of_text_cmp [] [] h = refl
eq_of_text_cmp [] (b ∷ t) h = cc
eq_of_text_cmp (a ∷ s) [] h = cc
eq_of_text_cmp (a ∷ s) (b ∷ t) h = ground (arith, eq_of_text_cmp s t)

pub lt_of_gt : (s t : Text) → text_cmp s t ≡ gt → text_cmp t s ≡ lt
unfolding text_cmp
lt_of_gt [] [] h = cc
lt_of_gt [] (b ∷ t) h = cc
lt_of_gt (a ∷ s) [] h = refl
lt_of_gt (a ∷ s) (b ∷ t) h = ground (arith, lt_of_gt s t)

pub gt_of_lt : (s t : Text) → text_cmp s t ≡ lt → text_cmp t s ≡ gt
unfolding text_cmp
gt_of_lt [] [] h = cc
gt_of_lt [] (b ∷ t) h = refl
gt_of_lt (a ∷ s) [] h = cc
gt_of_lt (a ∷ s) (b ∷ t) h = ground (arith, gt_of_lt s t)

pub lt_trans : (s t u : Text) → text_cmp s t ≡ lt → text_cmp t u ≡ lt → text_cmp s u ≡ lt
unfolding text_cmp
lt_trans [] [] u h k = cc
lt_trans [] (b ∷ t) [] h k = cc
lt_trans [] (b ∷ t) (c ∷ u) h k = refl
lt_trans (a ∷ s) [] u h k = cc
lt_trans (a ∷ s) (b ∷ t) [] h k = cc
lt_trans (a ∷ s) (b ∷ t) (c ∷ u) h k = ground (arith, lt_trans s t u)

pub ne_of_text_cmp : (k j : Text) (o : Ordering) → text_cmp k j ≡ o → o ≢ eq → k ≢ j
ne_of_text_cmp k j o h ne e = ne (sym h ∙ ap (text_cmp k) (sym e) ∙ text_cmp_refl k)

pub Ordering-cases : (o : Ordering) → (o ≡ lt) ⊎ ((o ≡ eq) ⊎ (o ≡ gt))
Ordering-cases lt = inl refl
Ordering-cases eq = inr (inl refl)
Ordering-cases gt = inr (inr refl)

pub eq_or_ne : (s t : Text) → (s ≡ t) ⊎ (s ≢ t)
eq_or_ne s t = elim (Ordering-cases (text_cmp s t)) [
  | inl l ↦ inr (ne_of_text_cmp s t lt l (λ e. cc))
  | inr (inl e) ↦ inl (eq_of_text_cmp s t e)
  | inr (inr g) ↦ inr (ne_of_text_cmp s t gt g (λ e. cc))
]
