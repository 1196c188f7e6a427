-- ===== src/Node/Merge/Entries.antt =====
-- The children of a node as a map.
use Prim.Native.Nat.Ordering.{lt, eq, gt}
use qumulus.Base.{true, ◌≡◌, ◌⊎◌, inl, inr, subst, refl, ◌≢◌, Option, none, some, arith}
use qumulus.Node.{Node, node, Children, nil, cons, default, is_noop, get_child, insert_child}
use qumulus.Node.Merge.{or_default, put_child}
use qumulus.Node.Merge.View.{Above, LocalChildren, IsLocal}
use qumulus.Text.{Text, text_cmp}
use qumulus.Text.Order.{text_cmp_refl, eq_of_text_cmp, lt_trans}
use qumulus.Vis

pub get_child-insert_self :
    (k : Text) (m : Node) (c : Children) → get_child k (insert_child k m c) ≡ some m
unfolding get_child insert_child
get_child-insert_self k m nil = rw (text_cmp_refl k, get_child)
get_child-insert_self k m (cons j n c) =
    ground (arith, get_child-insert_self k m c, text_cmp_refl k, eq_of_text_cmp k j)

pub get_child-insert_ne :
    (j k : Text) (m : Node) (c : Children)
    → j ≢ k
    → get_child j (insert_child k m c) ≡ get_child j c
unfolding get_child insert_child
get_child-insert_ne j k m nil h = ground (arith, eq_of_text_cmp j k)
get_child-insert_ne j k m (cons i n c) h =
    ground
      (arith, get_child-insert_ne j k m c, eq_of_text_cmp j k, eq_of_text_cmp k i, lt_trans j k i)

pub eq_default_of_is_noop : (n : Node) → is_noop n ≡ true → n ≡ default
unfolding is_noop Vis.is_noop
eq_default_of_is_noop (node v val ks g) h = ground arith

-- A vacant entry that is not filled reads as the default node, which is what was merged.
pub get_child-put_self :
    (k : Text) (n : Node) (c : Children)
    → or_default (get_child k (put_child k (get_child k c) n c)) ≡ n
unfolding put_child
get_child-put_self k n c = ground (arith, get_child-insert_self k n c, eq_default_of_is_noop n)

pub get_child-put_ne :
    (j k : Text) (o : Option Node) (n : Node) (c : Children)
    → j ≢ k
    → get_child j (put_child k o n c) ≡ get_child j c
unfolding put_child
get_child-put_ne j k o n c h = ground (arith, get_child-insert_ne j k n c)

-- A key that is below all others is absent.
pub get_child-Above : (k : Text) (c : Children) → Above k c → get_child k c ≡ none
unfolding get_child
get_child-Above k nil h = refl
get_child-Above k (cons j n c) h = ground arith

pub insert_child-Local :
    (k : Text) (m : Node) (c : Children)
    → IsLocal m
    → LocalChildren c
    → LocalChildren (insert_child k m c)
unfolding insert_child
insert_child-Local k m nil h l = (h, tt)
insert_child-Local k m (cons j n c) h l = ground (arith, insert_child-Local k m c)

pub put_child-Local :
    (k : Text) (o : Option Node) (m : Node) (c : Children)
    → IsLocal m
    → LocalChildren c
    → LocalChildren (put_child k o m c)
unfolding put_child
put_child-Local k o m c h l = ground (arith, insert_child-Local k m c)

pub get_child-Local :
    (k : Text) (c : Children) → LocalChildren c → IsLocal (or_default (get_child k c))
unfolding get_child
get_child-Local k nil l = (refl, tt)
get_child-Local k (cons j n c) l = ground (arith, get_child-Local k c)

module _ (k j : Text) (n : Node) (c : Children) where
  pub get_child-cons_lt : text_cmp k j ≡ lt → get_child k (cons j n c) ≡ none
  unfolding get_child
  get_child-cons_lt h = ground arith

  pub get_child-cons_eq : text_cmp k j ≡ eq → get_child k (cons j n c) ≡ some n
  unfolding get_child
  get_child-cons_eq h = ground arith

  pub get_child-cons_gt : text_cmp k j ≡ gt → get_child k (cons j n c) ≡ get_child k c
  unfolding get_child
  get_child-cons_gt h = ground arith

pub Above-trans : (k j : Text) (c : Children) → text_cmp k j ≡ lt → Above j c → Above k c
Above-trans k j nil h a = tt
Above-trans k j (cons i n c) h a = (lt_trans k j i h a.0, Above-trans k j c h a.1)

get_child-cons :
    (k j : Text) (n m : Node) (c : Children)
    → get_child k (cons j n c) ≡ some m
    → ((j ≡ k) × (n ≡ m)) ⊎ (get_child k c ≡ some m)
unfolding get_child
get_child-cons k j n m c h = ground (arith, eq_of_text_cmp k j)

-- What holds of the first child, and of an entry of the others, holds of every entry.
pub get_child-all :
    (P : Text → Node → Type 0) (k j : Text) (n m : Node) (c : Children)
    → get_child k (cons j n c) ≡ some m
    → P j n
    → (get_child k c ≡ some m → P k m)
    → P k m
get_child-all P k j n m c h first rest = elim (get_child-cons k j n m c h) [
  | inl e ↦ subst (P k) e.1 (subst (λ i. P i n) e.0 first)
  | inr e ↦ rest e
]
