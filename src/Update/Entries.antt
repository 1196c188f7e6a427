-- ===== src/Update/Entries.antt =====
-- The children of an update as a map.
use qumulus.Base.{◌≡◌, refl, ◌≢◌, Option, none, some, arith}
use qumulus.Text.{Text}
use qumulus.Text.Order.{text_cmp_refl, eq_of_text_cmp, lt_trans}
use qumulus.Update
use qumulus.Update.{Update, update, Children, nil, cons, get_child, insert_child, add_child}

get_child-insert_same :
    (k : Text) (w : Update) (c : Children) → get_child k (insert_child k w c) ≡ some w
unfolding get_child insert_child
get_child-insert_same k w nil = ground (arith, text_cmp_refl k)
get_child-insert_same k w (cons j u c) =
    ground (arith, get_child-insert_same k w c, text_cmp_refl k, eq_of_text_cmp k j)

get_child-insert_other :
    (j k : Text) (w : Update) (c : Children)
    → j ≢ k
    → get_child j (insert_child k w c) ≡ get_child j c
unfolding get_child insert_child
get_child-insert_other j k w nil h = ground (arith, eq_of_text_cmp j k)
get_child-insert_other j k w (cons i u c) h =
    ground (
      arith,
      get_child-insert_other j k w c,
      eq_of_text_cmp j k,
      eq_of_text_cmp k i,
      lt_trans j k i,
    )

-- The update of a child, if there is one.
abbrev pub child_of : Text → Update → Option Update
child_of k u = get_child k (Update.children_of (Update.keys_of u))

abbrev pub or_else : Option Update → Option Update → Option Update
or_else none o = o
or_else (some u) o = some u

pub child_of-add_same :
    (k : Text) (u : Update) (o : Option Update)
    → child_of k (add_child u k o) ≡ or_else o (child_of k u)
unfolding add_child
child_of-add_same k u none = refl
child_of-add_same k (update c p n ks d) (some w) = get_child-insert_same k w (Update.children_of ks)

pub child_of-add_other :
    (j k : Text) (u : Update) (o : Option Update)
    → j ≢ k
    → child_of j (add_child u k o) ≡ child_of j u
unfolding add_child
child_of-add_other j k u none h = refl
child_of-add_other j k (update c p n ks d) (some w) h =
    get_child-insert_other j k w (Update.children_of ks) h

pub new_of-add_child :
    (k : Text) (u : Update) (o : Option Update) → Update.new_of (add_child u k o) ≡ Update.new_of u
unfolding add_child
new_of-add_child k u none = refl
new_of-add_child k (update c p n ks d) (some w) = refl
