-- ===== src/Notifications/Groups.antt =====
-- What the groups of a day hold.
mod Tests
use noant.Base.{
  Text, ◌===◌, ===_iff, ===_refl, keep_if, Bool, true, false, List, [], ◌∷◌, ◌++◌, if◌then◌else◌,
  ◌≡◌, refl, sym, ap, ◌∙◌, subst, arith, append-nil, append_assoc, Bool-cases, inl, inr,
}
use noant.Notifications.{
  Notification, Filter, Group, push, label_of, group_from, group_by_date, filtered,
}

-- `groups[label]`, empty where there is no such group.
abbrev pub group_at : Text → List Group → List Notification
group_at label [] = []
group_at label (g ∷ gs) = if g.0 === label then g.1 else group_at label gs

group_at-push :
    (label l : Text) (n : Notification) (gs : List Group)
    → group_at label (push l n gs)
      ≡ (if l === label then group_at label gs ++ (n ∷ []) else group_at label gs)
unfolding push
group_at-push label l n [] = ground arith
group_at-push label l n (g ∷ gs) =
    ground (arith, group_at-push label l n gs, ===_iff g.0 l, ===_iff g.0 label, ===_iff l label)

append_if :
    (b : Bool) (n : Notification) (xs ys : List Notification)
    → (if b then xs ++ (n ∷ []) else xs) ++ ys ≡ xs ++ (if b then n ∷ ys else ys)
append_if true n xs ys = append_assoc xs (n ∷ []) ys
append_if false n xs ys = refl

module _ (to_date_string long_date : Text → Text) (today yesterday : Text) where
  abbrev pub has_label : Text → Notification → Bool
  has_label label n = label_of to_date_string long_date today yesterday n === label

  group_from_lem :
      (label : Text) (gs : List Group) (ns : List Notification)
      → group_at label (group_from to_date_string long_date today yesterday gs ns)
        ≡ group_at label gs ++ keep_if (has_label label) ns
  unfolding group_from
  group_from_lem label gs [] = sym (append-nil (group_at label gs))
  group_from_lem label gs (n ∷ ns) =
      let l = label_of to_date_string long_date today yesterday n in
      group_from_lem label (push l n gs) ns
      ∙ ap (λ xs. xs ++ keep_if (has_label label) ns) (group_at-push label l n gs)
      ∙ append_if (has_label label n) n (group_at label gs) (keep_if (has_label label) ns)

  -- Under each label the page has the notifications of its filter with this label, all of them and in
  -- their order; a label of none of them has no notification.
  pub group_at-group_by_date :
      (label : Text) (f : Filter) (ns : List Notification)
      → group_at label (group_by_date to_date_string long_date today yesterday (filtered f ns))
        ≡ keep_if (has_label label) (filtered f ns)
  unfolding group_by_date
  group_at-group_by_date label f ns = group_from_lem label [] (filtered f ns)
