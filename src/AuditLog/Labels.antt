-- ===== src/AuditLog/Labels.antt =====
-- What is shown of a failed login.
mod Tests
use noant.Base.{
  ℕ, ◌==◌, Text, codes, ◌===◌, starts_with, includes, Bool, true, false, ◌&&◌, ◌||◌, Option, none,
  some, List, [], ◌∷◌, ◌++◌, ◌≡◌, refl, arith, ◌∙◌, ap, if◌then◌else◌,
}
use noant.AuditLog.{
  Info, Entry, entry, logged_in, failed_login, more_labels, action_labels, find_action,
  get_action_info, get_action_color, route_info,
}

starts_with_of_append : (p q s : Text) → starts_with (p ++ q) s ≡ true → starts_with p s ≡ true
starts_with_of_append [] q s h = refl
starts_with_of_append (c ∷ p) q [] h = h
starts_with_of_append (c ∷ p) q (d ∷ s) h = ground (arith, starts_with_of_append p q s)

includes_of_append : (p q s : Text) → includes (p ++ q) s ≡ true → includes p s ≡ true
includes_of_append p q [] h = starts_with_of_append p q [] h
includes_of_append p q (c ∷ s) h =
    ground (arith, starts_with_of_append p q (c ∷ s), includes_of_append p q s)

includes_of_starts_with : (p s : Text) → starts_with p s ≡ true → includes p s ≡ true
includes_of_starts_with p [] h = h
includes_of_starts_with p (c ∷ s) h = ground (arith, h)

-- The first two entries, whatever the others are.
find_action_lem :
    (e f : Entry) (es : List Entry) (a : Text)
    → includes f.key a ≡ true
    → find_action (e ∷ f ∷ es) a ≡ some (if includes e.key a || a === e.key then e.info else f.info)
unfolding find_action
find_action_lem e f es a h = ground arith

-- What is shown of an action among whose parts is that of a failed login.
abbrev pub failed_info : Text → Info
failed_info a =
    if includes logged_in.key a || a === logged_in.key then logged_in.info else failed_login.info

get_action_info_lem :
    (a : Text) → includes failed_login.key a ≡ true → get_action_info a ≡ failed_info a
unfolding get_action_info action_labels
get_action_info_lem a h =
    ap (λ o. let i : Info = elim o [ some i ↦ i | none ↦ route_info a ] in i)
      (find_action_lem logged_in failed_login more_labels a h)

-- The entries of the table whose keys go on behind that of a failed login, such as that for an
-- account that is locked, are never used: in the settings each action that begins with such a key is
-- shown as any failed login, unless it also has the key of a login. On the admin's page it has the
-- colour of a login that succeeded.
pub get_action_info-failed :
    (q a : Text)
    → starts_with (failed_login.key ++ q) a ≡ true
    → (get_action_info a ≡ failed_info a) × (get_action_color a ≡ codes "text-success")
unfolding get_action_color
get_action_info-failed q a h =
    let k = starts_with_of_append failed_login.key q a h in
    (
      get_action_info_lem a (includes_of_starts_with failed_login.key a k),
      ground (arith, starts_with_of_append (codes "user.login") (codes ".failed") a k),
    )
