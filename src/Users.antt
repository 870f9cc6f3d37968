-- ===== src/Users.antt =====
-- The list of the users that the admin searches: admin/src/lib/hooks/useUsers.ts, `useUsers`. Each run
-- of its effect has a number; a run is cancelled when it is not the last one.
pub mod Latest
use noant.Base.{
  ℕ, zero, suc, ◌+◌, ◌==◌, Text, codes, get_elem?, Bool, true, false, Option, none, some, List, [],
  ◌∷◌, if◌then◌else◌,
}

-- A call of `getUsers`, with the run that makes it.
pub record Ask : Type 0 where
  pub generation : ℕ
  pub search : Text
  pub plan : Text

-- What the server answers; a user is an id.
pub record Listing : Type 0 where
  pub users : List Text
  pub total : ℕ

-- `timer` is that of the last run, `asked` are the calls that are not answered, the newest first.
pub record Users : Type 0 where
  pub search : Text
  pub plan : Text
  pub generation : ℕ
  pub timer : Option Ask
  pub asked : List Ask
  pub users : List Text
  pub total : ℕ
  pub error : Option Text
  pub loading : Bool

-- The effect, which first cancels the run before it.
pub run_effect : Users → Users
run_effect s = record s {
  generation = s.generation + 1;
  timer = some (record { generation = s.generation + 1; search = s.search; plan = s.plan });
  error = none;
  loading = true;
}

-- Other arguments of the hook, and `refetch`.
pub search_for : (search plan : Text) → Users → Users
unfolding run_effect
search_for search plan s = run_effect (record s { search = search; plan = plan })

pub refetch : Users → Users
unfolding run_effect
refetch s = run_effect s

-- The timer of 300 milliseconds.
abbrev pub fired : Option Ask → Users → Users
fired none s = s
fired (some a) s = record s { timer = none; asked = a ∷ s.asked }

pub fire : Users → Users
fire s = fired s.timer s

-- An answer that is taken; `none` is a call that failed.
pub landed : Option Listing → Users → Users
landed none s = record s {
  users = [];
  total = 0;
  error = some (codes "Failed to load users");
  loading = false;
}
landed (some r) s = record s { users = r.users; total = r.total; loading = false }

abbrev pub remove_at : ℕ → List Ask → List Ask
remove_at n [] = []
remove_at zero (a ∷ as_left) = as_left
remove_at (suc n) (a ∷ as_left) = a ∷ remove_at n as_left

-- The answer of the `n`-th of the calls; `serve` is the server, whose list does not change.
module _ (serve : Text → Text → Option Listing) where
  abbrev pub taken : Option Ask → Users → Users
  taken none s = s
  taken (some a) s = if a.generation == s.generation then landed (serve a.search a.plan) s else s

  pub answered : ℕ → Users → Users
  unfolding landed
  answered n s =
      let left : Users = record s { asked = remove_at n s.asked } in
      taken (get_elem? s.asked n) left
