-- ===== src/Palette.antt =====
-- `CommandPalette` of frontend/src/components/ui/CommandPalette.tsx. Each event is rendered, and
-- the effects run, before the next.
pub mod Choice
use noant.Base.{
  ℕ, ◌+◌, ◌-◌, ◌%◌, ltb, ◌==◌, Text, codes, ◌===◌, includes, length, get_elem?, keep_if, Bool, true,
  false, not, Option, none, some, List, [], ◌∷◌, if◌then◌else◌,
}

-- A command goes to a path; signing out, which has none, leaves for the login page.
pub record CommandItem : Type 0 where
  pub label : Text
  pub path : Option Text

abbrev goes : Text → Text → CommandItem
goes label path = record { label = label; path = some path }

pub items : List CommandItem
items =
    goes (codes "Go to Overview") (codes "/dashboard")
    ∷ goes (codes "Go to Conversations") (codes "/chats")
    ∷ goes (codes "Go to Teach your Noant") (codes "/teach")
    ∷ goes (codes "Go to Insights") (codes "/insights")
    ∷ goes (codes "Go to Your channels") (codes "/channels")
    ∷ goes (codes "Go to Your setup") (codes "/setup")
    ∷ record { label = codes "Sign out"; path = none }
    ∷ []

-- `selected_index` is `none` for NaN; `log` has where the commands went, the newest first.
pub record Palette : Type 0 where
  pub shows : Bool
  pub search : Text
  pub selected_index : Option ℕ
  pub log : List Text

pub data Event : Type 0 where
  ctrl_k escape arrow_down arrow_up enter backdrop : Event
  tab : (shift : Bool) → Event
  type_text : Text → Event
  hover click : ℕ → Event

-- The effect on `[open]`.
set_open : Bool → Palette → Palette
set_open true p = record p { shows = true; search = []; selected_index = some 0 }
set_open false p = record p { shows = false }

-- `a % n`, NaN for 0
remainder : ℕ → ℕ → Option ℕ
remainder a n = if n == 0 then none else some (a % n)

-- `(i + 1) % n` and `(i - 1 + n) % n`
pub next_index : Option ℕ → ℕ → Option ℕ
unfolding remainder
next_index none n = none
next_index (some i) n = remainder (i + 1) n

pub previous_index : Option ℕ → ℕ → Option ℕ
unfolding remainder
previous_index none n = none
previous_index (some i) n = remainder (i + n - 1) n

-- `item.action()`
pub act : CommandItem → Palette → Palette
unfolding set_open
act item p = elim item.path [
  | none ↦ record p { log = codes "/login" ∷ p.log }
  | some path ↦ set_open false (record p { log = path ∷ p.log })
]

pub act_at : Option CommandItem → Palette → Palette
unfolding act
act_at none p = p
act_at (some item) p = act item p

-- `filtered[selectedIndex]`
pub selected_item : Option ℕ → List CommandItem → Option CommandItem
selected_item none l = none
selected_item (some i) l = get_elem? l i

-- `setSearch`, and the effect on `[search]`.
set_search : Text → Palette → Palette
set_search t p = if t === p.search then p else record p { search = t; selected_index = some 0 }

-- `lower` is `toLowerCase`.
module _ (lower : Text → Text) where
  pub filtered : Text → List CommandItem
  unfolding items
  filtered search = keep_if (λ i. includes (lower search) (lower i.label)) items

  -- What the events of the dialog do.
  press : Event → Palette → Palette
  unfolding set_open set_search next_index previous_index act_at selected_item filtered
  press escape p = set_open false p
  press backdrop p = set_open false p
  press arrow_down p = record p {
    selected_index = next_index p.selected_index (length (filtered p.search));
  }
  press arrow_up p = record p {
    selected_index = previous_index p.selected_index (length (filtered p.search));
  }
  press (tab true) p = record p {
    selected_index = previous_index p.selected_index (length (filtered p.search));
  }
  press (tab false) p = record p {
    selected_index = next_index p.selected_index (length (filtered p.search));
  }
  press enter p = act_at (selected_item p.selected_index (filtered p.search)) p
  press (type_text t) p = set_search t p
  press (hover i) p =
      if ltb i (length (filtered p.search)) then record p { selected_index = some i } else p
  press (click i) p = act_at (get_elem? (filtered p.search) i) p
  press ctrl_k p = p

  pub step : Event → Palette → Palette
  unfolding press set_open
  step ctrl_k p = set_open (not p.shows) p
  step e p = if p.shows then press e p else p

  pub run : List Event → Palette → Palette
  unfolding step
  run [] p = p
  run (e ∷ es) p = run es (step e p)

abbrev pub initial : Palette
initial = record { shows = false; search = []; selected_index = some 0; log = [] }
