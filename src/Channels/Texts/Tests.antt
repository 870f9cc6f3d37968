-- ===== src/Channels/Texts/Tests.antt =====
-- A session of 30 code units, and three integrations.
use noant.Base.{codes, length, true, false, ◌===◌, ◌||◌, none, [], ◌∷◌, List, All, ◌≡◌, refl, arith}
use noant.Review.Sets.{has}
use noant.Channels.{Integration, shorten, last_updated, is_before}
use noant.Channels.Texts.{length-shorten, candidates, last_updated_lem}

length-shorten_test : length (shorten (codes "abcdefghijklmnopqrstuvwxyz0123") 10 8) ≡ 21
length-shorten_test = length-shorten (codes "abcdefghijklmnopqrstuvwxyz0123") 10 8 (omega arith)

abbrev pub connected : Integration
connected = record {
  id = [];
  channel = codes "web";
  status = codes "connected";
  config = none;
  connected_at = codes "2024-01-05";
  created_at = [];
  updated_at = [];
}

abbrev pub updated : Integration
updated = record connected { channel = codes "gmail"; updated_at = codes "2024-03-02" }

last_updated_test : last_updated [] (connected ∷ updated ∷ connected ∷ []) ≡ codes "2024-03-02"
unfolding last_updated
last_updated_test = refl

abbrev integrations : List Integration
integrations = connected ∷ updated ∷ connected ∷ []

last_updated_lem_example :
    All (λ c. is_before (last_updated [] integrations) c ≡ false) (candidates integrations)
    × ((last_updated [] integrations === []
          || has (last_updated [] integrations) (candidates integrations))
        ≡ true)
last_updated_lem_example = last_updated_lem integrations
