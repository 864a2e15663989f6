-- ===== src/Languages/Tests.antt =====
-- The choice of a language among three.
use flowbroker.Prelude.{String, false, none, some, List, [], ◌∷◌, ◌≡◌, refl, ◌⊎◌, All}
use flowbroker.Languages.{Tag, pick, pick_for, fits, map_supported}
use flowbroker.Languages.Picked.{Unmet, IsPicked, pick_lem}

abbrev supported : List String
supported = "en-US" ∷ "pt-BR" ∷ "pt" ∷ []

abbrev accepted : List Tag
accepted =
    record { code_of = "fr"; script = none; region = none }
    ∷ record { code_of = "PT"; script = none; region = some "br" }
    ∷ []

picked : pick false supported accepted ≡ some "pt-BR"
unfolding pick pick_for fits map_supported
picked = refl

pick_lem_example :
    ((pick false supported accepted ≡ none) × All (Unmet false supported) accepted)
    ⊎ ((s : String) × (pick false supported accepted ≡ some s)
        × IsPicked false supported accepted s)
pick_lem_example = pick_lem false supported accepted
