-- ===== src/Languages/Picked.antt =====
-- What the choice of a language comes to.
use flowbroker.Prelude.{
  String, Bool, true, false, none, some, List, [], ◌∷◌, ◌++◌, ◌≡◌, ◌⊎◌, inl, inr, refl, All,
  Bool-cases, ap,
}
use flowbroker.Languages.{Tag, map_supported, fits, pick_for, pick}

-- No supported language fits.
abbrev pub Unmet : Bool → List String → Tag → Type 0
Unmet loose supported lang = All (λ s. fits loose lang (map_supported s) ≡ false) supported

-- A language is picked: it is the first of the supported ones that fits, for the first of the accepted
-- ones that any fits.
abbrev pub IsPicked : Bool → List String → List Tag → String → Type 0
IsPicked loose supported langs s =
    (before : List Tag) × (lang : Tag) × (behind : List Tag) × (front : List String) × (back : List
      String)
    × (langs ≡ before ++ lang ∷ behind)
    × (supported ≡ front ++ s ∷ back)
    × All (Unmet loose supported) before
    × Unmet loose front lang
    × (fits loose lang (map_supported s) ≡ true)

pick_for_cases :
    (loose : Bool) (lang : Tag) (supported : List String)
    → ((pick_for loose lang supported ≡ none) × Unmet loose supported lang)
      ⊎ ((s : String) × (front : List String) × (back : List String) × (pick_for loose lang
              supported
            ≡ some s)
          × (supported ≡ front ++ s ∷ back)
          × Unmet loose front lang
          × (fits loose lang (map_supported s) ≡ true))
unfolding pick_for
pick_for_cases loose lang [] = inl (refl, tt)
pick_for_cases loose lang (s ∷ supported) = elim (Bool-cases (fits loose lang (map_supported s))) [
  | inl e ↦ inr (s, [], supported, rw (e, pick_for) refl, refl, tt, e)
  | inr e ↦ elim (pick_for_cases loose lang supported) [
    | inl (n, u) ↦ inl (rw (e, pick_for) n, (e, u))
    | inr (t, front, back, p, q, u, f) ↦
        inr (t, s ∷ front, back, rw (e, pick_for) p, ap (λ (l : List String). s ∷ l) q, (e, u), f)
  ]
]

-- `pick` answers null exactly where no accepted language has a supported one that fits; else it answers the
-- first supported language that fits, for the first accepted one that has such.
pub pick_lem :
    (loose : Bool) (supported : List String) (langs : List Tag)
    → ((pick loose supported langs ≡ none) × All (Unmet loose supported) langs)
      ⊎ ((s : String) × (pick loose supported langs ≡ some s) × IsPicked loose supported langs s)
unfolding pick
pick_lem loose supported [] = inl (refl, tt)
pick_lem loose supported (lang ∷ langs) = elim (pick_for_cases loose lang supported) [
  | inr (s, front, back, p, q, u, f) ↦
      inr (s, rw (p, pick) refl, ([], lang, langs, front, back, refl, q, tt, u, f))
  | inl (n, u) ↦ elim (pick_lem loose supported langs) [
    | inl (m, us) ↦ inl (rw (n, pick) m, (u, us))
    | inr (s, p, (before, l, behind, front, back, q, r, us, v, f)) ↦ inr (
      s,
      rw (n, pick) p,
      (lang ∷ before, l, behind, front, back, ap (λ (x : List Tag). lang ∷ x) q, r, (u, us), v, f),
    )
  ]
]
