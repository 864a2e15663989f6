-- ===== src/Nodes/Switch/Routes.antt =====
-- Which outputs of a switch node get the message.
use flowbroker.Prelude.{
  if◌then◌else◌, ◌≡◌, refl, ◌⊎◌, inl, inr, Bool, true, false, ◌&&◌, Option, none, some, List, [],
  ◌∷◌, ◌==◌, not, String, sym, ◌∙◌, some-inj, Option-cases,
}
use flowbroker.Prelude.Int.{ℤ, ltb_ℤ, eq_ℤ}
use flowbroker.Json.{Value, boolean, num}
use flowbroker.Nodes.Publish.{same_value}
use flowbroker.Nodes.Switch.{
  Js, js, Engines, Rule, SwitchConfig, test_rule, next_flag, after_rule, run_rules, handle_message,
  get_typed, read, retrieve_rule_value, operate, less_than, at_most, strictly_equal, number_of_js,
  text_of_js,
}

-- Has no rule fired since the last `else`, itself included? The rules behind come first.
unfoldable pub quiet : List (Rule × Bool) → Bool
quiet [] = true
quiet ((rule, hit) ∷ before) =
    let earlier = quiet before in if hit then false else if rule.t == "else" then true else earlier

-- Behind an output: nothing, where the node stops at it.
abbrev pub Ends : Bool → List Bool → Type 0 → Type 0
Ends true hits Goes = hits ≡ []
Ends false hits Goes = Goes

-- What a rule's test is worth: an `else` fires if the flag is set; a comparison of whole numbers by
-- their order; and the tests of one value by that value.
abbrev pub Ordered : String → ℤ → ℤ → Bool → Type 0
Ordered t m n hit =
    (t ≡ "lt" → hit ≡ ltb_ℤ m n)
    × (t ≡ "lte" → hit ≡ not (ltb_ℤ n m))
    × (t ≡ "gt" → hit ≡ ltb_ℤ n m)
    × (t ≡ "gte" → hit ≡ not (ltb_ℤ m n))
    × (t ≡ "eq" → hit ≡ eq_ℤ m n)
    × (t ≡ "neq" → hit ≡ not (eq_ℤ m n))

abbrev pub Means : Rule → Bool → Js → Js → Js → Bool → Type 0
Means rule flag a b c hit =
    (rule.t ≡ "else" → hit ≡ flag)
    × ((m n : ℤ) → a ≡ js (num m) → b ≡ js (num n) → Ordered rule.t m n hit)
    × ((k m n : ℤ)
        → a ≡ js (num k)
        → b ≡ js (num m)
        → c ≡ js (num n)
        → rule.t ≡ "btwn"
        → hit ≡ (not (ltb_ℤ k m) && not (ltb_ℤ n k)))
    × ((v : Bool)
        → a ≡ js (boolean v)
        → (rule.t ≡ "true" → hit ≡ v) × (rule.t ≡ "false" → hit ≡ not v))

-- Each output is that of its rule's test, where an `else` reads whether the rules since the last one
-- were quiet. There is an output for each rule, or, unless all are checked, for the rules up to the
-- first that fires.
abbrev pub Routed :
    Engines → SwitchConfig → Value → Js → List (Rule × Bool) → List Rule → List Bool → Type 0
Routed engines config message prop before [] [] = Unit
Routed engines config message prop before [] (hit ∷ hits) = ⊥
Routed engines config message prop before (rule ∷ rules) [] = ⊥
Routed engines config message prop before (rule ∷ rules) (hit ∷ hits) =
    (test_rule engines config message prop (quiet before) rule ≡ some hit)
    × Means rule (quiet before) prop (retrieve_rule_value engines config message rule.v rule.vt)
        (retrieve_rule_value engines config message rule.v2 rule.v2t) hit
    × Ends (hit && config.checkall == "false") hits
        (Routed engines config message prop ((rule, hit) ∷ before) rules hits)

-- The rules up to one are tested, and the test of that one throws.
abbrev pub Throws : Engines → SwitchConfig → Value → Js → List (Rule × Bool) → List Rule → Type 0
Throws engines config message prop before [] = ⊥
Throws engines config message prop before (rule ∷ rules) =
    (test_rule engines config message prop (quiet before) rule ≡ none)
    ⊎ ((hit : Bool) × (test_rule engines config message prop (quiet before) rule ≡ some hit)
        × ((hit && config.checkall == "false") ≡ false)
        × Throws engines config message prop ((rule, hit) ∷ before) rules)

abbrev pub IsRun :
    Engines
    → SwitchConfig
    → Value
    → Js
    → List (Rule × Bool)
    → List Rule
    → Option (List Bool)
    → Type 0
IsRun engines config message prop before rules none =
    Throws engines config message prop before rules
IsRun engines config message prop before rules (some outs) =
    Routed engines config message prop before rules outs

abbrev pub IsSwitched : Engines → SwitchConfig → Value → Option (List Bool) → Type 0
IsSwitched engines config message outs =
    ((read engines config.property message ≡ none) × (outs ≡ none))
    ⊎ ((value : Js) × (read engines config.property message ≡ some value)
        × IsRun engines config message (get_typed engines value config.property_type) []
            config.rules outs)

module _ (engines : Engines) (config : SwitchConfig) (message : Value) (prop : Js) where
  abbrev value_1 : Rule → Js
  value_1 rule = retrieve_rule_value engines config message rule.v rule.vt

  abbrev value_2 : Rule → Js
  value_2 rule = retrieve_rule_value engines config message rule.v2 rule.v2t

  ordered :
      (flag : Bool) (rule : Rule) (m n : ℤ) (hit : Bool)
      → test_rule engines config message prop flag rule ≡ some hit
      → prop ≡ js (num m)
      → value_1 rule ≡ js (num n)
      → Ordered rule.t m n hit
  unfolding test_rule operate less_than at_most strictly_equal same_value number_of_js text_of_js
  ordered flag rule m n hit h a b = (
    λ e. some-inj (sym h ∙ rw (e, a, b, test_rule) refl),
    λ e. some-inj (sym h ∙ rw (e, a, b, test_rule) refl),
    λ e. some-inj (sym h ∙ rw (e, a, b, test_rule) refl),
    λ e. some-inj (sym h ∙ rw (e, a, b, test_rule) refl),
    λ e. some-inj (sym h ∙ rw (e, a, b, test_rule) refl),
    λ e. some-inj (sym h ∙ rw (e, a, b, test_rule) refl),
  )

  else_fires :
      (flag : Bool) (rule : Rule)
      → rule.t ≡ "else"
      → test_rule engines config message prop flag rule ≡ some flag
  unfolding test_rule operate strictly_equal same_value
  else_fires true rule e = rw (e, test_rule) refl
  else_fires false rule e = rw (e, test_rule) refl

  boolean_fires :
      (flag v : Bool) (rule : Rule)
      → prop ≡ js (boolean v)
      → (rule.t ≡ "true" → test_rule engines config message prop flag rule ≡ some v)
        × (rule.t ≡ "false" → test_rule engines config message prop flag rule ≡ some (not v))
  unfolding test_rule operate strictly_equal same_value
  boolean_fires flag true rule a = (λ e. rw (e, a, test_rule) refl, λ e. rw (e, a, test_rule) refl)
  boolean_fires flag false rule a = (λ e. rw (e, a, test_rule) refl, λ e. rw (e, a, test_rule) refl)

  test_rule-Means :
      (flag : Bool) (rule : Rule) (hit : Bool)
      → test_rule engines config message prop flag rule ≡ some hit
      → Means rule flag prop (value_1 rule) (value_2 rule) hit
  unfolding test_rule operate at_most number_of_js text_of_js
  test_rule-Means flag rule hit h = (
    λ e. some-inj (sym h ∙ else_fires flag rule e),
    λ m n a b. ordered flag rule m n hit h a b,
    λ k m n a b c e. some-inj (sym h ∙ rw (e, a, b, c, test_rule) refl),
    λ v a.
        let (when_true, when_false) = boolean_fires flag v rule a in
        (λ e. some-inj (sym h ∙ when_true e), λ e. some-inj (sym h ∙ when_false e)),
  )

  after_rule-IsRun :
      (before : List (Rule × Bool)) (rule : Rule) (rules : List Rule) (hit first : Bool)
      (rest : Option (List Bool))
      → config.checkall == "false" ≡ first
      → test_rule engines config message prop (quiet before) rule ≡ some hit
      → IsRun engines config message prop ((rule, hit) ∷ before) rules rest
      → IsRun engines config message prop before (rule ∷ rules) (after_rule hit first rest)
  unfolding after_rule
  after_rule-IsRun before rule rules true true rest e tested h =
      (tested, test_rule-Means (quiet before) rule true tested, rw e refl)
  after_rule-IsRun before rule rules true false none e tested h = inr (true, tested, rw e refl, h)
  after_rule-IsRun before rule rules true false (some outs) e tested h =
      (tested, test_rule-Means (quiet before) rule true tested, rw e h)
  after_rule-IsRun before rule rules false first none e tested h = inr (false, tested, refl, h)
  after_rule-IsRun before rule rules false first (some outs) e tested h =
      (tested, test_rule-Means (quiet before) rule false tested, h)

  run_rules-IsRun :
      (before : List (Rule × Bool)) (rules : List Rule)
      → IsRun engines config message prop before rules
          (run_rules engines config message prop (quiet before) rules)
  unfolding run_rules quiet
  run_rules-IsRun before [] = tt
  run_rules-IsRun before (rule ∷ rules) =
      elim (Option-cases (test_rule engines config message prop (quiet before) rule)) [
        | inl throws ↦ rw (throws, run_rules) (inl throws)
        | inr (hit, tested) ↦
            rw (tested, run_rules)
              (after_rule-IsRun before rule rules hit (config.checkall == "false")
                (run_rules engines config message prop (next_flag rule (quiet before) hit) rules)
                refl tested (run_rules-IsRun ((rule, hit) ∷ before) rules))
      ]

-- A switch node, in each case: the read of its property throws, and so does the node; or the test of one
-- of its rules throws, behind those of the rules in front, of which none ends the loop, and so does the
-- node; or the outputs are those of the rules' tests, up to the first that fires where not all are
-- checked. There an `else` fires exactly if no rule since the last `else` did, the comparisons of whole
-- numbers (lt, lte, gt, gte, eq, neq, btwn) by their order, and true and false by a boolean property.
pub handle_message-IsSwitched :
    (engines : Engines) (config : SwitchConfig) (message : Value)
    → IsSwitched engines config message (handle_message engines config message).0
unfolding handle_message
handle_message-IsSwitched engines config message =
    elim (Option-cases (read engines config.property message)) [
      | inl throws ↦ rw (throws, handle_message) (inl (refl, refl))
      | inr (value, e) ↦
          let prop = get_typed engines value config.property_type in
          let routed : IsRun engines config message prop [] config.rules
              (run_rules engines config message prop true config.rules) =
            unfold quiet in run_rules-IsRun engines config message prop [] config.rules in
          elim (Option-cases (run_rules engines config message prop true config.rules)) [
            | inl throws ↦ rw (e, throws, handle_message) (inr (value, refl, rw throws at routed))
            | inr (outs, done) ↦ rw (e, done, handle_message) (inr (value, refl, rw done at routed))
          ]
    ]
