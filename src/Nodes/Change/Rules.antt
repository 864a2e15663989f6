-- ===== src/Nodes/Change/Rules.antt =====
-- What the rules of a change node leave in the message.
use flowbroker.Prelude.{
  String, false, Option, some, List, [], ◌∷◌, ◌++◌, ◌≡◌, ◌≢◌, ◌⊎◌, inl, inr, refl, sym, ap, ◌∙◌,
  Option-cases, Bool-cases, none≢some, same_text, ==-ne, All, some-inj,
}
use flowbroker.Json.{Value, obj, Fields}
use flowbroker.Executor.{Handled, rejected}
use flowbroker.Nodes.Outcomes.{forwarded, forwarded-inj}
use flowbroker.Nodes.Base
use flowbroker.Nodes.Base.{got}
use flowbroker.Nodes.Base.Paths.{FirstKey, get-set, set-obj, set-FirstKey}
use flowbroker.Nodes.Change.{
  ChangeRule, value_of, change, shares, Changed, changed, refused, shared, changes, handle_message,
}

-- No rule writes below a key.
abbrev pub Spares : String → ChangeRule → Type 0
Spares key rule = rule.t ≡ "set" → (first : String) → FirstKey first rule.p → first ≢ key

-- A turn that goes on writes the rule's value, or leaves the message.
change_cases :
    (rule : ChangeRule) (fs : Fields) (m : Value)
    → change rule (obj fs) ≡ some m
    → ((v : Value) × (rule.t ≡ "set")
        × (value_of rule (obj fs) ≡ some v)
        × (Base.set rule.p v (obj fs) ≡ some m))
      ⊎ ((rule.t ≢ "set") × (m ≡ obj fs))
unfolding change
change_cases rule fs m h = elim (same_text rule.t "set") [
  | inl e ↦ elim (Option-cases (value_of rule (obj fs))) [
    | inl n ↦ absurd (none≢some (rw (n, e, change) at h))
    | inr (v, j) ↦ inl (v, e, j, rw (j, e, change) at h)
  ]
  | inr ne ↦ inr (ne, sym (some-inj (rw (==-ne rule.t "set" ne, change) at h)))
]

-- Behind a turn, the message is an object again, and what the rule spares reads as before.
change-Spares :
    (rule : ChangeRule) (fs : Fields) (m : Value)
    → change rule (obj fs) ≡ some m
    → (fs' : Fields) × (m ≡ obj fs')
      × ((key field : String)
          → Spares key rule
          → FirstKey key field
          → Base.get field m ≡ Base.get field (obj fs))
change-Spares rule fs m h = elim (change_cases rule fs m h) [
  | inl (v, t, j, e) ↦
      let (fs', o) = set-obj rule.p v fs m e in
      let (first, f) = set-FirstKey rule.p v (obj fs) m e in
      (fs', o, λ key field s k. (get-set rule.p v fs m e).1 first key field f k (s t first f))
  | inr (ne, e) ↦ (fs, e, λ key field s k. rw e refl)
]

refused≢changed : {m : Value} → refused ≢ changed m
refused≢changed h = cc

shared≢changed : {m : Value} → shared ≢ changed m
shared≢changed h = cc

-- The first turn of a loop that ends.
changes_step :
    (rule : ChangeRule) (rules : List ChangeRule) (message m' : Value)
    → changes (rule ∷ rules) message ≡ changed m'
    → (m : Value) × (change rule message ≡ some m) × (changes rules m ≡ changed m')
unfolding changes
changes_step rule [] message m' h = elim (Option-cases (change rule message)) [
  | inl n ↦ absurd (refused≢changed (rw (n, changes) at h))
  | inr (m, e) ↦ (m, e, rw (e, changes) at h)
]
changes_step rule (next ∷ rules) message m' h = elim (Option-cases (change rule message)) [
  | inl n ↦ absurd (refused≢changed (rw (n, changes) at h))
  | inr (m, e) ↦ elim (Bool-cases (shares rule message)) [
    | inl s ↦ absurd (shared≢changed (rw (e, s, changes) at h))
    | inr s ↦ (m, e, rw (e, s, changes) at h)
  ]
]

-- A turn that is not the last one shares nothing.
changes_unshared :
    (rule next : ChangeRule) (rules : List ChangeRule) (message m' : Value)
    → changes (rule ∷ next ∷ rules) message ≡ changed m'
    → shares rule message ≡ false
unfolding changes
changes_unshared rule next rules message m' h = elim (Bool-cases (shares rule message)) [
  | inr s ↦ s
  | inl s ↦ elim (Option-cases (change rule message)) [
    | inl n ↦ absurd (refused≢changed (rw (n, changes) at h))
    | inr (m, e) ↦ absurd (shared≢changed (rw (e, s, changes) at h))
  ]
]

changes_goes_on :
    (rule next : ChangeRule) (rules : List ChangeRule) (message m : Value)
    → change rule message ≡ some m
    → shares rule message ≡ false
    → changes (rule ∷ next ∷ rules) message ≡ changes (next ∷ rules) m
unfolding changes
changes_goes_on rule next rules message m c s = rw (c, s, changes) refl

changes-Spares :
    (rules : List ChangeRule) (fs : Fields) (m' : Value)
    → changes rules (obj fs) ≡ changed m'
    → (fs' : Fields) × (m' ≡ obj fs')
      × ((key field : String)
          → All (Spares key) rules
          → FirstKey key field
          → Base.get field m' ≡ Base.get field (obj fs))
unfolding changes
changes-Spares [] fs m' h = (fs, cc, λ key field a k. cc)
changes-Spares (rule ∷ rules) fs m' h =
    let (m, c, r) = changes_step rule rules (obj fs) m' h in
    let (fs1, o, one) = change-Spares rule fs m c in
    let (fs2, o', all) = changes-Spares rules fs1 m' (rw o at r) in
    (fs2, o', λ key field a k. all key field a.1 k ∙ rw (← o) (one key field a.0 k))

-- The loop up to a rule, and from it on.
changes_split :
    (rs : List ChangeRule) (rule : ChangeRule) (us : List ChangeRule) (fs : Fields) (m' : Value)
    → changes (rs ++ rule ∷ us) (obj fs) ≡ changed m'
    → (mid : Fields) × (changes rs (obj fs) ≡ changed (obj mid))
      × (changes (rule ∷ us) (obj mid) ≡ changed m')
unfolding changes
changes_split [] rule us fs m' h = (fs, refl, h)
changes_split (r ∷ []) rule us fs m' h =
    let (m, c, rest) = changes_step r (rule ∷ us) (obj fs) m' h in
    let (fs1, o, keeps) = change-Spares r fs m c in
    (fs1, rw (c, changes) (ap changed o), rw o at rest)
changes_split (r ∷ q ∷ rs) rule us fs m' h =
    let (m, c, rest) = changes_step r (q ∷ rs ++ rule ∷ us) (obj fs) m' h in
    let (fs1, o, keeps) = change-Spares r fs m c in
    let (mid, first, last) = changes_split (q ∷ rs) rule us fs1 m' (rw o at rest) in
    (
      mid,
      changes_goes_on r q rs (obj fs) m c (changes_unshared r q (rs ++ rule ∷ us) (obj fs) m' h)
          ∙ (rw o first),
      last,
    )

Changed-cases : (c : Changed) → ((m : Value) × (c ≡ changed m)) ⊎ ((c ≡ refused) ⊎ (c ≡ shared))
Changed-cases (changed m) = inl (m, refl)
Changed-cases refused = inr (inl refl)
Changed-cases shared = inr (inr refl)

rejected≢forwarded :
    {m : Value} → ◌≢◌ {A = Option (Handled Value)} (some rejected) (some (forwarded m))
rejected≢forwarded h = cc

handle_message_changed :
    (rules : List ChangeRule) (message m' : Value)
    → handle_message rules message ≡ some (forwarded m')
    → changes rules message ≡ changed m'
unfolding handle_message
handle_message_changed rules message m' h = elim (Changed-cases (changes rules message)) [
  | inl (m, e) ↦ rw e (ap changed (forwarded-inj (rw (e, handle_message) at h)))
  | inr (inl e) ↦ absurd (rejected≢forwarded (rw (e, handle_message) at h))
  | inr (inr e) ↦ absurd (none≢some (rw (e, handle_message) at h))
]

-- A change node that forwards an object that it changed, and one of its `set` rules, behind which no rule
-- writes below the same first key: the field of the rule reads as the value that the rule has on the
-- message as the rules in front leave it. And a field reads as in the message that came in, if no rule
-- writes below its first key.
pub handle_message-value_of :
    (rs : List ChangeRule) (rule : ChangeRule) (us : List ChangeRule) (fs : Fields) (m' : Value)
    (key : String)
    → handle_message (rs ++ rule ∷ us) (obj fs) ≡ some (forwarded m')
    → rule.t ≡ "set"
    → FirstKey key rule.p
    → All (Spares key) us
    → ((mid : Fields) × (v : Value) × (changes rs (obj fs) ≡ changed (obj mid))
        × (value_of rule (obj mid) ≡ some v)
        × (Base.get rule.p m' ≡ got v))
      × ((other field : String)
          → All (Spares other) (rs ++ rule ∷ us)
          → FirstKey other field
          → Base.get field m' ≡ Base.get field (obj fs))
handle_message-value_of rs rule us fs m' key h t k spared =
    let done = handle_message_changed (rs ++ rule ∷ us) (obj fs) m' h in
    let (mid, first, last) = changes_split rs rule us fs m' done in
    let (m, c, rest) = changes_step rule us (obj mid) m' last in
    let (fs1, o, keeps) = change-Spares rule mid m c in
    let after = changes-Spares us fs1 m' (rw o at rest) in
    (
      elim (change_cases rule mid m c) [
        | inr (ne, e) ↦ absurd (ne t)
        | inl (v, e, val, write) ↦ (
          mid,
          v,
          first,
          val,
          after.2 key rule.p spared k ∙ rw (← o) ((get-set rule.p v mid m write).0),
        )
      ],
      (changes-Spares (rs ++ rule ∷ us) fs m' done).2,
    )
