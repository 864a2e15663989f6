-- ===== src/Nodes/Publish/Targets.antt =====
-- Which devices the nodes publish to.
use flowbroker.Prelude.{
  String, ◌≡◌, refl, sym, ap, ◌∙◌, subst, ◌≢◌, ◌⊎◌, inl, inr, true, false, none, some, List, [],
  ◌∷◌, ◌++◌, map, In, In-append, In-append_left, In-append_right, Bool-cases, Option-cases,
  none≢some,
}
use flowbroker.Json.{Value}
use flowbroker.Nodes.Base
use flowbroker.Nodes.Base.{got}
use flowbroker.Nodes.Publish.{
  OutConfig, OutMetadata, OutEvent, device_event, configure_event, no_attrs, unreadable, no_targets,
  OutResult, done, refused, filled, readable, get_devices_ids, same_value, is_in, add_value, set_of,
  publish_to_all, multi_device_out, multi_actuate,
}
use flowbroker.Nodes.Publish.Named.{
  IsTarget, readable_from, get_devices_ids-IsTarget, In-get_devices_ids,
}

-- No two ids are one: none is the same value as one in front of it.
abbrev pub Differ : List Value → Type 0
Differ [] = Unit
Differ (v ∷ vs) = ((w : Value) → In w vs → same_value w v ≡ false) × Differ vs

-- An id is in a list, or the same value is.
abbrev pub Served : Value → List Value → Type 0
Served d ids = (w : Value) × In w ids × ((w ≡ d) ⊎ (same_value d w ≡ true))

Served-is_in : (v : Value) (seen : List Value) → is_in v seen ≡ true → Served v seen
unfolding is_in
Served-is_in v [] h = cc
Served-is_in v (w ∷ ws) h = elim (Bool-cases (same_value v w)) [
  | inl e ↦ (w, inl refl, inr e)
  | inr e ↦ let (u, i, same) = Served-is_in v ws (rw (e, is_in) at h) in (u, inr i, same)
]

In-add_value : (v w : Value) (seen : List Value) → In w seen → In w (add_value v seen)
In-add_value v w seen i = elim (Bool-cases (is_in v seen)) [
  | inl e ↦ rw (e, add_value) i
  | inr e ↦ rw (e, add_value) (In-append_left w seen (v ∷ []) i)
]

Served-add_value : (v : Value) (seen : List Value) → Served v (add_value v seen)
Served-add_value v seen = elim (Bool-cases (is_in v seen)) [
  | inl e ↦ rw (e, add_value) (Served-is_in v seen e)
  | inr e ↦ rw (e, add_value) (v, In-append_right v seen (v ∷ []) (inl refl), inl refl)
]

add_value_from : (v w : Value) (seen : List Value) → In w (add_value v seen) → (w ≡ v) ⊎ In w seen
add_value_from v w seen i = elim (Bool-cases (is_in v seen)) [
  | inl e ↦ inr (rw (e, add_value) at i)
  | inr e ↦ elim (In-append w seen (v ∷ []) (rw (e, add_value) at i)) [
    | inl old ↦ inr old
    | inr (inl new) ↦ inl new
    | inr (inr nothing) ↦ absurd nothing
  ]
]

Differ-snoc :
    (v : Value) (seen : List Value) → is_in v seen ≡ false → Differ seen → Differ (seen ++ v ∷ [])
unfolding is_in
Differ-snoc v [] h d = (λ w i. absurd i, tt)
Differ-snoc v (u ∷ us) h (new, d) = elim (Bool-cases (same_value v u)) [
  | inl e ↦ absurd (let f : true ≡ false = rw (e, is_in) at h in cc)
  | inr e ↦ (
    λ w i. elim (In-append w us (v ∷ []) i) [
      | inl old ↦ new w old
      | inr (inl same) ↦ rw same e
      | inr (inr nothing) ↦ absurd nothing
    ],
    Differ-snoc v us (rw (e, is_in) at h) d,
  )
]

Differ-add_value : (v : Value) (seen : List Value) → Differ seen → Differ (add_value v seen)
Differ-add_value v seen d = elim (Bool-cases (is_in v seen)) [
  | inl e ↦ rw (e, add_value) d
  | inr e ↦ rw (e, add_value) (Differ-snoc v seen e d)
]

In-set_of : (w : Value) (seen vs : List Value) → In w seen → In w (set_of seen vs)
unfolding set_of
In-set_of w seen [] i = i
In-set_of w seen (v ∷ vs) i = In-set_of w (add_value v seen) vs (In-add_value v w seen i)

Differ-set_of : (seen vs : List Value) → Differ seen → Differ (set_of seen vs)
unfolding set_of
Differ-set_of seen [] d = d
Differ-set_of seen (v ∷ vs) d = Differ-set_of (add_value v seen) vs (Differ-add_value v seen d)

set_of_from : (w : Value) (seen vs : List Value) → In w (set_of seen vs) → In w seen ⊎ In w vs
unfolding set_of
set_of_from w seen [] i = inl i
set_of_from w seen (v ∷ vs) i = elim (set_of_from w (add_value v seen) vs i) [
  | inr later ↦ inr (inr later)
  | inl before ↦ elim (add_value_from v w seen before) [
    | inl same ↦ inr (inl same)
    | inr old ↦ inl old
  ]
]

Served-set_of : (d : Value) (seen vs : List Value) → In d vs → Served d (set_of seen vs)
unfolding set_of
Served-set_of d seen [] i = absurd i
Served-set_of d seen (v ∷ vs) (inr i) = Served-set_of d (add_value v seen) vs i
Served-set_of d seen (v ∷ vs) (inl same) =
    let (w, i, e) = Served-add_value v seen in (w, In-set_of w (add_value v seen) vs i, rw same e)

-- The events: one for each of some ids, with one value. There is an id; the ids differ, are targets,
-- and serve all targets.
pub record SentOnce (event : Value → Value → OutEvent) (IsOne : Value → Type 0) (value : Value)
    (events : List OutEvent) : Type 0 where
  pub ids : List Value
  pub sent : events ≡ map (λ device. event device value) ids
  pub some_id : (d : Value) × In d ids
  pub differ : Differ ids
  pub are_targets : (d : Value) → In d ids → IsOne d
  pub all_served : (d : Value) → IsOne d → Served d ids

-- What a node answers: it publishes; or it is refused since its attributes are not configured, since
-- the message has nothing at their path, or since it has no target.
abbrev pub IsAnswer :
    (Value → Value → OutEvent) → OutConfig → OutMetadata → Value → OutResult → Type 0
IsAnswer event config metadata message (done events) =
    (field : String) × (value : Value) × (filled config.attrs ≡ some field)
    × (Base.get field message ≡ got value)
    × SentOnce event (IsTarget config metadata message) value events
IsAnswer event config metadata message (refused no_attrs) = filled config.attrs ≡ none
IsAnswer event config metadata message (refused unreadable) =
    (field : String) × (filled config.attrs ≡ some field)
    × ((value : Value) → Base.get field message ≢ got value)
IsAnswer event config metadata message (refused no_targets) =
    (d : Value) → ¬ IsTarget config metadata message d
IsAnswer event config metadata message (refused _) = ⊥

ids-cases : (ids : List Value) → (ids ≡ []) ⊎ ((v : Value) × (rest : List Value) × (ids ≡ v ∷ rest))
ids-cases [] = inl refl
ids-cases (v ∷ rest) = inr (v, rest, refl)

set_of-SentOnce :
    (event : Value → Value → OutEvent) (IsOne : Value → Type 0) (value id : Value)
    (ids : List Value)
    → ((d : Value) → In d (id ∷ ids) → IsOne d)
    → ((d : Value) → IsOne d → In d (id ∷ ids))
    → SentOnce event IsOne value (map (λ device. event device value) (set_of [] (id ∷ ids)))
set_of-SentOnce event IsOne value id ids sound complete = record {
  ids = set_of [] (id ∷ ids);
  sent = refl;
  some_id = let (w, i, e) = Served-set_of id [] (id ∷ ids) (inl refl) in (w, i);
  differ = Differ-set_of [] (id ∷ ids) tt;
  are_targets = λ d i. elim (set_of_from d [] (id ∷ ids) i) [
    | inl nothing ↦ absurd nothing
    | inr j ↦ sound d j
  ];
  all_served = λ d t. Served-set_of d [] (id ∷ ids) (complete d t);
}

publish_to_all-IsAnswer :
    (event : Value → Value → OutEvent) (config : OutConfig) (metadata : OutMetadata)
    (message : Value)
    → IsAnswer event config metadata message (publish_to_all event config metadata message)
unfolding publish_to_all
publish_to_all-IsAnswer event config metadata message =
    let sound = get_devices_ids-IsTarget config metadata message in
    let complete = In-get_devices_ids config metadata message in
    elim (Option-cases (filled config.attrs)) [
      | inl no_field ↦ rw (no_field, publish_to_all) no_field
      | inr (field, f) ↦ elim (Option-cases (readable (Base.get field message))) [
        | inl no_value ↦
            rw (f, no_value, publish_to_all)
              (field, f, λ value g. none≢some (sym no_value ∙ ap readable g))
        | inr (value, g) ↦ elim (ids-cases (get_devices_ids config metadata message)) [
          | inl no_ids ↦
              rw (f, g, no_ids, publish_to_all) (λ d t. absurd (rw no_ids at (complete d t)))
          | inr (id, ids, t) ↦
              rw (f, g, t, publish_to_all)
                (
                  field,
                  value,
                  f,
                  readable_from _ value g,
                  set_of-SentOnce event (IsTarget config metadata message) value id ids
                      (λ d i. sound d (subst (λ l. In d l) (sym t) i))
                      (λ d o. rw t at (complete d o)),
                )
        ]
      ]
    ]

-- A multi-device-out and a multi-actuate node are refused, with the error of the reason: no attributes
-- are configured, the message has nothing at their path, or no device is a target. Or they publish,
-- with the attributes that the message has, one event for each of one or more devices: each of them a
-- target, no two of one id, and each target is served. The targets are what the configured source
-- names: the listed devices, the device that the event came from, or what the message has at a path.
pub multi_out-IsAnswer :
    (config : OutConfig) (metadata : OutMetadata) (message : Value)
    → IsAnswer
        (device_event metadata.tenant)
        config
        metadata
        message
        (multi_device_out config metadata message)
      × IsAnswer
          (configure_event metadata.tenant)
          config
          metadata
          message
          (multi_actuate config metadata message)
unfolding multi_device_out multi_actuate
multi_out-IsAnswer config metadata message = (
  publish_to_all-IsAnswer (device_event metadata.tenant) config metadata message,
  publish_to_all-IsAnswer (configure_event metadata.tenant) config metadata message,
)
