-- ===== src/Flow/Ingest/Asked.antt =====
-- What orchestrator/ingestor.js's `_handleFlow` makes a head send, and the queue that util.js's
-- calculateQueue gives a device, described without their code.
use flowbroker.Prelude.{
  ℕ, ◌%◌, String, ◌≡◌, refl, sym, ap, ◌∙◌, subst, ◌⊎◌, inl, inr, Bool, true, false, ◌&&◌, ◌||◌,
  Option, none, some, List, [], ◌∷◌, ◌==◌, if◌then◌else◌, eq_iff, In, arith, Bool-cases,
  Option-cases, some-inj, none≢some,
}
use flowbroker.Prelude.Letters.{includes}
use flowbroker.Flow.Nodes.{Node}
use flowbroker.Flow.Ingest.{
  Payload, attrs, whole_event, Event, calculate_queue, parse_int_16, field_is, includes_field,
  head_payload,
}

-- What a head asks for by its type: a "device in" and a "device template in" the attributes of what is
-- published; an "event device in" and an "event template in" the whole event, for their device or
-- template, if the event is one of theirs.
abbrev pub Asks : Node → Event → Payload → Type 0
Asks node ev attrs =
    ((node.kind ≡ some "device in") ⊎ (node.kind ≡ some "device template in"))
    × (ev.source ≡ "publish")
Asks node ev whole_event =
    (((node.kind ≡ some "event device in") × (node.device_id ≡ some ev.device))
      ⊎ ((node.kind ≡ some "event template in")
          × (template : String) × (node.template_id ≡ some template)
          × In template ev.templates))
    × In ev.source node.events

-- The queue of a device: the first one if its id is no hexadecimal number, or the id's remainder.
abbrev pub IsQueueOf : String → ℕ → ℕ → Type 0
IsQueueOf device task_queues queue =
    ((parse_int_16 device ≡ none) × (queue ≡ 0))
    ⊎ ((v : ℕ) × (parse_int_16 device ≡ some v) × (queue ≡ v % task_queues))

pub calculate_queue-IsQueueOf :
    (device : String) (task_queues : ℕ)
    → IsQueueOf device task_queues (calculate_queue device task_queues)
unfolding calculate_queue
calculate_queue-IsQueueOf device n = elim (Option-cases (parse_int_16 device)) [
  | inl e ↦ inl (e, rw (e, calculate_queue) refl)
  | inr (v, e) ↦ inr (v, e, rw (e, calculate_queue) refl)
]

includes-In : (s : String) (xs : List String) → includes s xs ≡ true → In s xs
unfolding includes
includes-In s [] h = cc
includes-In s (x ∷ xs) h = ground (arith, includes-In s xs, eq_iff x s)

In-includes : (s : String) (xs : List String) → In s xs → includes s xs ≡ true
unfolding includes
In-includes s [] i = absurd i
In-includes s (x ∷ xs) (inl e) = ground (arith, eq_iff s x, eq_iff x s)
In-includes s (x ∷ xs) (inr i) = ground (arith, In-includes s xs i)

field_is-eq :
    (field : Option String) (s : String)
    → (field_is field s ≡ true → field ≡ some s) × (field ≡ some s → field_is field s ≡ true)
unfolding field_is
field_is-eq none s = (λ h. cc, λ h. cc)
field_is-eq (some t) s = (λ h. ap some ((eq_iff t s).0 h), λ h. (eq_iff t s).1 (some-inj h))

includes_field-In :
    (field : Option String) (ts : List String)
    → includes_field field ts ≡ true
    → (t : String) × (field ≡ some t) × In t ts
unfolding includes_field
includes_field-In none ts h = cc
includes_field-In (some t) ts h = (t, refl, includes-In t ts h)

In-includes_field : (t : String) (ts : List String) → In t ts → includes_field (some t) ts ≡ true
unfolding includes_field
In-includes_field t ts i = In-includes t ts i

module _ (node : Node) (ev : Event) where
  device_kind :
      (kind : String)
      → node.kind ≡ some kind
      → (kind == "device in" || kind == "device template in") ≡ true
      → (node.kind ≡ some "device in") ⊎ (node.kind ≡ some "device template in")
  device_kind kind k d = elim (Bool-cases (kind == "device in")) [
    | inl e ↦ inl (k ∙ ap some ((eq_iff _ _).0 e))
    | inr e ↦ inr (k ∙ ap some ((eq_iff _ _).0 (rw e at d)))
  ]

  wanted_event :
      (a : Bool) (payload : Payload)
      → (if a && includes ev.source node.events then some whole_event else none) ≡ some payload
      → (a ≡ true) × In ev.source node.events × (payload ≡ whole_event)
  wanted_event true payload h = elim (Bool-cases (includes ev.source node.events)) [
    | inl e ↦ (refl, includes-In ev.source node.events e, sym (some-inj (rw e at h)))
    | inr e ↦ absurd (none≢some (rw e at h))
  ]
  wanted_event false payload h = absurd (none≢some h)

  kind-Asks :
      (kind : String) (payload : Payload)
      → node.kind ≡ some kind
      → head_payload node ev ≡ some payload
      → Asks node ev payload
  unfolding head_payload
  kind-Asks kind payload k h =
      elim (Bool-cases (kind == "device in" || kind == "device template in")) [
        | inl d ↦ elim (Bool-cases (ev.source == "publish")) [
          | inl p ↦
              let e : attrs ≡ payload = some-inj (rw (k, d, p, head_payload) at h) in
              subst (Asks node ev) e (device_kind kind k d, (eq_iff _ _).0 p)
          | inr p ↦ absurd (none≢some (rw (k, d, p, head_payload) at h))
        ]
        | inr d ↦ elim (Bool-cases (kind == "event device in")) [
          | inl v ↦
              let (same, i, e) =
                wanted_event (field_is node.device_id ev.device) payload
                  (rw (k, d, v, head_payload) at h) in
              subst (Asks node ev) (sym e)
                (inl (k ∙ ap some ((eq_iff _ _).0 v), (field_is-eq _ _).0 same), i)
          | inr v ↦ elim (Bool-cases (kind == "event template in")) [
            | inl w ↦
                let (same, i, e) =
                  wanted_event (includes_field node.template_id ev.templates) payload
                    (rw (k, d, v, w, head_payload) at h) in
                let (t, f, j) = includes_field-In node.template_id ev.templates same in
                subst (Asks node ev) (sym e) (inr (k ∙ ap some ((eq_iff _ _).0 w), t, f, j), i)
            | inr w ↦ absurd (none≢some (rw (k, d, v, w, head_payload) at h))
          ]
        ]
      ]

  pub head_payload-Asks :
      (payload : Payload) → head_payload node ev ≡ some payload → Asks node ev payload
  unfolding head_payload
  head_payload-Asks payload h = elim (Option-cases node.kind) [
    | inl e ↦ absurd (none≢some (rw (e, head_payload) at h))
    | inr (kind, e) ↦ kind-Asks kind payload e h
  ]

  pub Asks-head_payload :
      (payload : Payload) → Asks node ev payload → head_payload node ev ≡ some payload
  unfolding head_payload
  Asks-head_payload attrs (inl k, p) = rw (k, p, head_payload) refl
  Asks-head_payload attrs (inr k, p) = rw (k, p, head_payload) refl
  Asks-head_payload whole_event (inl (k, d), i) =
      rw
        (
          k,
          d,
          In-includes ev.source node.events i,
          (field_is-eq (some ev.device) ev.device).1 refl,
          head_payload,
        )
        refl
  Asks-head_payload whole_event (inr (k, t, f, j), i) =
      rw
        (
          k,
          f,
          In-includes ev.source node.events i,
          In-includes_field t ev.templates j,
          head_payload,
        )
        refl
