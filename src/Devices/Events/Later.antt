-- ===== src/Devices/Events/Later.antt =====
-- The events of orchestrator/ingestor.js that leave a device's entry in the cache as it is.
use flowbroker.Prelude.{
  String, ◌≡◌, refl, sym, ◌∙◌, ◌≢◌, ◌⊎◌, inl, inr, Bool, true, false, ◌||◌, Option, none, some,
  List, [], ◌∷◌, ◌==◌, Bool-cases, Option-cases, eq_iff, ==-ne,
}
use flowbroker.Devices.Cache.{
  DeviceInfo, KeyValue, cache_key, RequestAnswers, InfoAnswers, write_device_info, add_device,
  delete_device, request_device_info, get_device_info,
}
use flowbroker.Devices.Cache.Laws.{get_device_info-hit}
use flowbroker.Devices.Events.{
  ManagerMessage, DeviceMessage, EventAnswers, device_saved, device_removed, device_configured,
  pre_process_device_manager_event, pre_process_device_event, pre_process_event, QueuedEvent,
  no_json, unsupported, from_device, from_device_manager,
}

-- Does an event of the device manager bear the device's definition?
abbrev pub is_definition : ManagerMessage → Bool
is_definition m = m.event == "create" || m.event == "update"

-- Is it there that the device is removed?
abbrev pub is_removal : ManagerMessage → Bool
is_removal m = m.event == "remove"

-- The cache can be read for the event.
abbrev pub Reads : EventAnswers → Type 0
Reads a = (a.info.ready ≡ true) × (a.info.read ≡ true)

-- The event is about another device, by its key in the cache; or the cache can be read for it, and it
-- neither updates nor removes the device.
abbrev pub IsHarmless : String → QueuedEvent → EventAnswers → Type 0
IsHarmless key no_json a = Unit
IsHarmless key unsupported a = Unit
IsHarmless key (from_device_manager none) a = Unit
IsHarmless key (from_device_manager (some m)) a =
    (cache_key m.tenant m.device.id ≢ key)
    ⊎ ((is_definition m ≡ false) × (is_removal m ≡ false) × Reads a)
IsHarmless key (from_device none) a = Unit
IsHarmless key (from_device (some p)) a = (cache_key p.tenant p.id ≢ key) ⊎ Reads a

abbrev pub AllHarmless : String → List (QueuedEvent × EventAnswers) → Type 0
AllHarmless key [] = Unit
AllHarmless key ((e, a) ∷ events) = IsHarmless key e a × AllHarmless key events

module _ {S : Type 0} (redis : KeyValue S) where
  -- What the cache has behind some events, one after the other, each with its answers.
  unfoldable pub behind : List (QueuedEvent × EventAnswers) → S → S
  behind [] s = s
  behind ((e, a) ∷ events) s = behind events (pre_process_event redis e a s).1

  module _ (key tenant id : String) (other : cache_key tenant id ≢ key) where
    write-other :
        (info : DeviceInfo) (written : Bool) (s : S)
        → redis.get key (write_device_info redis tenant id info written s).1 ≡ redis.get key s
    unfolding write_device_info
    write-other info false s = refl
    write-other info true s =
        rw (redis.get-set (cache_key tenant id) key info s, ==-ne (cache_key tenant id) key other)
          refl

    delete-other :
        (deleted : Bool) (s : S)
        → redis.get key (delete_device redis tenant id deleted s) ≡ redis.get key s
    unfolding delete_device
    delete-other false s = refl
    delete-other true s =
        rw (redis.get-del (cache_key tenant id) key s, ==-ne (cache_key tenant id) key other) refl

    request-other :
        (a : RequestAnswers) (s : S)
        → redis.get key (request_device_info redis tenant id a s).1 ≡ redis.get key s
    unfolding request_device_info
    request-other a s = elim (Option-cases a.device) [
      | inl e ↦ rw (e, request_device_info) refl
      | inr (d, e) ↦ elim (Bool-cases a.ready) [
        | inl r ↦ rw (e, r, request_device_info) (write-other _ a.written s)
        | inr r ↦ rw (e, r, request_device_info) refl
      ]
    ]

    missed-other :
        (a : InfoAnswers) (s : S)
        → redis.get key
            (elim (request_device_info redis tenant id a.request s).0
              as (λ x. Option DeviceInfo × S) [
                | some i ↦ (some i, (request_device_info redis tenant id a.request s).1)
                | none ↦
                    request_device_info redis tenant id a.again
                      (request_device_info redis tenant id a.request s).1
              ]).1
          ≡ redis.get key s
    missed-other a s = elim (Option-cases (request_device_info redis tenant id a.request s).0) [
      | inl e ↦ rw e (request-other a.again _ ∙ request-other a.request s)
      | inr (i, e) ↦ rw e (request-other a.request s)
    ]

    get_device_info-other :
        (a : InfoAnswers) (s : S)
        → redis.get key (get_device_info redis tenant id a s).1 ≡ redis.get key s
    unfolding get_device_info
    get_device_info-other a s = elim (Bool-cases a.ready) [
      | inr e ↦ rw (e, get_device_info) (request-other a.request s)
      | inl e ↦ elim (Bool-cases a.read) [
        | inr f ↦ rw (e, f, get_device_info) (request-other a.again s)
        | inl f ↦ elim (Option-cases (redis.get (cache_key tenant id) s)) [
          | inl g ↦ rw (e, f, g, get_device_info) (missed-other a s)
          | inr (i, g) ↦ rw (e, f, g, get_device_info) refl
        ]
      ]
    ]

  module _ (key : String) where
    configured-get :
        (m : ManagerMessage) (a : EventAnswers) (s : S)
        → redis.get key (device_configured redis m a s).1
          ≡ redis.get key (get_device_info redis m.tenant m.device.id a.info s).1
    unfolding device_configured
    configured-get m a s =
        elim (Option-cases (get_device_info redis m.tenant m.device.id a.info s).0) [
          | inl e ↦ rw (e, device_configured) refl
          | inr (i, e) ↦ rw (e, device_configured) refl
        ]

    device-get :
        (p : DeviceMessage) (a : EventAnswers) (s : S)
        → redis.get key (pre_process_device_event redis (some p) a s).1
          ≡ redis.get key (get_device_info redis p.tenant p.id a.info s).1
    unfolding pre_process_device_event
    device-get p a s = elim (Option-cases (get_device_info redis p.tenant p.id a.info s).0) [
      | inl e ↦ rw (e, pre_process_device_event) refl
      | inr (i, e) ↦ rw (e, pre_process_device_event) refl
    ]

    removed-other :
        (m : ManagerMessage) (a : EventAnswers) (s : S)
        → cache_key m.tenant m.device.id ≢ key
        → redis.get key (device_removed redis m a s).1 ≡ redis.get key s
    unfolding device_removed
    removed-other m a s other =
        let same = get_device_info-other key m.tenant m.device.id other a.info s in
        elim (Option-cases (get_device_info redis m.tenant m.device.id a.info s).0) [
          | inl e ↦ rw (e, device_removed) same
          | inr (i, e) ↦
              rw (e, device_removed)
                (delete-other key m.tenant m.device.id other a.deleted _ ∙ same)
        ]

    -- A read of the cache leaves an entry of the device that it is about, and any entry of others.
    read_keeps :
        (tenant id : String) (a : EventAnswers) (s : S) (i : DeviceInfo)
        → (cache_key tenant id ≢ key) ⊎ Reads a
        → redis.get key s ≡ some i
        → redis.get key (get_device_info redis tenant id a.info s).1 ≡ some i
    read_keeps tenant id a s i (inl other) h =
        get_device_info-other key tenant id other a.info s ∙ h
    read_keeps tenant id a s i (inr (ready, read)) h =
        elim (Bool-cases (cache_key tenant id == key)) [
          | inl same ↦
              let k = (eq_iff (cache_key tenant id) key).0 same in
              rw (get_device_info-hit redis tenant id a.info s i ready read (rw k h)) h
          | inr e ↦
              get_device_info-other key tenant id
                (λ k.
                  let t = (eq_iff (cache_key tenant id) key).1 k in
                  let f : true ≡ false = sym t ∙ e in cc)
                a.info s
              ∙ h
        ]

    defined-other :
        (m : ManagerMessage) (a : EventAnswers) (s : S)
        → cache_key m.tenant m.device.id ≢ key
        → redis.get key (device_saved redis m a s).1 ≡ redis.get key s
    unfolding device_saved add_device
    defined-other m a s other = write-other key m.tenant m.device.id other _ a.saved s

    manager_keeps :
        (m : ManagerMessage) (a : EventAnswers) (s : S) (i : DeviceInfo)
        → IsHarmless key (from_device_manager (some m)) a
        → redis.get key s ≡ some i
        → redis.get key (pre_process_device_manager_event redis (some m) a s).1 ≡ some i
    unfolding pre_process_device_manager_event
    manager_keeps m a s i (inl other) h = elim (Bool-cases (is_definition m)) [
      | inl d ↦ rw (d, pre_process_device_manager_event) (defined-other m a s other ∙ h)
      | inr d ↦ elim (Bool-cases (is_removal m)) [
        | inl r ↦ rw (d, r, pre_process_device_manager_event) (removed-other m a s other ∙ h)
        | inr r ↦ elim (Bool-cases (m.event == "configure")) [
          | inl c ↦
              rw (d, r, c, pre_process_device_manager_event)
                (configured-get m a s ∙ read_keeps m.tenant m.device.id a s i (inl other) h)
          | inr c ↦ rw (d, r, c, pre_process_device_manager_event) h
        ]
      ]
    ]
    manager_keeps m a s i (inr (d, r, reads)) h = elim (Bool-cases (m.event == "configure")) [
      | inl c ↦
          rw (d, r, c, pre_process_device_manager_event)
            (configured-get m a s ∙ read_keeps m.tenant m.device.id a s i (inr reads) h)
      | inr c ↦ rw (d, r, c, pre_process_device_manager_event) h
    ]

    pre_process_event_keeps :
        (e : QueuedEvent) (a : EventAnswers) (s : S) (i : DeviceInfo)
        → IsHarmless key e a
        → redis.get key s ≡ some i
        → redis.get key (pre_process_event redis e a s).1 ≡ some i
    unfolding pre_process_event pre_process_device_manager_event pre_process_device_event
    pre_process_event_keeps no_json a s i harmless h = h
    pre_process_event_keeps unsupported a s i harmless h = h
    pre_process_event_keeps (from_device_manager none) a s i harmless h = h
    pre_process_event_keeps (from_device_manager (some m)) a s i harmless h =
        manager_keeps m a s i harmless h
    pre_process_event_keeps (from_device none) a s i harmless h = h
    pre_process_event_keeps (from_device (some p)) a s i harmless h =
        device-get p a s ∙ read_keeps p.tenant p.id a s i harmless h

    -- Behind any harmless events an entry is as it was.
    pub behind_keeps :
        (events : List (QueuedEvent × EventAnswers)) (s : S) (i : DeviceInfo)
        → AllHarmless key events
        → redis.get key s ≡ some i
        → redis.get key (behind events s) ≡ some i
    unfolding behind
    behind_keeps [] s i harmless h = h
    behind_keeps ((e, a) ∷ events) s i (first, rest) h =
        behind_keeps events (pre_process_event redis e a s).1 i rest
          (pre_process_event_keeps e a s i first h)
