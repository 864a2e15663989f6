-- ===== src/Devices/Cache/Pages/Filled.antt =====
-- What the cache holds once it is filled.
use flowbroker.Prelude.{
  ℕ, zero, suc, ◌≤◌, String, ◌≡◌, refl, sym, ap, ◌∙◌, true, false, Option, none, some, List, [],
  ◌∷◌, ◌++◌, ◌==◌, length, arith, if◌then◌else◌, inl, inr, Bool-cases, append-nil,
}
use flowbroker.Prelude.Dict
use flowbroker.Prelude.Dict.{Dict, get-put}
use flowbroker.Devices.Cache.{DeviceInfo, KeyValue, Device, device_info, cache_key}
use flowbroker.Devices.Cache.Pages.{
  Page, listed, put_devices, get_all_devices, get_tenants, write_devices, populate,
}

-- What is listed later counts.
unfoldable pub later : Option DeviceInfo → Option DeviceInfo → Option DeviceInfo
later none before = before
later (some i) before = some i

-- The entry of a key by a listing of the tenants' devices: that of the last device with the key.
unfoldable pub entry_of : String → List (String × Device) → Option DeviceInfo
unfolding later
entry_of k [] = none
entry_of k ((tenant, d) ∷ rest) =
    later (entry_of k rest) (if cache_key tenant d.id == k then some (device_info d) else none)

abbrev pub of_tenant : String → List Device → List (String × Device)
of_tenant tenant [] = []
of_tenant tenant (d ∷ ds) = (tenant, d) ∷ of_tenant tenant ds

abbrev pub of_pages : String → List (List Device) → List (String × Device)
of_pages tenant [] = []
of_pages tenant (ds ∷ rest) = of_tenant tenant ds ++ of_pages tenant rest

-- All devices that the pages of some tenants list.
abbrev pub listing : (String → List (List Device)) → List String → List (String × Device)
listing pages [] = []
listing pages (tenant ∷ tenants) = of_pages tenant (pages tenant) ++ listing pages tenants

-- The device manager serves some pages, the first of them under a number: each but the last names the
-- next number.
abbrev pub Serves : (ℕ → Option Page) → ℕ → List (List Device) → Type 0
Serves fetch n [] = ⊥
Serves fetch n (ds ∷ []) =
    (next : ℕ) × (fetch n ≡ some (record { devices = ds; has_next = false; next_page = next }))
Serves fetch n (ds ∷ es ∷ rest) =
    (fetch n ≡ some (record { devices = ds; has_next = true; next_page = suc n }))
    × Serves fetch (suc n) (es ∷ rest)

later_assoc : (a b c : Option DeviceInfo) → later a (later b c) ≡ later (later a b) c
unfolding later
later_assoc none b c = refl
later_assoc (some i) b c = refl

later_elim :
    (o before : Option DeviceInfo) → elim o [ none ↦ before | some i ↦ some i ] ≡ later o before
unfolding later
later_elim none before = refl
later_elim (some i) before = refl

later-none : (a : Option DeviceInfo) → later a none ≡ a
unfolding later
later-none none = refl
later-none (some i) = refl

entry_of-append :
    (k : String) (xs ys : List (String × Device))
    → entry_of k (xs ++ ys) ≡ later (entry_of k ys) (entry_of k xs)
unfolding entry_of
entry_of-append k [] ys = sym (later-none (entry_of k ys))
entry_of-append k ((tenant, d) ∷ xs) ys =
    let here : Option DeviceInfo =
      if cache_key tenant d.id == k then some (device_info d) else none in
    ap (λ o. later o here) (entry_of-append k xs ys)
    ∙ sym (later_assoc (entry_of k ys) (entry_of k xs) here)

-- A dictionary holds a listing over what it held.
abbrev HoldsOver : Dict DeviceInfo → List (String × Device) → Dict DeviceInfo → Type 0
HoldsOver m l m' = (k : String) → Dict.get k m' ≡ later (entry_of k l) (Dict.get k m)

put_one :
    (k key : String) (i : DeviceInfo) (o : Option DeviceInfo) (m : Dict DeviceInfo)
    → later o (Dict.get k (Dict.put key i m))
      ≡ later (later o (if key == k then some i else none)) (Dict.get k m)
unfolding later
put_one k key i o m = elim (Bool-cases (key == k)) [
  | inl same ↦ rw (get-put key k i m, same) (later_assoc o (some i) (Dict.get k m))
  | inr other ↦ rw (get-put key k i m, other) (later_assoc o none (Dict.get k m))
]

put_devices-HoldsOver :
    (tenant : String) (ds : List Device) (m : Dict DeviceInfo)
    → HoldsOver m (of_tenant tenant ds) (put_devices tenant ds m)
unfolding put_devices entry_of later
put_devices-HoldsOver tenant [] m k = refl
put_devices-HoldsOver tenant (d ∷ ds) m k =
    put_devices-HoldsOver tenant ds (Dict.put (cache_key tenant d.id) (device_info d) m) k
    ∙ put_one k (cache_key tenant d.id) (device_info d) (entry_of k (of_tenant tenant ds)) m

HoldsOver-append :
    (m m' m'' : Dict DeviceInfo) (xs ys : List (String × Device))
    → HoldsOver m xs m'
    → HoldsOver m' ys m''
    → HoldsOver m (xs ++ ys) m''
HoldsOver-append m m' m'' xs ys h g k =
    g k
    ∙ ap (later (entry_of k ys)) (h k)
    ∙ later_assoc (entry_of k ys) (entry_of k xs) (Dict.get k m)
    ∙ ap (λ o. later o (Dict.get k m)) (sym (entry_of-append k xs ys))

module _ (fetch : String → ℕ → Option Page) where
  pub get_all_devices-HoldsOver :
      (fuel : ℕ) (tenant : String) (n : ℕ) (ps : List (List Device)) (m : Dict DeviceInfo)
      → Serves (fetch tenant) (suc n) ps
      → length ps ≤ fuel
      → (m' : Dict DeviceInfo) × (get_all_devices fetch fuel tenant (suc n) m ≡ listed m')
        × HoldsOver m (of_pages tenant ps) m'
  unfolding get_all_devices
  get_all_devices-HoldsOver fuel tenant n [] m serves enough = absurd serves
  get_all_devices-HoldsOver zero tenant n (ds ∷ rest) m serves enough = absurd (omega arith)
  get_all_devices-HoldsOver (suc fuel) tenant n (ds ∷ []) m (next, page) enough = (
    put_devices tenant ds m,
    rw (page, get_all_devices) refl,
    rw append-nil (put_devices-HoldsOver tenant ds m),
  )
  get_all_devices-HoldsOver (suc fuel) tenant n (ds ∷ es ∷ rest) m (page, more) enough =
      let (m', done, holds) =
        get_all_devices-HoldsOver fuel tenant (suc n) (es ∷ rest) (put_devices tenant ds m) more
          (omega arith) in
      (
        m',
        rw (page, get_all_devices) done,
        HoldsOver-append m (put_devices tenant ds m) m' (of_tenant tenant ds)
            (of_pages tenant (es ∷ rest)) (put_devices-HoldsOver tenant ds m) holds,
      )

  -- Each tenant's pages are served, and the fuel is at least their number.
  abbrev pub AllServed : ℕ → (String → List (List Device)) → List String → Type 0
  AllServed fuel pages [] = Unit
  AllServed fuel pages (tenant ∷ tenants) =
      Serves (fetch tenant) 1 (pages tenant)
      × (length (pages tenant) ≤ fuel)
      × AllServed fuel pages tenants

  get_tenants-HoldsOver :
      (fuel : ℕ) (pages : String → List (List Device)) (tenants : List String) (m : Dict DeviceInfo)
      → AllServed fuel pages tenants
      → (m' : Dict DeviceInfo) × (get_tenants fetch fuel tenants m ≡ listed m')
        × HoldsOver m (listing pages tenants) m'
  unfolding get_tenants entry_of later
  get_tenants-HoldsOver fuel pages [] m fills = (m, refl, λ k. refl)
  get_tenants-HoldsOver fuel pages (tenant ∷ tenants) m (serves, enough, fills) =
      let (m', done, holds) =
        get_all_devices-HoldsOver fuel tenant 0 (pages tenant) m serves enough in
      let (m'', done', holds') = get_tenants-HoldsOver fuel pages tenants m' fills in
      (
        m'',
        rw (done, get_tenants) done',
        HoldsOver-append m m' m'' (of_pages tenant (pages tenant)) (listing pages tenants) holds
            holds',
      )

  module _ {S : Type 0} (redis : KeyValue S) (s : S) where
    get-write_devices :
        (k : String) (m : Dict DeviceInfo)
        → (write_devices fetch redis m true s).0 ≡ some true
          × (redis.get k (write_devices fetch redis m true s).1
              ≡ later (Dict.get k m) (redis.get k s))
    unfolding write_devices
    get-write_devices k [] = (refl, unfold Dict.get later in refl)
    get-write_devices k (d ∷ ds) =
        (refl, redis.get-mset k (d ∷ ds) s ∙ later_elim (Dict.get k (d ∷ ds)) (redis.get k s))

    -- Filling the cache, where the device manager serves the pages of each tenant, the fuel is at least
    -- the number of each tenant's pages, and Redis writes: it comes to its end and resolves. Behind it
    -- the cache has for each key the entry of the last listed device with that key, and where no device
    -- is listed what it had.
    pub populate_fills :
        (fuel : ℕ) (pages : String → List (List Device)) (tenants : List String)
        → AllServed fuel pages tenants
        → ((populate fetch redis fuel tenants true s).0 ≡ some true)
          × ((k : String)
              → redis.get k (populate fetch redis fuel tenants true s).1
                ≡ later (entry_of k (listing pages tenants)) (redis.get k s))
    unfolding Dict.get populate later
    populate_fills fuel pages tenants fills =
        let (m, done, holds) = get_tenants-HoldsOver fuel pages tenants [] fills in
        rw (done, populate)
          (
            (get-write_devices "" m).0,
            λ k.
                (get-write_devices k m).1
                ∙ ap (λ o. later o (redis.get k s))
                    (holds k ∙ later-none (entry_of k (listing pages tenants))),
          )
