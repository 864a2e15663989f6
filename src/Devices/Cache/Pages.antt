-- ===== src/Devices/Cache/Pages.antt =====
-- populate and _getAllDevices of orchestrator/DeviceCache.js: the cache is filled from the device
-- manager's pages. `fetch` is what a request for a page of a tenant comes to.
pub mod Filled
use flowbroker.Prelude.{
  ℕ, zero, suc, String, Bool, true, false, Option, none, some, List, [], ◌∷◌, if◌then◌else◌,
}
use flowbroker.Prelude.Dict
use flowbroker.Prelude.Dict.{Dict}
use flowbroker.Devices.Cache.{DeviceInfo, KeyValue, Device, device_info, cache_key}

pub record Page : Type 0 where
  pub devices : List Device
  pub has_next : Bool
  pub next_page : ℕ

pub data Listed : Type 0 where
  out_of_fuel : Listed
  fails : Listed
  listed : Dict DeviceInfo → Listed

unfoldable pub put_devices : String → List Device → Dict DeviceInfo → Dict DeviceInfo
put_devices tenant [] m = m
put_devices tenant (d ∷ ds) m =
    put_devices tenant ds (Dict.put (cache_key tenant d.id) (device_info d) m)

-- `if (!page) page = 1`
abbrev first_page : ℕ → ℕ
first_page zero = 1
first_page (suc n) = suc n

module _ (fetch : String → ℕ → Option Page) where
  -- _getAllDevices: it goes on as long as there is a next page, which is the fuel's bound.
  unfoldable pub get_all_devices : ℕ → String → ℕ → Dict DeviceInfo → Listed
  unfolding put_devices
  get_all_devices zero tenant page devices = out_of_fuel
  get_all_devices (suc fuel) tenant page devices = elim (fetch tenant (first_page page)) [
    | none ↦ fails
    | some p ↦
        let devices' = put_devices tenant p.devices devices in
        let rest = get_all_devices fuel tenant p.next_page devices' in
        if p.has_next then rest else listed devices'
  ]

  -- The tenants' requests, one tenant behind the other.
  unfoldable pub get_tenants : ℕ → List String → Dict DeviceInfo → Listed
  unfolding get_all_devices
  get_tenants fuel [] devices = listed devices
  get_tenants fuel (tenant ∷ tenants) devices = elim (get_all_devices fuel tenant 1 devices) [
    | out_of_fuel ↦ out_of_fuel
    | fails ↦ fails
    | listed devices' ↦ get_tenants fuel tenants devices'
  ]

  module _ {S : Type 0} (redis : KeyValue S) where
    write_devices : Dict DeviceInfo → Bool → S → Option Bool × S
    write_devices [] written s = (some true, s)
    write_devices (d ∷ ds) written s =
        if written then (some true, redis.mset (d ∷ ds) s) else (some false, s)

    -- populate: does it resolve? `none` is for a fuel that is not enough.
    unfoldable pub populate : ℕ → List String → Bool → S → Option Bool × S
    unfolding get_tenants write_devices
    populate fuel tenants written s = elim (get_tenants fuel tenants []) [
      | out_of_fuel ↦ (none, s)
      | fails ↦ (some false, s)
      | listed devices ↦ write_devices devices written s
    ]
