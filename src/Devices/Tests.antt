-- ===== src/Devices/Tests.antt =====
-- The theorems about the cache with a store that is a dictionary, at one lamp.
use flowbroker.Prelude.{
  ℕ, zero, suc, String, ◌≡◌, refl, ap, true, false, Option, none, some, List, [], ◌∷◌, ◌==◌, arith,
  inl, inr, Bool-cases,
}
use flowbroker.Prelude.Dict
use flowbroker.Prelude.Dict.{Dict, get-put, get-remove}
use flowbroker.Prelude.Int.{pos}
use flowbroker.Json.{num}
use flowbroker.Devices.Cache.{DeviceInfo, KeyValue, AttrDef, Device, device_info, add_device}
use flowbroker.Devices.Cache.Pages.{Page, populate}
use flowbroker.Devices.Cache.Pages.Filled.{later, entry_of, listing, AllServed, populate_fills}
use flowbroker.Devices.Events.{
  ManagerMessage, DeviceMessage, HandleCall, EventAnswers, QueuedEvent, pre_process_event,
  from_device, from_device_manager,
}
use flowbroker.Devices.Events.Later.{AllHarmless, behind}
use flowbroker.Devices.Events.Handled.{HandledWith, publish_saved}

put_all : Dict DeviceInfo → Dict DeviceInfo → Dict DeviceInfo
put_all [] s = s
put_all ((k, i) ∷ ds) s = Dict.put k i (put_all ds s)

get-put_all :
    (k : String) (ds s : Dict DeviceInfo)
    → Dict.get k (put_all ds s) ≡ elim (Dict.get k ds) [ none ↦ Dict.get k s | some i ↦ some i ]
unfolding put_all Dict.get
get-put_all k [] s = refl
get-put_all k ((key, i) ∷ ds) s = elim (Bool-cases (key == k)) [
  | inl same ↦ rw (get-put key k i (put_all ds s)) (rw same refl)
  | inr other ↦ rw (get-put key k i (put_all ds s)) (rw other (get-put_all k ds s))
]

abbrev dictionary : KeyValue (Dict DeviceInfo)
dictionary = record {
  get = Dict.get;
  set = Dict.put;
  del = Dict.remove;
  mset = put_all;
  get-set = get-put;
  get-del = get-remove;
  get-mset = get-put_all;
}

abbrev serial : AttrDef
serial = record {
  label = "serial";
  kind = "static";
  static_value = some (num (pos 7));
  specialized = none;
}

abbrev lamp : Device
lamp = record { id = "a1"; templates = "1" ∷ []; attrs = ("1", serial ∷ []) ∷ [] }

abbrev moved : Device
moved = record lamp { templates = "2" ∷ [] }

abbrev answered : EventAnswers
answered = record {
  info = record {
    ready = true;
    read = true;
    request = record { device = none; ready = true; written = true };
    again = record { device = none; ready = true; written = true };
  };
  saved = true;
  deleted = true;
}

abbrev update : ManagerMessage
update = record { event = "update"; tenant = "admin"; device = moved; attrs = [] }

abbrev published : DeviceMessage
published = record {
  tenant = "admin";
  id = "a1";
  timestamp = none;
  attrs = ("level", num (pos 3)) ∷ [];
}

abbrev known : Dict DeviceInfo
known = (add_device dictionary "admin" lamp true []).1

-- Between the update and the event: the removal of another device, and a publish.
abbrev between : List (QueuedEvent × EventAnswers)
between =
    (
      from_device_manager (
          some (record {
            event = "remove";
            tenant = "admin";
            device = record lamp { id = "b2" };
            attrs = [];
          })),
      answered,
    )
    ∷ (from_device (some published), answered)
    ∷ []

between_harmless : AllHarmless "admin:a1" between
between_harmless =
    (inl (λ e. let f : false ≡ true = ap (λ k. k == "admin:a1") e in cc), (inr (refl, refl), tt))

publish_saved_example :
    (c : HandleCall) × ((pre_process_event dictionary (from_device (some published)) answered (
        behind dictionary between
          (pre_process_event dictionary (from_device_manager (some update)) answered known).1)).0
      ≡ some c)
    × HandledWith (device_info moved) published c
publish_saved_example =
    publish_saved dictionary published answered update answered between known refl refl refl refl
      between_harmless refl refl

-- Two pages, of one device each.
fetch : String → ℕ → Option Page
fetch tenant (suc zero) = some (record { devices = lamp ∷ []; has_next = true; next_page = 2 })
fetch tenant (suc (suc zero)) =
    some (record { devices = moved ∷ []; has_next = false; next_page = 2 })
fetch tenant _ = none

abbrev pages : String → List (List Device)
pages tenant = (lamp ∷ []) ∷ (moved ∷ []) ∷ []

pages_filled : AllServed fetch 2 pages ("admin" ∷ [])
unfolding fetch
pages_filled = ((refl, (2, refl)), omega arith, tt)

populate_fills_example :
    ((populate fetch dictionary 2 ("admin" ∷ []) true []).0 ≡ some true)
    × ((k : String)
        → Dict.get k (populate fetch dictionary 2 ("admin" ∷ []) true []).1
          ≡ later (entry_of k (listing pages ("admin" ∷ []))) (Dict.get k []))
populate_fills_example = populate_fills fetch dictionary [] 2 pages ("admin" ∷ []) pages_filled
