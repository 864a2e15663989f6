-- ===== src/Devices/Events/Handled.antt =====
-- How a published event is handled behind an update of its device and behind what comes between.
use flowbroker.Prelude.{
  String, ◌≡◌, refl, ◌∙◌, true, false, Option, none, some, List, [], ◌∷◌, ◌==◌, eq_iff, inl, inr,
  Bool-cases,
}
use flowbroker.Prelude.Dict
use flowbroker.Prelude.Dict.{Dict, get-put}
use flowbroker.Prelude.Dict.Keys.{get-none}
use flowbroker.Json.{Value}
use flowbroker.Devices.Cache.{
  StaticAttr, DeviceInfo, KeyValue, device_info, cache_key, add_device, write_device_info,
}
use flowbroker.Devices.Cache.Laws.{
  IsObject, add_static_attrs-IsObject, get_device_info-hit, get-add_device,
}
use flowbroker.Devices.Events.Later.{is_definition, AllHarmless, behind, behind_keeps}
use flowbroker.Devices.Events.{
  ManagerMessage, DeviceMessage, values, HandleCall, copy_static, EventAnswers, device_saved,
  pre_process_device_manager_event, pre_process_device_event, pre_process_event, QueuedEvent,
  from_device, from_device_manager,
}

-- The value that an event is handled with: the static one, if there is one.
unfoldable or_else : Option StaticAttr → Option Value → Option Value
or_else none published = published
or_else (some a) published = some a.value

unfoldable pub overridden : String → Dict StaticAttr → Dict Value → Option Value
unfolding or_else
overridden label statics attrs = or_else (Dict.get label statics) (Dict.get label attrs)

get-copy_static :
    (label : String) (statics : Dict StaticAttr) (attrs : Dict Value)
    → IsObject statics
    → Dict.get label (copy_static statics attrs) ≡ overridden label statics attrs
unfolding copy_static Dict.get overridden or_else
get-copy_static label [] attrs h = refl
get-copy_static label ((k, a) ∷ statics) attrs (new, h) = elim (Bool-cases (k == label)) [
  | inl same ↦
      let e = (eq_iff k label).0 same in
      let out : Dict.get label statics ≡ none = get-none label statics (rw e at new) in
      get-copy_static label statics (Dict.put k a.value attrs) h
      ∙ rw (get-put k label a.value attrs, out, same) refl
  | inr other ↦
      get-copy_static label statics (Dict.put k a.value attrs) h
      ∙ rw (get-put k label a.value attrs, other) refl
]

-- How the call of an event that was published stands to what the cache knew of its device.
pub record HandledWith (i : DeviceInfo) (p : DeviceMessage) (c : HandleCall) : Type 0 where
  pub device : (c.tenant ≡ p.tenant) × (c.device ≡ p.id) × (c.source ≡ "publish")
  pub templates : c.templates ≡ i.templates
  pub attrs :
      (merged : Dict Value) × (c.attrs ≡ values merged)
      × ((label : String) → Dict.get label merged ≡ overridden label i.static_attrs p.attrs)

module _ {S : Type 0} (redis : KeyValue S) (p : DeviceMessage) (b : EventAnswers) where
  publish_known :
      (i : DeviceInfo) (s : S)
      → b.info.ready ≡ true
      → b.info.read ≡ true
      → redis.get (cache_key p.tenant p.id) s ≡ some i
      → IsObject i.static_attrs
      → (c : HandleCall) × ((pre_process_event redis (from_device (some p)) b s).0 ≡ some c)
        × HandledWith i p c
  unfolding pre_process_event pre_process_device_event
  publish_known i s ready read h object = (
    record {
      tenant = p.tenant;
      device = p.id;
      timestamp = p.timestamp;
      templates = i.templates;
      source = "publish";
      attrs = values (copy_static i.static_attrs p.attrs);
    },
    rw (get_device_info-hit redis p.tenant p.id b.info s i ready read h, pre_process_event) refl,
    record {
      device = (refl, refl, refl);
      templates = refl;
      attrs = (
        copy_static i.static_attrs p.attrs,
        refl,
        λ label. get-copy_static label i.static_attrs p.attrs object,
      );
    },
  )

  -- An event of the device manager that creates or updates a device, of which the cache saves the
  -- definition. Behind it and any further events, each of them about another device, or one for which the
  -- cache can be read and which neither updates nor removes the device: what the device publishes, if the
  -- cache can be read then, is handled with the templates of that definition, and with its static
  -- attributes in place of the published ones.
  pub publish_saved :
      (m : ManagerMessage) (a : EventAnswers) (events : List (QueuedEvent × EventAnswers)) (s : S)
      → is_definition m ≡ true
      → a.saved ≡ true
      → m.tenant ≡ p.tenant
      → m.device.id ≡ p.id
      → AllHarmless (cache_key p.tenant p.id) events
      → b.info.ready ≡ true
      → b.info.read ≡ true
      → (c : HandleCall) × ((pre_process_event redis
            (from_device (some p))
            b
            (behind redis events (pre_process_event redis (from_device_manager (some m)) a s).1)).0
          ≡ some c)
        × HandledWith (device_info m.device) p c
  publish_saved m a events s definition saved tenant id harmless ready read =
      publish_known (device_info m.device)
        (behind redis events (pre_process_event redis (from_device_manager (some m)) a s).1) ready
        read
        (behind_keeps redis (cache_key p.tenant p.id) events _ (device_info m.device) harmless (
          rw (← tenant) (
            rw (← id) (
              unfold pre_process_event pre_process_device_manager_event device_saved in
              rw (definition, saved) (get-add_device redis m.tenant m.device s)))))
        (add_static_attrs-IsObject m.device.attrs)

  -- An event of the device manager that creates or updates a device, where the cache fails to save the
  -- definition and has an older entry: what the device publishes next is handled with the
  -- templates and the static attributes of the older one.
  pub publish_unsaved :
      (m : ManagerMessage) (a : EventAnswers) (s : S) (old : DeviceInfo)
      → is_definition m ≡ true
      → a.saved ≡ false
      → redis.get (cache_key p.tenant p.id) s ≡ some old
      → IsObject old.static_attrs
      → b.info.ready ≡ true
      → b.info.read ≡ true
      → (c : HandleCall) × ((pre_process_event redis
            (from_device (some p))
            b
            (pre_process_event redis (from_device_manager (some m)) a s).1).0
          ≡ some c)
        × HandledWith old p c
  publish_unsaved m a s old definition unsaved there object ready read =
      publish_known old (pre_process_event redis (from_device_manager (some m)) a s).1 ready read
        (unfold pre_process_event pre_process_device_manager_event device_saved add_device
            write_device_info in
          rw (definition, unsaved) there)
        object
