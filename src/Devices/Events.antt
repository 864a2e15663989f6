-- ===== src/Devices/Events.antt =====
-- preProcessEvent, _preProcessDeviceManagerEvent, _preProcessDeviceEvent and _enqueueEvent of
-- orchestrator/ingestor.js, up to the call of _handleEvent. A message is taken to have the fields that
-- its kind of event reads; one that is no JSON, or has no metadata, is `none`.
pub mod Handled
pub mod Later
use flowbroker.Prelude.{
  ℕ, String, Bool, true, false, Option, none, some, List, [], ◌∷◌, ◌==◌, ◌||◌, if◌then◌else◌, map,
}
use flowbroker.Prelude.Dict
use flowbroker.Prelude.Dict.{Dict}
use flowbroker.Json.{Value}
use flowbroker.Flow.Ingest
use flowbroker.Flow.Ingest.{Flow, Task, calculate_queue}
use flowbroker.Devices.Cache.{
  StaticAttr, DeviceInfo, KeyValue, AttrDef, Device, InfoAnswers, add_device, delete_device,
  get_device_info,
}

-- An event of the device manager: `create` and `update` bear the device's definition, `configure` the
-- attributes that are set.
pub record ManagerMessage : Type 0 where
  pub event : String
  pub tenant : String
  pub device : Device
  pub attrs : Dict Value

-- An event of a device: the attributes that it publishes.
pub record DeviceMessage : Type 0 where
  pub tenant : String
  pub id : String
  pub timestamp : Option ℕ
  pub attrs : Dict Value

-- The attributes of the event that is handled: the definitions by label, or the values by label.
pub data EventAttrs : Type 0 where
  definitions : Dict AttrDef → EventAttrs
  values : Dict Value → EventAttrs
  as_they_came : EventAttrs

-- The arguments of a call of _handleEvent.
pub record HandleCall : Type 0 where
  pub tenant : String
  pub device : String
  pub timestamp : Option ℕ
  pub templates : List String
  pub source : String
  pub attrs : EventAttrs

pub data Processed : Type 0 where
  handles : HandleCall → Processed
  rejects : String → Processed

label_attrs : List AttrDef → Dict AttrDef → Dict AttrDef
label_attrs [] m = m
label_attrs (a ∷ rest) m = label_attrs rest (Dict.put a.label a m)

unfoldable pub label_templates : List (String × List AttrDef) → Dict AttrDef → Dict AttrDef
unfolding label_attrs
label_templates [] m = m
label_templates ((template, list) ∷ attrs) m = label_templates attrs (label_attrs list m)

-- _transformDeviceEvent
unfoldable pub transform_device_event : Device → EventAttrs
unfolding label_templates
transform_device_event d = definitions (label_templates d.attrs [])

-- The loop that copies the static attributes to the event.
unfoldable pub copy_static : Dict StaticAttr → Dict Value → Dict Value
copy_static [] attrs = attrs
copy_static ((label, a) ∷ statics) attrs = copy_static statics (Dict.put label a.value attrs)

-- The answers behind an event: those of getDeviceInfo, and whether Redis does what it is asked to.
pub record EventAnswers : Type 0 where
  pub info : InfoAnswers
  pub saved : Bool
  pub deleted : Bool

module _ {S : Type 0} (redis : KeyValue S) where
  -- `create` and `update`: a failing write is only logged.
  unfoldable pub device_saved : ManagerMessage → EventAnswers → S → Processed × S
  unfolding add_device transform_device_event
  device_saved m a s = (
    handles (record {
      tenant = m.tenant;
      device = m.device.id;
      timestamp = none;
      templates = m.device.templates;
      source = m.event;
      attrs = transform_device_event m.device;
    }),
    (add_device redis m.tenant m.device a.saved s).1,
  )

  unfoldable pub device_removed : ManagerMessage → EventAnswers → S → Processed × S
  unfolding get_device_info delete_device
  device_removed m a s =
      let (info, s') = get_device_info redis m.tenant m.device.id a.info s in
      elim info [
        | none ↦ (rejects "Failed to processe device manager delete message", s')
        | some i ↦ (
          handles (record {
            tenant = m.tenant;
            device = m.device.id;
            timestamp = none;
            templates = i.templates;
            source = m.event;
            attrs = as_they_came;
          }),
          delete_device redis m.tenant m.device.id a.deleted s',
        )
      ]

  unfoldable pub device_configured : ManagerMessage → EventAnswers → S → Processed × S
  unfolding get_device_info copy_static
  device_configured m a s =
      let (info, s') = get_device_info redis m.tenant m.device.id a.info s in
      elim info [
        | none ↦ (rejects "Failed to processe device manager configure message", s')
        | some i ↦ (
          handles (record {
            tenant = m.tenant;
            device = m.device.id;
            timestamp = none;
            templates = i.templates;
            source = m.event;
            attrs = values (copy_static i.static_attrs m.attrs);
          }),
          s',
        )
      ]

  -- _preProcessDeviceManagerEvent
  unfoldable pub pre_process_device_manager_event :
      Option ManagerMessage → EventAnswers → S → Processed × S
  unfolding device_saved device_removed device_configured
  pre_process_device_manager_event none a s = (rejects "Failed to processe device manager event", s)
  pre_process_device_manager_event (some m) a s =
      if m.event == "create" || m.event == "update"
      then device_saved m a s
      else if m.event == "remove"
      then device_removed m a s
      else if m.event == "configure"
      then device_configured m a s
      else (rejects "Unsupported device manager event", s)

  -- _preProcessDeviceEvent
  unfoldable pub pre_process_device_event : Option DeviceMessage → EventAnswers → S → Processed × S
  unfolding get_device_info copy_static
  pre_process_device_event none a s = (rejects "", s)
  pre_process_device_event (some m) a s =
      let (info, s') = get_device_info redis m.tenant m.id a.info s in
      elim info [
        | none ↦ (rejects "Failed to process device event", s')
        | some i ↦ (
          handles (record {
            tenant = m.tenant;
            device = m.id;
            timestamp = m.timestamp;
            templates = i.templates;
            source = "publish";
            attrs = values (copy_static i.static_attrs m.attrs);
          }),
          s',
        )
      ]

-- An event of the queue, by its source; the message is what its text parses to.
pub data QueuedEvent : Type 0 where
  no_json unsupported : QueuedEvent
  from_device_manager : Option ManagerMessage → QueuedEvent
  from_device : Option DeviceMessage → QueuedEvent

-- The tasks of a call of _handleEvent, for a flow store that finds flows by device and by template.
unfoldable pub tasks_of : ℕ → (String → List Flow) → (String → List Flow) → HandleCall → List Task
tasks_of task_queues by_device by_template c =
    Ingest.handle_event task_queues
      (record { tenant = c.tenant; device = c.device; templates = c.templates; source = c.source })
      (by_device c.device ∷ map by_template c.templates)

-- preProcessEvent: what is handled, if anything. In each case the event is acknowledged.
unfoldable pub pre_process_event :
    {S : Type 0} → KeyValue S → QueuedEvent → EventAnswers → S → Option HandleCall × S
unfolding pre_process_device_manager_event pre_process_device_event
pre_process_event redis no_json a s = (none, s)
pre_process_event redis unsupported a s = (none, s)
pre_process_event redis (from_device_manager m) a s =
    let (p, s') = pre_process_device_manager_event redis m a s in
    (elim p [ handles c ↦ some c | rejects e ↦ none ], s')
pre_process_event redis (from_device m) a s =
    let (p, s') = pre_process_device_event redis m a s in
    (elim p [ handles c ↦ some c | rejects e ↦ none ], s')

-- _enqueueEvent: the queue that an event goes to, `none` if it is refused. `id` is what the event's
-- source has it read from the message: `none` if that throws, `some none` for another source, where the
-- id is null.
unfoldable pub enqueue_event : ℕ → Option (Option String) → Option ℕ
enqueue_event queues none = none
enqueue_event queues (some none) = some (calculate_queue "null" queues)
enqueue_event queues (some (some id)) = some (calculate_queue id queues)
