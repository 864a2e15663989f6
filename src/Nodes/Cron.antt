-- ===== src/Nodes/Cron.antt =====
-- The handlers of orchestrator/nodes/cron/cron.js and cron-batch/cron-batch.js. What the cron service
-- answers and the JSON parser are parameters; a message was parsed, so its arrays have no gaps.
use flowbroker.Prelude.{
  String, Bool, true, false, ◌&&◌, Option, none, some, ◌==◌, if◌then◌else◌, ◌≡◌, ◌≢◌, inl, inr,
  refl, Option-cases,
}
use flowbroker.Json.{Value, null, boolean, num, str, arr, obj, Items, nil, cons, gap, end, field}
use flowbroker.Executor.{Handled, rejected, timed_out}
use flowbroker.Nodes.Base
use flowbroker.Nodes.Base.{Got, got, unknown_property, get_type_error}
use flowbroker.Nodes.Outcomes.{forwarded, write_and_forward}

-- What the POST of a job comes to: the id in the answer, an error that has an answer, or an error that
-- has none.
pub data Created : Type 0 where
  job_id : Value → Created
  refused_job : Created
  no_answer : Created

pub record CronService : Type 0 where
  pub create : (tenant : String) → (job : Value) → Created
  pub remove : (tenant : String) → (job_id : Value) → Bool
  pub parse_json : String → Option Value

pub record CronConfig : Type 0 where
  pub operation : String
  pub time_expression : String
  pub job_name : String
  pub job_description : String
  pub job_type : String
  pub job_action : String
  pub out_job_id : String
  pub in_job_id : String

-- The job's action: a text is parsed, an object, an array or null is taken as it is.
unfoldable pub action_of : CronService → Value → Option Value
action_of service (str s) = service.parse_json s
action_of service null = some null
action_of service (arr xs fs) = some (arr xs fs)
action_of service (obj fs) = some (obj fs)
action_of service (boolean b) = none
action_of service (num n) = none

-- jobRequest
abbrev pub job_request : CronConfig → Value → Value
job_request config job = obj (
    field "time" (str config.time_expression) (
      field "name" (str config.job_name) (
        field "description" (str config.job_description)
          (field (if config.job_type == "EVENT REQUEST" then "broker" else "http") job end))))

abbrev read_value : String → Value → Option Value
read_value path message = elim (Base.get path message) [
  | got v ↦ some v
  | unknown_property ↦ none
  | get_type_error ↦ none
]

module _ (service : CronService) where
  -- The wait for _createJob: without an answer its catch throws, and its promise is never settled, until
  -- the executor's timer ends the wait.
  unfoldable pub finish_create : CronConfig → Value → Created → Handled Value
  finish_create config message (job_id id) = write_and_forward config.out_job_id id message
  finish_create config message refused_job = rejected
  finish_create config message no_answer = timed_out

  unfoldable pub create_job : CronConfig → Value → String → Handled Value
  unfolding action_of finish_create
  create_job config message tenant = elim (read_value config.job_action message) [
    | none ↦ rejected
    | some v ↦ elim (action_of service v) [
      | none ↦ rejected
      | some job ↦ finish_create config message (service.create tenant (job_request config job))
    ]
  ]

  unfoldable pub remove_job : CronConfig → Value → String → Handled Value
  remove_job config message tenant = elim (read_value config.in_job_id message) [
    | none ↦ rejected
    | some id ↦ if service.remove tenant id then forwarded message else rejected
  ]

  -- handleMessage of cron
  unfoldable pub handle_message : CronConfig → Value → String → Handled Value
  unfolding create_job remove_job
  handle_message config message tenant =
      if config.operation == "CREATE"
      then create_job config message tenant
      else if config.operation == "REMOVE"
      then remove_job config message tenant
      else rejected

  -- _createMultipleJobs: the ids of all jobs, none if one fails; here an error without an answer rejects.
  unfoldable pub create_all : String → Items → Option Items
  create_all tenant nil = some nil
  create_all tenant (gap jobs) = none
  create_all tenant (cons job jobs) =
      let rest = create_all tenant jobs in
      elim (service.create tenant job) [
        | job_id id ↦ elim rest [ none ↦ none | some ids ↦ some (cons id ids) ]
        | refused_job ↦ none
        | no_answer ↦ none
      ]

  -- _removeMultipleJobs: are all removed?
  unfoldable pub remove_all : String → Items → Bool
  remove_all tenant nil = true
  remove_all tenant (gap ids) = false
  remove_all tenant (cons id ids) =
      let rest = remove_all tenant ids in service.remove tenant id && rest

pub record CronBatchConfig : Type 0 where
  pub operation : String
  -- Is the timeout a number above 0?
  pub has_timeout : Bool
  pub jobs : String
  pub in_job_ids : String
  pub out_job_ids : String

-- `util.isArray`
abbrev items_of : Option Value → Option Items
items_of (some (arr xs fs)) = some xs
items_of _ = none

-- handleMessage of cron-batch
unfoldable pub handle_batch : CronService → CronBatchConfig → Value → String → Handled Value
unfolding create_all remove_all
handle_batch service config message tenant =
    if config.has_timeout
    then (if config.operation == "CREATE"
        then elim (items_of (read_value config.jobs message)) [
          | none ↦ rejected
          | some jobs ↦ elim (create_all service tenant jobs) [
            | none ↦ rejected
            | some ids ↦ write_and_forward config.out_job_ids (arr ids end) message
          ]
        ]
        else if config.operation == "REMOVE"
        then elim (items_of (read_value config.in_job_ids message)) [
          | none ↦ rejected
          | some ids ↦ if remove_all service tenant ids then forwarded message else rejected
        ]
        else rejected)
    else rejected

rejected≢timed_out : ◌≢◌ {A = Handled Value} rejected timed_out
rejected≢timed_out h = cc

forwarded≢timed_out : {m : Value} → forwarded m ≢ timed_out
forwarded≢timed_out h = cc

-- The cron node leaves its promise open only where the service gives no answer to a job.
finish_create-timed_out :
    (service : CronService) (config : CronConfig) (message : Value) (c : Created)
    → finish_create service config message c ≡ timed_out
    → c ≡ no_answer
unfolding finish_create write_and_forward
finish_create-timed_out service config message no_answer h = refl
finish_create-timed_out service config message refused_job h = absurd (rejected≢timed_out h)
finish_create-timed_out service config message (job_id id) h =
    elim (Option-cases (Base.set config.out_job_id id message)) [
      | inl e ↦ absurd (rejected≢timed_out (rw (e, write_and_forward) at h))
      | inr (m, e) ↦ absurd (forwarded≢timed_out (rw (e, write_and_forward) at h))
    ]
