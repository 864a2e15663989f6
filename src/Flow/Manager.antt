-- ===== src/Flow/Manager.antt =====
-- FlowManager of orchestrator/flowManager.js over a collection. `ok` says whether the database does
-- what it is asked to; a failing operation changes nothing.
pub mod Laws
use flowbroker.Prelude.{String, Bool, true, false, Option, none, some, List, [], ◌∷◌, if◌then◌else◌}
use flowbroker.Flow.Nodes.{Node}
use flowbroker.Flow.Parse.{ParseError, invalid_flow, type_error}
use flowbroker.Flow.Collection.{Collection}
use flowbroker.Flow.Store
use flowbroker.Flow.Store.{
  Document, Enabled, FlowError, no_label, bad_enabled, bad_flow, parse_error, Written, stored,
  refused,
}

-- How a promise is rejected: with a FlowError of the source, or with another error.
pub data Failure : Type 0 where
  invalid_flow_error : Failure
  unknown_flow_error : (id : String) → Failure
  mongo_error : Failure
  other_error : Failure

pub data Answer (A : Type 0) : Type 0 where
  resolves : A → Answer A
  rejects : Failure → Answer A

-- The error that `create` or `set` rejects with.
unfoldable pub failure_of : FlowError → Failure
failure_of no_label = invalid_flow_error
failure_of bad_enabled = invalid_flow_error
failure_of bad_flow = invalid_flow_error
failure_of (parse_error invalid_flow) = invalid_flow_error
failure_of (parse_error type_error) = other_error

module _ {S : Type 0} (store : Collection S) where
  -- getAll, getByDevice, getByTemplate
  unfoldable pub get_all : Bool → S → Answer (List Document)
  get_all ok s = if ok then resolves (store.find s) else rejects other_error

  unfoldable pub get_by_device : String → Bool → S → Answer (List Document)
  get_by_device id ok s = if ok then resolves (store.find_by_device id s) else rejects other_error

  unfoldable pub get_by_template : String → Bool → S → Answer (List Document)
  get_by_template id ok s =
      if ok then resolves (store.find_by_template id s) else rejects other_error

  -- removeAll
  unfoldable pub remove_all : Bool → S → Answer (Unit {0}) × S
  remove_all ok s = if ok then (resolves tt, store.delete_many s) else (rejects other_error, s)

  -- get
  unfoldable pub get : String → Bool → S → Answer Document
  get id ok s =
      if ok
      then elim (store.find_one id s) [
        | none ↦ rejects (unknown_flow_error id)
        | some flow ↦ resolves flow
      ]
      else rejects other_error

  unfoldable pub insert_written : Written → Bool → S → Answer Document × S
  unfolding failure_of
  insert_written (refused e) ok s = (rejects (failure_of e), s)
  insert_written (stored d) ok s =
      if ok then (resolves d, store.insert d s) else (rejects other_error, s)

  -- create, with the UUID that it draws.
  unfoldable pub create :
      String → Option String → Enabled → Option (List Node) → Bool → S → Answer Document × S
  unfolding insert_written
  create id label enabled flow ok s = insert_written (Store.create id label enabled flow) ok s

  unfoldable pub replace_written : String → Written → Bool → S → Answer Document × S
  unfolding failure_of
  replace_written id (refused e) ok s = (rejects (failure_of e), s)
  replace_written id (stored d) ok s =
      if ok then (resolves d, store.find_one_and_replace id d s) else (rejects mongo_error, s)

  -- set; `found` is for its call of get.
  unfoldable pub set :
      String → Option String → Enabled → Option (List Node) → Bool → Bool → S → Answer Document × S
  unfolding replace_written get
  set id label enabled flow found ok s = elim (get id found s) [
    | rejects e ↦ (rejects e, s)
    | resolves old ↦ replace_written id (Store.set old label enabled flow) ok s
  ]

  -- remove
  unfoldable pub remove : String → Bool → S → Answer Document × S
  remove id ok s =
      if ok
      then elim (store.find_one id s) [
        | none ↦ (rejects (unknown_flow_error id), s)
        | some flow ↦ (resolves flow, store.find_one_and_delete id s)
      ]
      else (rejects other_error, s)
