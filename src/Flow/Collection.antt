-- ===== src/Flow/Collection.antt =====
-- The collection of a tenant's flows, which MongoDB keeps: the operations that the flow manager calls,
-- and what it relies on.
use flowbroker.Prelude.{String, ◌≡◌, Option, none, some, List, ◌==◌, if◌then◌else◌}
use flowbroker.Flow.Store.{Document}

pub record Collection (S : Type 0) : Type 1 where
  pub find : S → List Document
  pub find_one : String → S → Option Document
  pub insert : Document → S → S
  pub find_one_and_replace : String → Document → S → S
  pub find_one_and_delete : String → S → S
  pub delete_many : S → S
  -- `find` with `{ devices: id }` and with `{ templates: id }`
  pub find_by_device : String → S → List Document
  pub find_by_template : String → S → List Document
  -- No two documents have one id.
  pub IsUnique : S → Type 0
  pub insert-IsUnique :
      (d : Document) (s : S) → find_one d.id s ≡ none → IsUnique s → IsUnique (insert d s)
  pub replace-IsUnique :
      (d : Document) (s : S) → IsUnique s → IsUnique (find_one_and_replace d.id d s)
  pub delete-IsUnique : (id : String) (s : S) → IsUnique s → IsUnique (find_one_and_delete id s)
  pub delete_many-IsUnique : (s : S) → IsUnique (delete_many s)
  pub find_one-id : (id : String) (d : Document) (s : S) → find_one id s ≡ some d → d.id ≡ id
  pub find_one-insert :
      (d : Document) (s : S) (j : String)
      → find_one d.id s ≡ none
      → find_one j (insert d s) ≡ (if d.id == j then some d else find_one j s)
  pub find_one-replace :
      (d old : Document) (s : S) (j : String)
      → find_one d.id s ≡ some old
      → IsUnique s
      → find_one j (find_one_and_replace d.id d s) ≡ (if d.id == j then some d else find_one j s)
  pub find_one-delete :
      (id : String) (s : S) (j : String)
      → IsUnique s
      → find_one j (find_one_and_delete id s) ≡ (if id == j then none else find_one j s)
  pub find_one-delete_many : (s : S) (j : String) → find_one j (delete_many s) ≡ none
