-- ===== src/Contexts.antt =====
-- lib/ContextHandler.js: the names of contexts by layer, over the client of the context manager.
pub mod Names
mod Tests
use Prim.Native.String.{◌++◌}
use flowbroker.Prelude.{String, Bool, true, false}
use flowbroker.Client.State.{ContextLockMode, rlock, wlock, lock_unlock, Client}
use flowbroker.Client.Requests.{lock_and_get_context, unlock_context}

-- The layers, and the name that the methods of each layer give to a context.
pub data Layer : Type 0 where
  tenant_layer : (tenant : String) → Layer
  flow_layer : (tenant flow_id : String) → Layer
  node_layer : (tenant flow_id node_id : String) → Layer
  instance_layer : (tenant flow_id node_id node_instance : String) → Layer

abbrev tenant_path : String → String → String
tenant_path tenant name = tenant ++ "/" ++ name

abbrev flow_path : String → String → String → String
flow_path tenant flow_id name = tenant ++ "/" ++ flow_id ++ "/" ++ name

abbrev node_path : String → String → String → String → String
node_path tenant flow_id node_id name = tenant ++ "/" ++ flow_id ++ "/" ++ node_id ++ "/" ++ name

abbrev instance_path : String → String → String → String → String → String
instance_path tenant flow_id node_id node_instance name =
    tenant ++ "/" ++ flow_id ++ "/" ++ node_id ++ "/" ++ node_instance ++ "/" ++ name

unfoldable pub context_path : Layer → String → String
context_path (tenant_layer tenant) name = tenant_path tenant name
context_path (flow_layer tenant flow_id) name = flow_path tenant flow_id name
context_path (node_layer tenant flow_id node_id) name = node_path tenant flow_id node_id name
context_path (instance_layer tenant flow_id node_id node_instance) name =
    instance_path tenant flow_id node_id node_instance name

-- rlockAndGet*Context, wlockAndGet*Context and get*Context, by layer. `id` is the UUID that the client
-- draws.
unfoldable pub rlock_and_get : Layer → String → String → Client → Client
unfolding context_path
rlock_and_get layer name id c = lock_and_get_context id (context_path layer name) rlock c

unfoldable pub wlock_and_get : Layer → String → String → Client → Client
unfolding context_path
wlock_and_get layer name id c = lock_and_get_context id (context_path layer name) wlock c

unfoldable pub get_context : Layer → String → String → Client → Client
unfolding context_path
get_context layer name id c = lock_and_get_context id (context_path layer name) lock_unlock c

-- saveAndUnlockContext and unlockContext.
unfoldable pub save_and_unlock_context : String → String → Client → Client
save_and_unlock_context id content c = unlock_context id true content c

unfoldable pub unlock_only : String → Client → Client
unlock_only id c = unlock_context id false "" c
