-- ===== src/NodeManager/Start/Handlers.antt =====
-- The handlers of a tenant behind the loads of its stored nodes.
use flowbroker.Prelude.{
  String, ◌≡◌, ◌≢◌, refl, sym, ap, ◌∙◌, subst, inl, inr, Option, none, some, List, [], ◌∷◌, In,
}
use flowbroker.Prelude.Dict
use flowbroker.Prelude.Dict.{Dict, get-put_self, get-put_else}
use flowbroker.Prelude.Dict.Keys.{Distinct}
use flowbroker.NodeManager.{Handler, remote}
use flowbroker.NodeManager.Start.{Stored, own_nodes, ids_of}

-- The handlers behind a load.
abbrev pub with_created : String → Option String → Dict Handler → Dict Handler
with_created id none handlers = handlers
with_created id (some container) handlers = Dict.put id (remote container) handlers

-- What `create` resolves with is the name of no node of the tenant.
abbrev pub IsForeign : List String → String → Type 0
IsForeign ids c = (In c ids → ⊥) × (Dict.get c own_nodes ≡ none)

abbrev pub CreatesForeign : List String → Option String → Type 0
CreatesForeign ids none = Unit {0}
CreatesForeign ids (some c) = IsForeign ids c

abbrev pub AllForeign : List String → List Stored → Type 0
AllForeign ids [] = Unit {0}
AllForeign ids (item ∷ items) = CreatesForeign ids item.created × AllForeign ids items

-- The handler of a stored node.
abbrev pub handler_of : Option String → Option Handler → Option Handler
handler_of none before = before
handler_of (some container) before = some (remote container)

pub with_created_self :
    (id : String) (created : Option String) (handlers : Dict Handler)
    → Dict.get id (with_created id created handlers) ≡ handler_of created (Dict.get id handlers)
with_created_self id none handlers = refl
with_created_self id (some container) handlers = get-put_self id (remote container) handlers

pub with_created-else :
    (id : String) (created : Option String) (handlers : Dict Handler) (q : String)
    → id ≢ q
    → Dict.get q (with_created id created handlers) ≡ Dict.get q handlers
with_created-else id none handlers q apart = refl
with_created-else id (some container) handlers q apart =
    get-put_else id q (remote container) handlers apart

pub In-ids_of : (item : Stored) (items : List Stored) → In item items → In item.id (ids_of items)
In-ids_of item [] i = absurd i
In-ids_of item (x ∷ items) (inl e) = inl (ap (λ (y : Stored). y.id) e)
In-ids_of item (x ∷ items) (inr i) = inr (In-ids_of item items i)

-- The handlers of the tenant, none of which has a foreign name.
abbrev pub IsClear : List String → Dict Handler → Type 0
IsClear ids handlers = (c : String) → IsForeign ids c → Dict.get c handlers ≡ none

pub with_created-IsClear :
    (ids : List String) (id : String) (created : Option String) (handlers : Dict Handler)
    → In id ids
    → IsClear ids handlers
    → IsClear ids (with_created id created handlers)
with_created-IsClear ids id none handlers listed clear = clear
with_created-IsClear ids id (some container) handlers listed clear = λ c foreign.
    get-put_else id c (remote container) handlers
      (λ same. foreign.0 (subst (λ x. In x ids) same listed))
    ∙ clear c foreign

unfoldable pub all_created : List Stored → Dict Handler → Dict Handler
all_created [] handlers = handlers
all_created (item ∷ items) handlers = all_created items (with_created item.id item.created handlers)

-- A node that is not among those stored keeps its handler.
pub all_created-else :
    (items : List Stored) (handlers : Dict Handler) (q : String)
    → (In q (ids_of items) → ⊥)
    → Dict.get q (all_created items handlers) ≡ Dict.get q handlers
unfolding all_created
all_created-else [] handlers q out = refl
all_created-else (item ∷ items) handlers q out =
    all_created-else items (with_created item.id item.created handlers) q (λ i. out (inr i))
    ∙ with_created-else item.id item.created handlers q (λ same. out (inl (sym same)))

pub all_created-In :
    (items : List Stored) (handlers : Dict Handler) (item : Stored)
    → Distinct (ids_of items)
    → In item items
    → Dict.get item.id (all_created items handlers)
      ≡ handler_of item.created (Dict.get item.id handlers)
unfolding all_created
all_created-In [] handlers item distinct i = absurd i
all_created-In (x ∷ items) handlers item (new, distinct) (inl e) = rw e (
    all_created-else items (with_created x.id x.created handlers) x.id new
    ∙ with_created_self x.id x.created handlers)
all_created-In (x ∷ items) handlers item (new, distinct) (inr i) =
    all_created-In items (with_created x.id x.created handlers) item distinct i
    ∙ ap (handler_of item.created) (
        with_created-else x.id x.created handlers item.id
          (λ same. new (subst (λ y. In y (ids_of items)) (sym same) (In-ids_of item items i))))
