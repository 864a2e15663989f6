-- ===== src/NodeManager/Consistency/Operations.antt =====
-- The operations of the node manager keep what is stored registered.
use flowbroker.Prelude.{
  String, ◌≡◌, refl, sym, ◌∙◌, inl, inr, true, Option, none, some, List, [], ◌∷◌, ◌==◌, In,
  Bool-cases, Option-cases, same_text, some-inj, none≢some,
}
use flowbroker.Prelude.Dict
use flowbroker.Prelude.Dict.{Dict, get-put_self, get-put_else, get-remove_else}
use flowbroker.NodeManager.{
  Handler, local, remote, Managed, DelAnswers, del_remote_node, AddAnswers, delete_one, drop_remote,
  drop_handler, register, start_node, add_remote_node, get_node,
}
use flowbroker.NodeManager.Consistency.{
  Consistent, In-delete_one, Distinct-delete_one, Changes-Consistent, put_collection,
  stored_handler,
}

drop_remote-Consistent :
    (id tenant container : String) (handlers : Dict Handler) (stored : List String) (a : DelAnswers)
    (m : Managed)
    → Dict.get tenant m.nodes ≡ some handlers
    → Dict.get tenant m.collection ≡ some stored
    → a.deleted ≡ true
    → Consistent m
    → Consistent (drop_remote id tenant container handlers stored a m).1
drop_remote-Consistent id tenant container handlers stored a m known opened deleted c =
    let (distinct, out) = Distinct-delete_one id stored (c.once tenant stored opened) in
    Changes-Consistent tenant (Dict.remove id handlers) (delete_one id stored) m _
      (unfold drop_remote in
        rw deleted record {
          nodes = refl;
          collection = put_collection tenant (delete_one id stored) m.collection;
        })
      (λ x i.
        let (y, e) =
          stored_handler tenant x handlers stored m known opened c (In-delete_one id x stored i) in
        (y, get-remove_else id x handlers (out x i) ∙ e))
      distinct c

register-Consistent :
    (id tenant container : String) (handlers : Dict Handler) (a : AddAnswers) (m : Managed)
    → Dict.get tenant m.nodes ≡ some handlers
    → Dict.get id handlers ≡ none
    → Consistent m
    → Consistent (register id tenant container handlers a m).1
register-Consistent id tenant container handlers a m known new c =
    elim (Option-cases (Dict.get tenant m.collection)) [
      | inl e ↦
          Changes-Consistent tenant handlers' [] m _
            (unfold register in
              rw (e, register)
                record {
                  nodes = refl;
                  collection = λ other ids h. elim (same_text tenant other) [
                    | inl same ↦ absurd (none≢some (sym e ∙ rw (← same) at h))
                    | inr ne ↦ inr (ne, h)
                  ];
                })
            (λ x i. absurd i) tt c
      | inr (stored, e) ↦ elim (Bool-cases a.inserted) [
        | inl done ↦
            Changes-Consistent tenant handlers' (id ∷ stored) m _
              (unfold register in
                rw (e, done, register)
                  record {
                    nodes = refl;
                    collection = put_collection tenant (id ∷ stored) m.collection;
                  })
              (λ x i. elim i [
                | inl same ↦ rw same (container, get-put_self id (remote container) handlers)
                | inr j ↦ kept x stored e j
              ])
              (
                λ i.
                    let (y, f) = stored_handler tenant id handlers stored m known e c i in
                    none≢some (sym new ∙ f),
                c.once tenant stored e,
              )
              c
        | inr lost ↦
            Changes-Consistent tenant handlers' stored m _
              (unfold register del_remote_node in
                rw (e, lost, register)
                  record {
                    nodes = refl;
                    collection = λ other ids h. elim (same_text tenant other) [
                      | inl same ↦ inl (same, sym (some-inj (sym e ∙ rw (← same) at h)))
                      | inr ne ↦ inr (ne, h)
                    ];
                  })
              (λ x i. kept x stored e i) (c.once tenant stored e) c
      ]
    ]
  where
    handlers' : Dict Handler
    handlers' = Dict.put id (remote container) handlers

    kept :
        (x : String) (stored : List String)
        → Dict.get tenant m.collection ≡ some stored
        → In x stored
        → (y : String) × (Dict.get x (Dict.put id (remote container) handlers) ≡ some (remote y))
    kept x stored e i =
        let (y, f) = stored_handler tenant x handlers stored m known e c i in
        (
          y,
          get-put_else id x (remote container) handlers
                (λ same. none≢some (sym new ∙ rw (← same) at f))
              ∙ f,
        )

containers-Consistent :
    (cs : List String) (m : Managed) → Consistent m → Consistent (record m { containers = cs })
unfolding get_node
containers-Consistent cs m c = record { registered = c.registered; once = c.once }

-- Nothing is removed for an id that is not registered.
del_unknown-Consistent :
    (id tenant : String) (handlers : Dict Handler) (a : DelAnswers) (m : Managed)
    → Dict.get tenant m.nodes ≡ some handlers
    → Dict.get id handlers ≡ none
    → Consistent m
    → Consistent (del_remote_node id (some tenant) a m).1
unfolding del_remote_node
del_unknown-Consistent id tenant handlers a m known new c =
    elim (Option-cases (Dict.get tenant m.collection)) [
      | inl e ↦ rw (e, del_remote_node) c
      | inr (stored, e) ↦ rw (e, known, new, del_remote_node) c
    ]

start_node-Consistent :
    (id tenant container : String) (handlers : Dict Handler) (a : AddAnswers) (m : Managed)
    → Dict.get tenant m.nodes ≡ some handlers
    → Dict.get id handlers ≡ none
    → Consistent m
    → Consistent (start_node id tenant container handlers a m).1
unfolding start_node
start_node-Consistent id tenant container handlers a m known new c = elim (Bool-cases a.init_ok) [
  | inr i ↦ rw i (unfold del_remote_node in c)
  | inl i ↦ elim (Bool-cases (id == a.name)) [
    | inl n ↦ rw (i, n) (register-Consistent id tenant container handlers a m known new c)
    | inr n ↦ rw (i, n) (del_unknown-Consistent id tenant handlers a.cleanup m known new c)
  ]
]

-- A call of addRemoteNode keeps what is stored registered and stored once, whatever the engine, the new
-- node and the database answer.
pub add_remote_node-Consistent :
    (id tenant : String) (a : AddAnswers) (m : Managed)
    → Consistent m
    → Consistent (add_remote_node id tenant a m).1
unfolding add_remote_node
add_remote_node-Consistent id tenant a m c = elim (Option-cases (Dict.get tenant m.nodes)) [
  | inl e ↦ rw (e, add_remote_node) c
  | inr (handlers, e) ↦ elim (Option-cases (Dict.get id handlers)) [
    | inr (h, f) ↦ rw (e, f, add_remote_node) c
    | inl f ↦ elim (Option-cases a.created) [
      | inl g ↦ rw (e, f, g, add_remote_node) c
      | inr (container, g) ↦
          rw (e, f, g, add_remote_node)
            (start_node-Consistent id tenant container handlers a _ e f
              (containers-Consistent (container ∷ m.containers) m c))
    ]
  ]
]

-- So does a call of delRemoteNode for which the database removes the entry, whether or not the
-- container goes.
pub del_remote_node-Consistent :
    (id : String) (tenant : Option String) (a : DelAnswers) (m : Managed)
    → a.deleted ≡ true
    → Consistent m
    → Consistent (del_remote_node id tenant a m).1
unfolding del_remote_node
del_remote_node-Consistent id none a m deleted c = c
del_remote_node-Consistent id (some tenant) a m deleted c =
    elim (Option-cases (Dict.get tenant m.collection)) [
      | inl e ↦ rw (e, del_remote_node) c
      | inr (stored, e) ↦ elim (Option-cases (Dict.get tenant m.nodes)) [
        | inl f ↦ rw (e, f, del_remote_node) c
        | inr (handlers, f) ↦ elim (Option-cases (Dict.get id handlers)) [
          | inl g ↦ rw (e, f, g, del_remote_node) c
          | inr (local, g) ↦ rw (e, f, g, del_remote_node) (unfold drop_handler in c)
          | inr (remote container, g) ↦
              rw (e, f, g, del_remote_node)
                (unfold drop_handler in
                  drop_remote-Consistent id tenant container handlers stored a m f e deleted c)
        ]
      ]
    ]
