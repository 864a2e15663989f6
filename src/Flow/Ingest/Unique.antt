-- ===== src/Flow/Ingest/Unique.antt =====
-- Each flow that an event belongs to is handled once.
use flowbroker.Prelude.{
  ℕ, String, ◌≡◌, refl, ◌⊎◌, inl, inr, List, [], ◌∷◌, ◌++◌, ◌==◌, eq_iff, In, Bool-cases,
}
use flowbroker.Prelude.Dict
use flowbroker.Prelude.Dict.{Dict}
use flowbroker.Prelude.Dict.Keys.{
  Distinct, keys, values, Distinct-put, keys-put_new, keys-put_keeps,
}
use flowbroker.Flow.Ingest.{
  Flow, Task, Event, handle_flow, collect_flows, unique_flows, handle_flows, handle_event,
}

abbrev pub ids : List Flow → List String
ids [] = []
ids (f ∷ fs) = f.id ∷ ids fs

-- What the flows send, one after the other.
abbrev pub sent_by : ℕ → Event → List Flow → List Task
sent_by n ev [] = []
sent_by n ev (f ∷ fs) = (handle_flow n f ev).tasks ++ sent_by n ev fs

-- The flow is in one of the lists.
abbrev pub IsFound : Flow → List (List Flow) → Type 0
IsFound f [] = ⊥
IsFound f (flows ∷ lists) = In f flows ⊎ IsFound f lists

-- `flows` are flows that were found, with each id that was found, and each id once.
pub record Once (found : List (List Flow)) (flows : List Flow) : Type 0 where
  pub sound : (f : Flow) → In f flows → IsFound f found
  pub complete : (f : Flow) → IsFound f found → In f.id (ids flows)
  pub distinct : Distinct (ids flows)

-- A flow stands under its id.
abbrev Named : Dict Flow → Type 0
Named [] = Unit
Named ((k, f) ∷ m) = (k ≡ f.id) × Named m

Named-put : (f : Flow) (m : Dict Flow) → Named m → Named (Dict.put f.id f m)
unfolding Dict.put
Named-put f [] h = (refl, tt)
Named-put f ((k, g) ∷ m) (e, h) = elim (Bool-cases (k == f.id)) [
  | inl same ↦ rw same ((eq_iff k f.id).0 same, h)
  | inr other ↦ rw other (e, Named-put f m h)
]

values-put :
    (k : String) (f : Flow) (m : Dict Flow) (g : Flow)
    → In g (values (Dict.put k f m))
    → (g ≡ f) ⊎ In g (values m)
unfolding Dict.put
values-put k f [] g (inl e) = inl e
values-put k f [] g (inr i) = absurd i
values-put k f ((j, h) ∷ m) g i = elim (Bool-cases (j == k)) [
  | inl same ↦ elim (let x : In g (f ∷ values m) = rw same at i in x) [
    | inl e ↦ inl e
    | inr y ↦ inr (inr y)
  ]
  | inr other ↦ elim (let x : In g (h ∷ values (Dict.put k f m)) = rw other at i in x) [
    | inl e ↦ inr (inl e)
    | inr y ↦ elim (values-put k f m g y) [ inl e ↦ inl e | inr z ↦ inr (inr z) ]
  ]
]

ids-values : (m : Dict Flow) → Named m → ids (values m) ≡ keys m
ids-values [] h = refl
ids-values ((k, f) ∷ m) (e, h) = cc (e, ids-values m h)

-- What the flows put into `m` make of it.
record Gathered (IsNew : Flow → Type 0) (m m' : Dict Flow) : Type 0 where
  named : Named m'
  distinct : Distinct (keys m')
  sound : (f : Flow) → In f (values m') → IsNew f ⊎ In f (values m)
  complete : (f : Flow) → IsNew f → In f.id (keys m')
  kept : (k : String) → In k (keys m) → In k (keys m')

collect_flows-Gathered :
    (fs : List Flow) (m : Dict Flow)
    → Named m
    → Distinct (keys m)
    → Gathered (λ f. In f fs) m (collect_flows fs m)
unfolding collect_flows
collect_flows-Gathered [] m n d = record {
  named = n;
  distinct = d;
  sound = λ f i. inr i;
  complete = λ f i. absurd i;
  kept = λ k i. i;
}
collect_flows-Gathered (x ∷ fs) m n d =
    let rest =
      collect_flows-Gathered fs (Dict.put x.id x m) (Named-put x m n) (Distinct-put x.id x m d) in
    record {
      named = rest.named;
      distinct = rest.distinct;
      sound = λ f i. elim (rest.sound f i) [
        | inl j ↦ inl (inr j)
        | inr j ↦ elim (values-put x.id x m f j) [ inl e ↦ inl (inl e) | inr k ↦ inr k ]
      ];
      complete = λ f i. elim i [
        | inl e ↦ rw e (rest.kept x.id (keys-put_new x.id x m))
        | inr j ↦ rest.complete f j
      ];
      kept = λ k i. rest.kept k (keys-put_keeps x.id x m k i);
    }

unique_flows-Gathered :
    (found : List (List Flow)) (m : Dict Flow)
    → Named m
    → Distinct (keys m)
    → Gathered (λ f. IsFound f found) m (unique_flows found m)
unfolding unique_flows
unique_flows-Gathered [] m n d = record {
  named = n;
  distinct = d;
  sound = λ f i. inr i;
  complete = λ f i. absurd i;
  kept = λ k i. i;
}
unique_flows-Gathered (fs ∷ found) m n d =
    let here = collect_flows-Gathered fs m n d in
    let rest = unique_flows-Gathered found (collect_flows fs m) here.named here.distinct in
    record {
      named = rest.named;
      distinct = rest.distinct;
      sound = λ f i. elim (rest.sound f i) [
        | inl j ↦ inl (inr j)
        | inr j ↦ elim (here.sound f j) [ inl k ↦ inl (inl k) | inr k ↦ inr k ]
      ];
      complete =
          λ f i. elim i [ inl j ↦ rest.kept f.id (here.complete f j) | inr j ↦ rest.complete f j ];
      kept = λ k i. rest.kept k (here.kept k i);
    }

handle_flows-sent_by :
    (n : ℕ) (ev : Event) (m : Dict Flow) → handle_flows n ev m ≡ sent_by n ev (values m)
unfolding handle_flows
handle_flows-sent_by n ev [] = refl
handle_flows-sent_by n ev ((k, f) ∷ m) = cc (handle_flows-sent_by n ev m)

-- The tasks of an event are those that some flows send, one after the other: flows that were found
-- for the event's device or for one of its templates, with every id that was found, and no id twice.
pub handle_event-Once :
    (task_queues : ℕ) (ev : Event) (found : List (List Flow))
    → (flows : List Flow) × Once found flows
      × (handle_event task_queues ev found ≡ sent_by task_queues ev flows)
unfolding handle_event
handle_event-Once task_queues ev found =
    let g = unique_flows-Gathered found [] tt tt in
    let named = ids-values (unique_flows found []) g.named in
    (
      values (unique_flows found []),
      record {
        sound = λ f i. elim (g.sound f i) [ inl j ↦ j | inr j ↦ absurd j ];
        complete = λ f i. rw named (g.complete f i);
        distinct = rw named g.distinct;
      },
      handle_flows-sent_by task_queues ev (unique_flows found []),
    )
