-- ===== src/Client/Steps.antt =====
-- A request that ends, and one whose lock is granted, keep the invariant.
use flowbroker.Prelude.{
  ℕ, ◌<◌, String, ◌≡◌, refl, sym, ap, ◌∙◌, ◌≢◌, ◌⊎◌, inl, inr, false≢true, true, some, ◌∷◌, In,
  same_text, some-inj,
}
use flowbroker.Prelude.Dict
use flowbroker.Prelude.Dict.{Dict, get-put_else, get-remove_else}
use flowbroker.Client.State.{
  processing, ContextEntry, ResponseTimer, Settlement, Client, cancel, settle, delete_entry,
}
use flowbroker.Client.Invariant.{
  is_waiting, IsSettled, Waits, Inv, In-cancel, get-put_cases, get-remove_cases,
}

same_entry :
    (m : Dict ContextEntry) (id : String) (e e' : ContextEntry)
    → Dict.get id m ≡ some e
    → Dict.get id m ≡ some e'
    → e ≡ e'
same_entry m id e e' h h' = some-inj (sym h ∙ h')

abbrev pub timer_of : ContextEntry → ℕ
timer_of e = e.timer

module _ (c : Client) (inv : Inv c) (id : String) (e : ContextEntry)
    (got : Dict.get id c.context_map ≡ some e) where
  -- The timers that are left are those of other requests.
  owner_is_other : (t : ResponseTimer) → In t (cancel e.timer c.timers) → id ≢ t.request
  owner_is_other t i same =
      let (j, other) = (In-cancel e.timer c.timers t).0 i in
      let o = inv.owned t j in
      let found : Dict.get id c.context_map ≡ some o.entry = rw (← same) at o.found in
      let is : e ≡ o.entry = same_entry c.context_map id e o.entry got found in
      other (sym o.timer_is ∙ sym (ap timer_of is))

  still_watched :
      (j : String) (e' : ContextEntry)
      → id ≢ j
      → Dict.get j c.context_map ≡ some e'
      → is_waiting e'.state ≡ true
      → In (record { id = e'.timer; request = j }) (cancel e.timer c.timers)
  still_watched j e' other g w =
      (In-cancel e.timer c.timers _).1
        (inv.watched j e' g w, λ same. other (inv.own_timer id j e e' got g (sym same)))

  still_accounted :
      (m : Dict ContextEntry) (s : Settlement) (p : ℕ)
      → ((j : String) → id ≢ j → Dict.get j m ≡ Dict.get j c.context_map)
      → p < c.next_promise
      → IsSettled p ((e.promise, s) ∷ c.calls) ⊎ Waits p m
  still_accounted m s p else_same lt = elim (inv.accounted p lt) [
    | inl done ↦ inl (inr done)
    | inr w ↦ elim (same_text id w.request) [
      | inl same ↦
          let found : Dict.get id c.context_map ≡ some w.entry = rw (← same) at w.found in
          let is : e ≡ w.entry = same_entry c.context_map id e w.entry got found in
          inl (inl (sym w.promise_is ∙ sym (ap (λ (x : ContextEntry). x.promise) is)))
      | inr other ↦ inr record {
        request = w.request;
        entry = w.entry;
        found = else_same w.request other ∙ w.found;
        waiting = w.waiting;
        promise_is = w.promise_is;
      }
    ]
  ]

  -- The request ends.
  pub ended-Inv :
      (s : Settlement)
      → Inv (settle e.promise s (delete_entry id (record c { timers = cancel e.timer c.timers })))
  unfolding settle delete_entry
  ended-Inv s = record {
    watched = λ j e' h w.
        let (other, g) = get-remove_cases id j e' c.context_map h in still_watched j e' other g w;
    owned = λ t i.
        let o = inv.owned t ((In-cancel e.timer c.timers t).0 i).0 in
        record {
          entry = o.entry;
          found = get-remove_else id t.request c.context_map (owner_is_other t i) ∙ o.found;
          waiting = o.waiting;
          timer_is = o.timer_is;
        };
    own_timer = λ j j' e' e'' h h'.
        inv.own_timer j j' e' e'' (get-remove_cases id j e' c.context_map h).1
          (get-remove_cases id j' e'' c.context_map h').1;
    numbered = λ j e' h. inv.numbered j e' (get-remove_cases id j e' c.context_map h).1;
    accounted = λ p lt.
        still_accounted (Dict.remove id c.context_map) s p (λ j. get-remove_else id j c.context_map)
          lt;
  }

  -- The lock is held: the request is processed.
  pub held-Inv :
      (s : Settlement)
      → Inv (
          settle e.promise s (record c {
            timers = cancel e.timer c.timers;
            context_map = Dict.put id (record e { state = processing }) c.context_map;
          }))
  unfolding settle
  held-Inv s =
      let held : ContextEntry = record e { state = processing } in
      record {
        watched = λ j e' h w. elim (get-put_cases id j held e' c.context_map h) [
          | inl (same, is) ↦
              absurd (false≢true (ap (λ (x : ContextEntry). is_waiting x.state) is ∙ w))
          | inr (other, g) ↦ still_watched j e' other g w
        ];
        owned = λ t i.
            let o = inv.owned t ((In-cancel e.timer c.timers t).0 i).0 in
            record {
              entry = o.entry;
              found = get-put_else id t.request held c.context_map (owner_is_other t i) ∙ o.found;
              waiting = o.waiting;
              timer_is = o.timer_is;
            };
        own_timer = λ j j' e' e'' h h' eq.
            let (x, g, t) = before j e' h in
            let (x', g', t') = before j' e'' h' in inv.own_timer j j' x x' g g' (t ∙ eq ∙ sym t');
        numbered = λ j e' h. let (x, g, t) = before j e' h in rw t at (inv.numbered j x g);
        accounted = λ p lt.
            still_accounted (Dict.put id held c.context_map) s p
              (λ j. get-put_else id j held c.context_map) lt;
      }
    where
      before :
          (j : String) (e' : ContextEntry)
          → Dict.get j (Dict.put id (record e { state = processing }) c.context_map) ≡ some e'
          → (x : ContextEntry) × (Dict.get j c.context_map ≡ some x) × (x.timer ≡ e'.timer)
      before j e' h =
          elim (get-put_cases id j (record e { state = processing }) e' c.context_map h) [
            | inl (same, is) ↦ (e, rw same at got, ap timer_of is)
            | inr (other, g) ↦ (e', g, refl)
          ]
