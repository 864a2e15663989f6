-- ===== src/Nodes/CumulativeSum/Runs.antt =====
-- The node's runs over a series of events.
use flowbroker.Prelude.{
  ◌≡◌, refl, sym, ap, ◌∙◌, inl, inr, Option, none, some, List, [], ◌∷◌, ◌++◌, append-nil,
  append_assoc, drop, arith,
}
use flowbroker.Prelude.Int.{ℤ, pos, pos_part, neg_part, ◌+ℤ◌, ◌-ℤ◌, ◌≤ℤ◌, ◌<ℤ◌, int_laws}
use flowbroker.Nodes.CumulativeSum.{
  SumEntry, SumContext, fresh, start_over, expired, add_entry, add_event,
}
use flowbroker.Nodes.CumulativeSum.Window.{
  total, from, Ordered, Positive, InWindow, Ordered-tail, expired-from, not_messy, from-from,
  Ordered-prefix, Ordered-from, Positive-from, from-append, total-append, total_pos,
}

start_over_same : (c : SumContext) → c.sum ≡ total c.entries → Positive c.entries → start_over c ≡ c
unfolding start_over total
start_over_same c summed positive = elim (total_pos c.entries positive) [
  | inl e ↦ let s : c.sum ≡ pos 0 = rw e at summed in ground arith
  | inr more ↦ let m : pos 0 <ℤ c.sum = rw summed more in ground arith
]

Positive-prefix : (xs ys : List SumEntry) → Positive (xs ++ ys) → Positive xs
Positive-prefix [] ys h = tt
Positive-prefix (x ∷ xs) ys h = (h.0, Positive-prefix xs ys h.1)

-- The sum without what is dropped and with what is new.
new_sum :
    (sum dropped left value both : ℤ)
    → sum ≡ dropped +ℤ left
    → both ≡ left +ℤ (value +ℤ pos 0)
    → sum -ℤ dropped +ℤ value ≡ both
new_sum sum dropped left value both e f =
    omega (int_laws, ap pos_part e, ap neg_part e, ap pos_part f, ap neg_part f)

add_entry-InWindow :
    (period t : ℤ) (events : List SumEntry) (e : SumEntry) (c : SumContext)
    → InWindow t events c
    → Ordered (events ++ e ∷ [])
    → pos 0 ≤ℤ period
    → t ≤ℤ e.timestamp -ℤ period
    → (c' : SumContext) × (add_entry period e.timestamp e.value c ≡ some c')
      × InWindow (e.timestamp -ℤ period) (events ++ e ∷ []) c'
unfolding total
add_entry-InWindow period t events e c w ordered nonneg later =
    let low = e.timestamp -ℤ period in
    let kept : Ordered (c.entries ++ e ∷ []) =
      rw w.window (Ordered-from t events (e ∷ []) ordered) in
    let (sums, drops) = expired-from low c.entries (Ordered-prefix c.entries (e ∷ []) kept) in
    let left = from low c.entries in
    let now_in : low ≤ℤ e.timestamp = omega int_laws in
    let both : total (left ++ e ∷ []) ≡ total left +ℤ (e.value +ℤ pos 0) =
      total-append left (e ∷ []) in
    (
      record {
        sum = c.sum -ℤ (expired low c.entries).0 +ℤ e.value;
        entries = drop (expired low c.entries).1 (c.entries ++ e ∷ []);
      },
      unfold add_entry in rw (not_messy c.entries e kept) refl,
      record {
        window =
            drops (e ∷ [])
            ∙ ap (λ xs. xs ++ e ∷ []) (ap (from low) w.window ∙ from-from t low events later)
            ∙ sym (from-append low events e now_in);
        summed =
            new_sum c.sum (expired low c.entries).0 (total left) e.value _ (w.summed ∙ sums) both
            ∙ ap total (sym (drops (e ∷ [])));
      },
    )

add_event-InWindow :
    (period t : ℤ) (events : List SumEntry) (e : SumEntry) (c : SumContext)
    → InWindow t events c
    → Ordered (events ++ e ∷ [])
    → Positive (events ++ e ∷ [])
    → pos 0 ≤ℤ period
    → t ≤ℤ e.timestamp -ℤ period
    → (c' : SumContext) × (add_event period e.timestamp e.value c ≡ some c')
      × InWindow (e.timestamp -ℤ period) (events ++ e ∷ []) c'
add_event-InWindow period t events e c w ordered positive nonneg later =
    let kept : Positive c.entries =
      rw w.window (Positive-from t events (Positive-prefix events (e ∷ []) positive)) in
    let (c', done, w') = add_entry-InWindow period t events e c w ordered nonneg later in
    (c', (unfold add_event in rw (start_over_same c w.summed kept) done), w')

-- The node's runs over events, from a context on; `none` once one is out of order.
unfoldable pub run : ℤ → List SumEntry → SumContext → Option SumContext
run period [] c = some c
run period (e ∷ es) c = elim (add_event period e.timestamp e.value c) [
  | none ↦ none
  | some c' ↦ run period es c'
]

-- The threshold of the last event.
abbrev pub last_threshold : ℤ → ℤ → List SumEntry → ℤ
last_threshold period t [] = t
last_threshold period t (e ∷ es) = last_threshold period (e.timestamp -ℤ period) es

abbrev StartsAfter : ℤ → ℤ → List SumEntry → Type 0
StartsAfter period t [] = Unit
StartsAfter period t (e ∷ es) = t ≤ℤ e.timestamp -ℤ period

starts_later :
    (period : ℤ) (e : SumEntry) (es : List SumEntry)
    → Ordered (e ∷ es)
    → StartsAfter period (e.timestamp -ℤ period) es
starts_later period e [] h = tt
starts_later period e (f ∷ es) h = omega (int_laws, h.0)

run-InWindow :
    (period t : ℤ) (events rest : List SumEntry) (c : SumContext)
    → InWindow t events c
    → Ordered (events ++ rest)
    → Ordered rest
    → Positive (events ++ rest)
    → pos 0 ≤ℤ period
    → StartsAfter period t rest
    → (c' : SumContext) × (run period rest c ≡ some c')
      × InWindow (last_threshold period t rest) (events ++ rest) c'
unfolding run
run-InWindow period t events [] c w ordered ordered' positive nonneg later =
    (c, refl, rw append-nil w)
run-InWindow period t events (e ∷ es) c w ordered ordered' positive nonneg later =
    let regroup = append_assoc events (e ∷ []) es in
    let ordered_here : Ordered ((events ++ e ∷ []) ++ es) = rw regroup ordered in
    let positive_here : Positive ((events ++ e ∷ []) ++ es) = rw regroup positive in
    let (c', done, w') =
      add_event-InWindow period t events e c w (Ordered-prefix (events ++ e ∷ []) es ordered_here)
        (Positive-prefix (events ++ e ∷ []) es positive_here) nonneg later in
    let (c'', done', w'') =
      run-InWindow period (e.timestamp -ℤ period) (events ++ e ∷ []) es c' w' ordered_here
        (Ordered-tail e es ordered') positive_here nonneg (starts_later period e es ordered') in
    (c'', rw (done, run) done', rw regroup at w'')

-- Events with positive values, in the order of their times, from a fresh context on: no run is refused,
-- and behind the last one the context holds exactly the events that are at most a period older than it,
-- and the sum of their values.
pub run-fresh :
    (period : ℤ) (events : List SumEntry)
    → Ordered events
    → Positive events
    → pos 0 ≤ℤ period
    → (c : SumContext) × (run period events fresh ≡ some c)
      × (c.entries ≡ from (last_threshold period (pos 0) events) events)
      × (c.sum ≡ total (from (last_threshold period (pos 0) events) events))
unfolding run from
run-fresh period [] ordered positive nonneg = (fresh, refl, refl, unfold total in refl)
run-fresh period (e ∷ es) ordered positive nonneg =
    let start : InWindow (e.timestamp -ℤ period) [] fresh = record {
      window = refl;
      summed = unfold total in refl;
    } in
    let (c, done, w) =
      run-InWindow period (e.timestamp -ℤ period) [] (e ∷ es) fresh start ordered ordered positive
        nonneg (omega int_laws) in
    (c, done, w.window, w.summed ∙ ap total w.window)

start_over_zero : (c : SumContext) → c.sum ≡ pos 0 → start_over c ≡ fresh
unfolding start_over
start_over_zero c h = ground arith

-- Where the values cancel out, the context starts over: entries of the window are forgotten, and the
-- sum misses them from then on.
pub add_event-zero :
    (period now value : ℤ) (c : SumContext)
    → c.sum ≡ pos 0
    → (c' : SumContext) × (add_event period now value c ≡ some c')
      × (c'.entries ≡ record { timestamp = now; value = value } ∷ [])
      × (c'.sum ≡ value)
unfolding add_entry
add_event-zero period now value c zero_sum = (
  record {
    sum = pos 0 -ℤ pos 0 +ℤ value;
    entries = record { timestamp = now; value = value } ∷ [];
  },
  unfold add_event in rw (start_over_zero c zero_sum) refl,
  refl,
  omega int_laws,
)
