-- ===== src/Prelude/Dict.antt =====
-- A plain JavaScript object used as a map: string keys in insertion order. An assignment to a key
-- that is there keeps its place, a new key goes to the end.
pub mod Keys
use Prim.Native.String.{String}
use mathlib.Core.Path.{◌≡◌, refl}
use mathlib.Core.Bool.{Bool, true, false}
use mathlib.Core.Option.{Option, none, some}
use mathlib.Core.Logic.{◌≢◌}
use mathlib.Core.List.{List, [], ◌∷◌}
use native.Mathlib.Omega.{arith}
use text.Mathlib.Text.{◌==◌}
use text.Mathlib.TextEquality.{eq_iff}
use flowbroker.Prelude.Bools.{if◌then◌else◌}

abbrev pub Dict {ℓ} : Type ℓ → Type ℓ
Dict V = List (String × V)

module _ {ℓ} {V : Type ℓ} where
  -- `o[k]`, `none` for `undefined`
  unfoldable pub get : String → Dict V → Option V
  get k [] = none
  get k ((j, v) ∷ m) = if j == k then some v else get k m

  -- `o[k] = v`
  unfoldable pub put : String → V → Dict V → Dict V
  put k v [] = (k, v) ∷ []
  put k v ((j, w) ∷ m) = if j == k then (j, v) ∷ m else (j, w) ∷ put k v m

  -- `delete o[k]`
  unfoldable pub remove : String → Dict V → Dict V
  remove k [] = []
  remove k ((j, v) ∷ m) = let rest = remove k m in if j == k then rest else (j, v) ∷ rest

  -- `o.hasOwnProperty(k)`
  unfoldable pub has : String → Dict V → Bool
  has k [] = false
  has k ((j, v) ∷ m) = if j == k then true else has k m

  pub get-put :
      (k j : String) (v : V) (m : Dict V) → get j (put k v m) ≡ (if k == j then some v else get j m)
  unfolding get put
  get-put k j v [] = refl
  get-put k j v ((i, w) ∷ m) = ground (arith, eq_iff k j, eq_iff i k, eq_iff i j, get-put k j v m)

  pub get-remove :
      (k j : String) (m : Dict V) → get j (remove k m) ≡ (if k == j then none else get j m)
  unfolding get remove
  get-remove k j [] = ground arith
  get-remove k j ((i, v) ∷ m) = ground (arith, get-remove k j m, eq_iff i k, eq_iff i j, eq_iff k j)

  abbrev pub is_some : Option V → Bool
  is_some none = false
  is_some (some v) = true

  pub has-eq-is_some : (k : String) (m : Dict V) → has k m ≡ is_some (get k m)
  unfolding has get
  has-eq-is_some k [] = refl
  has-eq-is_some k ((j, v) ∷ m) = ground (arith, has-eq-is_some k m)

  pub get-put_self : (k : String) (v : V) (m : Dict V) → get k (put k v m) ≡ some v
  get-put_self k v m = ground (arith, get-put k k v m, eq_iff k k)

  pub get-put_else : (k j : String) (v : V) (m : Dict V) → k ≢ j → get j (put k v m) ≡ get j m
  get-put_else k j v m h = ground (arith, get-put k j v m, eq_iff k j)

  pub get-remove_self : (k : String) (m : Dict V) → get k (remove k m) ≡ none
  get-remove_self k m = ground (arith, get-remove k k m, eq_iff k k)

  pub get-remove_else : (k j : String) (m : Dict V) → k ≢ j → get j (remove k m) ≡ get j m
  get-remove_else k j m h = ground (arith, get-remove k j m, eq_iff k j)
