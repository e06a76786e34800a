-- ===== src/Prelude/Dict.antt =====
-- Go maps with string keys, as association lists. The order of the entries is the order in which
-- a `range` loop visits them; a theorem about every dictionary is one about every order.
use Prim.Native.String.{String}
use mathlib.Core.Path.{◌≡◌}
use mathlib.Core.Option.{Option, none, some}
use mathlib.Core.List.{List, [], ◌∷◌}
use native.Mathlib.Omega.{arith}
use text.Mathlib.Text.{◌==◌}
use text.Mathlib.TextEquality.{eq_iff}
use onecloudriver.Prelude.Tests.{if◌then◌else◌}

abbrev pub Dict {ℓ} : Type ℓ → Type ℓ
Dict V = List (String × V)

module _ {ℓ} {V : Type ℓ} where
  -- v, ok := m[k]
  unfoldable pub get : Dict V → String → Option V
  get [] k = none
  get ((j, v) ∷ d) k = if j == k then some v else get d k

  -- delete(m, k)
  unfoldable pub remove : Dict V → String → Dict V
  remove [] k = []
  remove ((j, v) ∷ d) k = let rest = remove d k in if j == k then rest else (j, v) ∷ rest

  -- m[k] = v
  unfoldable pub put : Dict V → String → V → Dict V
  put d k v = (k, v) ∷ remove d k

  unfoldable pub keys : Dict V → List String
  keys [] = []
  keys ((k, v) ∷ d) = k ∷ keys d

  -- No key stands twice.
  abbrev pub IsMap : Dict V → Type ℓ
  IsMap [] = Unit
  IsMap ((j, v) ∷ d) = (get d j ≡ none) × IsMap d

  pub get-remove :
      (d : Dict V) (k j : String) → get (remove d k) j ≡ (if k == j then none else get d j)
  unfolding get remove
  get-remove [] k j = ground arith
  get-remove ((i, v) ∷ d) k j = ground (arith, get-remove d k j, eq_iff i k, eq_iff i j, eq_iff k j)

  pub get-put :
      (d : Dict V) (k j : String) (v : V) → get (put d k v) j ≡ (if k == j then some v else get d j)
  unfolding put get
  get-put d k j v = ground (arith, get-remove d k j)

  pub remove-IsMap : (d : Dict V) (k : String) → IsMap d → IsMap (remove d k)
  unfolding remove
  remove-IsMap [] k h = h
  remove-IsMap ((j, v) ∷ d) k h = ground (arith, remove-IsMap d k h.1, get-remove d k j)

  pub put-IsMap : (d : Dict V) (k : String) (v : V) → IsMap d → IsMap (put d k v)
  unfolding put
  put-IsMap d k v h = ground (arith, remove-IsMap d k h, get-remove d k k, eq_iff k k)

pub ruleset dict_laws = (get-remove, get-put)
