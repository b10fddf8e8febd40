-- ===== src/PubSub/Maps.antt =====
-- Go's maps with text keys.
use package.text.Mathlib.Text.{◌==◌ as str_eq}
use package.text.Mathlib.TextEquality.{eq_iff}
use Prim.Native.String.{String}
use go_patternx.PubSub.{Dict}
use go_patternx.Base.{Option, ◌∷◌, ◌≡◌, if◌then◌else◌, none, [], some, arith}

module _ {V : Type 0} where
  unfoldable pub find : String → Dict V → Option V
  find k [] = none
  find k ((j, v) ∷ d) = if str_eq j k then some v else find k d

  unfoldable pub put : String → V → Dict V → Dict V
  put k v [] = (k, v) ∷ []
  put k v ((j, w) ∷ d) = if str_eq j k then (j, v) ∷ d else (j, w) ∷ put k v d

  pub find-put :
      (k j : String) (v : V) (d : Dict V)
      → find j (put k v d) ≡ (if str_eq k j then some v else find j d)
  unfolding find put
  find-put k j v [] = ground arith
  find-put k j v ((i, w) ∷ d) = ground (arith, find-put k j v d, eq_iff i k, eq_iff i j, eq_iff k j)
