-- ===== src/Base/Maps.antt =====
-- Maps as association lists, with one entry for a key.
use Prim.Native.Nat.{ℕ}
use mathlib.Core.Path.{◌≡◌, refl}
use mathlib.Core.Option.{Option, none, some}
use mathlib.Core.List.{List, [], ◌∷◌}
use native.Mathlib.Omega.{arith}
use tymux.Base.Tests.{◌==◌, if◌then◌else◌}

module _ {V : Type 0} where
  abbrev pub get : List (ℕ × V) → ℕ → Option V
  get [] id = none
  get ((k, v) ∷ rest) id = if k == id then some v else get rest id

  abbrev pub insert : List (ℕ × V) → ℕ → V → List (ℕ × V)
  insert [] id v = (id, v) ∷ []
  insert ((k, w) ∷ rest) id v = if k == id then (k, v) ∷ rest else (k, w) ∷ insert rest id v

  abbrev pub remove : List (ℕ × V) → ℕ → List (ℕ × V)
  remove [] id = []
  remove ((k, w) ∷ rest) id = if k == id then remove rest id else (k, w) ∷ remove rest id

  pub get-insert :
      (entries : List (ℕ × V)) (k j : ℕ) (v : V)
      → get (insert entries k v) j ≡ (if k == j then some v else get entries j)
  get-insert [] k j v = ground arith
  get-insert ((i, w) ∷ rest) k j v = ground (arith, get-insert rest k j v)

  pub get-remove :
      (entries : List (ℕ × V)) (k j : ℕ)
      → get (remove entries k) j ≡ (if k == j then none else get entries j)
  get-remove [] k j = ground arith
  get-remove ((i, w) ∷ rest) k j = ground (arith, get-remove rest k j)

  -- Each id has one entry.
  abbrev pub IsKeyed : List (ℕ × V) → Type 0
  IsKeyed [] = Unit {0}
  IsKeyed ((k, v) ∷ rest) = (get rest k ≡ none) × IsKeyed rest

  pub insert-IsKeyed :
      (entries : List (ℕ × V)) (k : ℕ) (v : V) → IsKeyed entries → IsKeyed (insert entries k v)
  insert-IsKeyed [] k v h = (refl, tt)
  insert-IsKeyed ((i, w) ∷ rest) k v h =
      ground (arith, insert-IsKeyed rest k v, get-insert rest k i v)
