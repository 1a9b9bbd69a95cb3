-- ===== src/Base/Bytes.antt =====
-- Texts as lists of bytes.
use Prim.Native.Nat.{ℕ}
use mathlib.Core.Path.{◌≡◌, refl}
use mathlib.Core.Bool.{Bool, true, false}
use mathlib.Core.List.{List, [], ◌∷◌}
use native.Mathlib.Omega.{arith}
use tymux.Base.Tests.{◌==◌, if◌then◌else◌}

abbrev pub Bytes : Type 0
Bytes = List ℕ

abbrev pub bytes_eq : Bytes → Bytes → Bool
bytes_eq [] [] = true
bytes_eq [] (y ∷ ys) = false
bytes_eq (x ∷ xs) [] = false
bytes_eq (x ∷ xs) (y ∷ ys) = let rest = bytes_eq xs ys in if x == y then rest else false

pub bytes_eq_self : (xs : Bytes) → bytes_eq xs xs ≡ true
bytes_eq_self [] = refl
bytes_eq_self (x ∷ xs) = ground (arith, bytes_eq_self xs)

pub bytes_eq-eq : (a b : Bytes) → bytes_eq a b ≡ true → a ≡ b
bytes_eq-eq [] [] h = refl
bytes_eq-eq [] (y ∷ b) h = ground arith
bytes_eq-eq (x ∷ a) [] h = ground arith
bytes_eq-eq (x ∷ a) (y ∷ b) h = ground (arith, bytes_eq-eq a b)

pub bytes_eq_comm : (xs ys : Bytes) → bytes_eq xs ys ≡ bytes_eq ys xs
bytes_eq_comm [] [] = refl
bytes_eq_comm [] (y ∷ ys) = refl
bytes_eq_comm (x ∷ xs) [] = refl
bytes_eq_comm (x ∷ xs) (y ∷ ys) = ground (arith, bytes_eq_comm xs ys)
