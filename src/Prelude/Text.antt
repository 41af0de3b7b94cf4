-- ===== src/Prelude/Text.antt =====
-- Texts as the bytes that a std::string holds: their code points, which are ASCII throughout.
use Prim.Native.Char.{code}
use Prim.Native.String.{String}
use Prim.Native.Nat.{ℕ}
use mathlib.Core.Bool.{Bool, true, false, ◌&&◌}
use mathlib.Core.List.{List, [], ◌∷◌}
use mathlib.Core.Path.{◌≡◌, refl}
use native.Mathlib.Omega.{arith}
use flume_ascend_host_bypass.Prelude.Tests.{◌==◌}

abbrev pub codes : String → List ℕ
codes String.[] = []
codes (String.◌∷◌ c s) = code c ∷ codes s

unfoldable pub same_bytes : List ℕ → List ℕ → Bool
same_bytes [] [] = true
same_bytes [] (y ∷ ys) = false
same_bytes (x ∷ xs) [] = false
same_bytes (x ∷ xs) (y ∷ ys) = (x == y) && same_bytes xs ys

pub same_bytes→eq : (xs ys : List ℕ) → same_bytes xs ys ≡ true → xs ≡ ys
unfolding same_bytes
same_bytes→eq [] [] h = refl
same_bytes→eq [] (y ∷ ys) h = cc
same_bytes→eq (x ∷ xs) [] h = cc
same_bytes→eq (x ∷ xs) (y ∷ ys) h = ground (arith, same_bytes→eq xs ys)

pub same_bytes_refl : (xs : List ℕ) → same_bytes xs xs ≡ true
unfolding same_bytes
same_bytes_refl [] = refl
same_bytes_refl (x ∷ xs) = ground (arith, same_bytes_refl xs)
