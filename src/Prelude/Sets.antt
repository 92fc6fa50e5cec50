-- ===== src/Prelude/Sets.antt =====
-- Python's `set` of texts, as a list.
use Prim.Native.String.{String}
use mathlib.Core.Path.{◌≡◌}
use mathlib.Core.Bool.{Bool, true, false}
use mathlib.Core.List.{List, [], ◌∷◌}
use native.Mathlib.Omega.{arith}
use text.Mathlib.Text.{◌==◌}
use text.Mathlib.TextEquality.{eq_iff}
use execution_engine_multi.Prelude.Tests.{if◌then◌else◌}

-- `x in xs`
abbrev pub member : String → List String → Bool
member x [] = false
member x (y ∷ ys) = if y == x then true else member x ys

-- `set.add` and `set.discard`
abbrev pub set_add : String → List String → List String
set_add x xs = if member x xs then xs else x ∷ xs

abbrev pub discard : String → List String → List String
discard x [] = []
discard x (y ∷ ys) = let rest = discard x ys in if y == x then rest else y ∷ rest

pub member-set_add :
    (x y : String) (xs : List String)
    → member x (set_add y xs) ≡ (if y == x then true else member x xs)
member-set_add x y xs = ground (arith, eq_iff y x)

pub member-discard :
    (x y : String) (xs : List String)
    → member x (discard y xs) ≡ (if y == x then false else member x xs)
member-discard x y [] = ground (arith, eq_iff y x)
member-discard x y (z ∷ xs) =
    ground (arith, eq_iff y x, eq_iff z y, eq_iff z x, member-discard x y xs)
