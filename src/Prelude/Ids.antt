-- ===== src/Prelude/Ids.antt =====
-- Selections of ids: `includes`, and the toggling of an id in a selection.
use Prim.Native.String.{String}
use mathlib.Core.Path.{◌≡◌}
use mathlib.Core.Bool.{Bool, true, false, not}
use mathlib.Core.List.{List, [], ◌∷◌, ◌++◌}
use native.Mathlib.Omega.{arith}
use rafineai_self_hosted.Prelude.Tests.{◌===◌, if◌then◌else◌, eq_iff}
use rafineai_self_hosted.Prelude.Lists.{any, filter}

-- xs.includes(id), set.has(id)
abbrev pub includes : String → List String → Bool
includes id = any (λ (x : String). x === id)

-- xs.filter((x) => x !== id), set.delete(id)
abbrev pub without : String → List String → List String
without id = filter (λ (x : String). not (x === id))

-- `includes ? filter : append`, and the same on a Set, which holds an id once.
unfoldable pub toggle_id : String → List String → List String
toggle_id id xs = if includes id xs then without id xs else xs ++ id ∷ []

includes-without :
    (i j : String) (xs : List String)
    → includes j (without i xs) ≡ (if i === j then false else includes j xs)
includes-without i j [] = ground arith
includes-without i j (x ∷ xs) =
    ground (arith, includes-without i j xs, eq_iff x i, eq_iff x j, eq_iff i j)

includes-append :
    (i j : String) (xs : List String)
    → includes j (xs ++ i ∷ []) ≡ (if i === j then true else includes j xs)
includes-append i j [] = ground (arith, eq_iff i j)
includes-append i j (x ∷ xs) = ground (arith, includes-append i j xs, eq_iff x j, eq_iff i j)

-- Toggling turns the membership of its id, and of no other.
pub includes-toggle_id :
    (i j : String) (xs : List String)
    → includes j (toggle_id i xs) ≡ (if i === j then not (includes i xs) else includes j xs)
unfolding toggle_id
includes-toggle_id i j xs =
    ground (arith, includes-without i j xs, includes-append i j xs, eq_iff i j)
