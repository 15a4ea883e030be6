-- ===== src/Prelude/Text.antt =====
-- Python text: code points with the tests, slices and searches that the program makes.
use Prim.Native.Nat.{ℕ, zero, suc, min, ◌+◌}
use Prim.Native.String.{String, ◌++◌ as ◌<>◌}
use mathlib.Core.List.{List, [], ◌∷◌}
use text.Mathlib.TextLemmas.{nil-append, cons-append}
use mathlib.Core.Path.{◌≡◌, ◌∙◌}
use mathlib.Core.Bool.{Bool, ◌||◌}
use text.Mathlib.Text.{◌==◌ as str_eq, starts_with}
use native.Mathlib.Omega.{arith}

-- `len(s)`
unfoldable pub size : String → ℕ
size String.[] = 0
size (String.◌∷◌ c s) = suc (size s)

-- `s[:n]`
unfoldable pub truncate : ℕ → String → String
truncate zero s = String.[]
truncate (suc n) String.[] = String.[]
truncate (suc n) (String.◌∷◌ c s) = String.◌∷◌ c (truncate n s)

-- A truncated text has at most the number of characters allowed.
pub size-truncate : (n : ℕ) (s : String) → size (truncate n s) ≡ min n (size s)
unfolding size truncate
size-truncate zero s = omega arith
size-truncate (suc n) String.[] = omega arith
size-truncate (suc n) (String.◌∷◌ c s) = omega (arith, size-truncate n s)

-- `t in s`
unfoldable pub contains : String → String → Bool
contains t String.[] = str_eq t ""
contains t (String.◌∷◌ c s) = starts_with (String.◌∷◌ c s) t || contains t s

pub size-append : (s t : String) → size (s <> t) ≡ size s + size t
unfolding size
size-append String.[] t = rw (nil-append t) (omega arith)
size-append (String.◌∷◌ c s) t = rw (cons-append c s t) (omega (arith, size-append s t))

-- `sep.join(texts)`
unfoldable pub join : String → List String → String
join sep [] = String.[]
join sep (s ∷ []) = s
join sep (s ∷ t ∷ rest) = s <> sep <> join sep (t ∷ rest)

pub size-join_cons :
    (sep s t : String) (rest : List String)
    → size (join sep (s ∷ t ∷ rest)) ≡ size s + size sep + size (join sep (t ∷ rest))
unfolding join
size-join_cons sep s t rest =
    size-append s (sep <> join sep (t ∷ rest))
    ∙ omega (arith, size-append sep (join sep (t ∷ rest)))
