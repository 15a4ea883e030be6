-- ===== src/Prelude/Table/Pointwise.antt =====
-- Two tables row by row, and an update of one row.
use mathlib.Core.Path.{◌≡◌}
use mathlib.Core.Logic.{inl, inr}
use mathlib.Core.Bool.{Bool, true}
use mathlib.Core.List.{List, [], ◌∷◌}
use mathlib.Core.Option.{some}
use Prim.Native.Nat.{ℕ}
use customers_manager_hub.Prelude.Tests.{◌==◌, Bool-cases}
use customers_manager_hub.Prelude.Lists.{All, find}
use customers_manager_hub.Prelude.Table.{has_key, update_row, update_if}
use customers_manager_hub.Prelude.Table.Laws.{update_if-some}

module _ {A : Type 0} (R : A → A → Type 0) where
  -- The rows stand in the relation one by one: none is added or lost.
  abbrev pub Pointwise : List A → List A → Type 0
  Pointwise [] [] = Unit {0}
  Pointwise [] (y ∷ ys) = ⊥
  Pointwise (x ∷ xs) [] = ⊥
  Pointwise (x ∷ xs) (y ∷ ys) = R x y × Pointwise xs ys

  module _ (same : (x : A) → R x x) where
    pub refl-Pointwise : (xs : List A) → Pointwise xs xs
    refl-Pointwise [] = tt
    refl-Pointwise (x ∷ xs) = (same x, refl-Pointwise xs)

    update_row-Pointwise :
        (key : A → ℕ) (i : ℕ) (f : A → A) (P : A → Type 0) (xs : List A) (x : A)
        → find (has_key key i) xs ≡ some x
        → (P x → R x (f x))
        → All P xs
        → Pointwise xs (update_row key i f xs)
    unfolding find update_row
    update_row-Pointwise key i f P [] x e moves h = tt
    update_row-Pointwise key i f P (z ∷ xs) x e moves h = elim (Bool-cases (key z == i)) [
      | inl here ↦
          let same_row : some z ≡ some x = rw (here, find) at e in
          let z_is : z ≡ x = cc in
          rw (here, update_row) (rw z_is (moves (rw (← z_is) h.0)), refl-Pointwise xs)
      | inr other ↦
          rw (other, update_row)
            (same z, update_row-Pointwise key i f P xs x (rw (other, find) at e) moves h.1)
    ]

    -- An update by a test changes at most one row, which passes the test.
    pub update_if-Pointwise :
        (key : A → ℕ) (i : ℕ) (q : A → Bool) (f : A → A) (P : A → Type 0) (xs ys : List A)
        → ((x : A) → q x ≡ true → P x → R x (f x))
        → update_if key i q f xs ≡ some ys
        → All P xs
        → Pointwise xs ys
    update_if-Pointwise key i q f P xs ys moves e h =
        let (x, found, passed, same_table) = update_if-some key i q f xs ys e in
        rw same_table (update_row-Pointwise key i f P xs x found (moves x passed) h)
