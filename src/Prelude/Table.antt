-- ===== src/Prelude/Table.antt =====
-- A database table as the list of its rows, each with a primary key: loading a row by a query and
-- writing the loaded row back under its key.
pub mod Laws
pub mod Pointwise
use Prim.Native.Nat.{ℕ, ◌≤◌}
use mathlib.Core.Bool.{Bool}
use mathlib.Core.List.{List, [], ◌∷◌}
use customers_manager_hub.Prelude.Tests.{◌==◌, if◌then◌else◌}
use mathlib.Core.Option.{Option, none, some}
use customers_manager_hub.Prelude.Lists.{count, find}

module _ {A : Type 0} (key : A → ℕ) where
  -- The row of a primary key.
  abbrev pub has_key : ℕ → A → Bool
  has_key i x = key x == i

  -- `UPDATE … WHERE id = i` of one loaded row.
  unfoldable pub update_row : ℕ → (A → A) → List A → List A
  update_row i f [] = []
  update_row i f (x ∷ xs) = if key x == i then f x ∷ xs else x ∷ update_row i f xs

  -- `UPDATE … WHERE id = i AND q`, which returns the row's key: nothing where no row passes.
  unfoldable pub update_if : ℕ → (A → Bool) → (A → A) → List A → Option (List A)
  update_if i q f xs = elim (find (has_key i) xs) [
    | none ↦ none
    | some x ↦ if q x then some (update_row i f xs) else none
  ]

  -- No primary key is listed twice.
  abbrev pub HasKeys : List A → Type 0
  HasKeys xs = (i : ℕ) → count (has_key i) xs ≤ 1
