-- ===== src/Prelude/Sort.antt =====
-- A stable insertion sort, for `order_by` and `list.sort`: it sorts, and keeps the elements.
use Prim.Native.Nat.{◌+◌}
use mathlib.Core.Path.{◌≡◌, refl}
use mathlib.Core.Logic.{inl, inr}
use mathlib.Core.Bool.{Bool, true, false}
use mathlib.Core.List.{List, [], ◌∷◌, map}
use native.Mathlib.Omega.{arith}
use customers_manager_hub.Prelude.Tests.{if◌then◌else◌, bit, Bool-cases}
use customers_manager_hub.Prelude.Lists.{count, All}

module _ {A : Type 0} (before : A → A → Bool) where
  -- `x` goes in front of the first element that does not come before it.
  unfoldable pub insert : A → List A → List A
  insert x [] = x ∷ []
  insert x (y ∷ ys) = if before y x then y ∷ insert x ys else x ∷ y ∷ ys

  unfoldable pub sort : List A → List A
  unfolding insert
  sort [] = []
  sort (x ∷ xs) = insert x (sort xs)

  -- No element comes strictly before one that stands ahead of it.
  abbrev pub IsSorted : List A → Type 0
  IsSorted [] = Unit
  IsSorted (x ∷ xs) = All (λ y. before y x ≡ false) xs × IsSorted xs

  count-insert :
      (p : A → Bool) (x : A) (xs : List A) → count p (insert x xs) ≡ bit (p x) + count p xs
  unfolding insert count
  count-insert p x [] = refl
  count-insert p x (y ∷ ys) = ground (arith, count-insert p x ys)

  pub count-sort : (p : A → Bool) (xs : List A) → count p (sort xs) ≡ count p xs
  unfolding sort count
  count-sort p [] = refl
  count-sort p (x ∷ xs) = omega (arith, count-insert p x (sort xs), count-sort p xs)

  All-insert {κ} : (P : A → Type κ) (x : A) (xs : List A) → P x → All P xs → All P (insert x xs)
  unfolding insert
  All-insert P x [] h k = (h, k)
  All-insert P x (y ∷ ys) h k = elim (Bool-cases (before y x)) [
    | inl e ↦ rw e (k.0, All-insert P x ys h k.1)
    | inr e ↦ rw e (h, k)
  ]

  pub All-sort {κ} : (P : A → Type κ) (xs : List A) → All P xs → All P (sort xs)
  unfolding sort
  All-sort P [] h = h
  All-sort P (x ∷ xs) h = All-insert P x (sort xs) h.0 (All-sort P xs h.1)

  -- The order: irreflexive, and what is not before is carried along.
  module _ (asym : (x y : A) → before x y ≡ true → before y x ≡ false)
      (carry : (x y z : A) → before y x ≡ false → before z y ≡ false → before z x ≡ false) where
    carried :
        (x y : A) (zs : List A)
        → before y x ≡ false
        → All (λ z. before z y ≡ false) zs
        → All (λ z. before z x ≡ false) zs
    carried x y [] e h = tt
    carried x y (z ∷ zs) e h = (carry x y z e h.0, carried x y zs e h.1)

    insert-IsSorted : (x : A) (xs : List A) → IsSorted xs → IsSorted (insert x xs)
    unfolding insert
    insert-IsSorted x [] h = (tt, tt)
    insert-IsSorted x (y ∷ ys) h = elim (Bool-cases (before y x)) [
      | inl e ↦
          rw e
            (All-insert (λ z. before z y ≡ false) x ys (asym y x e) h.0, insert-IsSorted x ys h.1)
      | inr e ↦ rw e ((e, carried x y ys e h.0), h)
    ]

    pub sort-IsSorted : (xs : List A) → IsSorted (sort xs)
    unfolding sort
    sort-IsSorted [] = tt
    sort-IsSorted (x ∷ xs) = insert-IsSorted x (sort xs) (sort-IsSorted xs)

module _ {A B : Type 0} (f : A → B) where
  All-map :
      (P : A → Type 0) (Q : B → Type 0) (xs : List A)
      → ((x : A) → P x → Q (f x))
      → All P xs
      → All Q (map f xs)
  All-map P Q [] k h = tt
  All-map P Q (x ∷ xs) k h = (k x h.0, All-map P Q xs k h.1)

  -- A map keeps a list sorted where it turns no pair around.
  pub IsSorted-map :
      (before : A → A → Bool) (later : B → B → Bool) (xs : List A)
      → ((x y : A) → before y x ≡ false → later (f y) (f x) ≡ false)
      → IsSorted before xs
      → IsSorted later (map f xs)
  IsSorted-map before later [] k h = tt
  IsSorted-map before later (x ∷ xs) k h = (
    All-map (λ y. before y x ≡ false) (λ y. later y (f x) ≡ false) xs (k x) h.0,
    IsSorted-map before later xs k h.1,
  )
