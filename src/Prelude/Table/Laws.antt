-- ===== src/Prelude/Table/Laws.antt =====
-- What writing a loaded row back does to later queries and to counts of rows.
use Prim.Native.Nat.{ℕ, ◌+◌, ◌≤◌}
use mathlib.Core.Path.{◌≡◌, refl, ap, ◌∙◌}
use mathlib.Core.Logic.{◌≢◌, inl, inr}
use mathlib.Core.Bool.{Bool, true, false}
use mathlib.Core.List.{List, [], ◌∷◌, ◌++◌}
use mathlib.Core.Option
use mathlib.Core.Option.{Option, none, some}
use native.Mathlib.Omega.{arith}
use customers_manager_hub.Prelude.Tests.{◌==◌, if◌then◌else◌, bit, ==_iff, Bool-cases, Option-cases}
use customers_manager_hub.Prelude.Lists.{count, count-append, find, length, any, All}
use customers_manager_hub.Prelude.Table.{has_key, update_row, update_if, HasKeys}

none≢some : {A : Type 0} {a : A} → Option.none ≢ Option.some a
none≢some h = cc

module _ {A : Type 0} where
  pub find-append_none :
      (p : A → Bool) (xs ys : List A) → find p xs ≡ none → find p (xs ++ ys) ≡ find p ys
  unfolding find
  find-append_none p [] ys e = refl
  find-append_none p (x ∷ xs) ys e = ground (arith, find-append_none p xs ys)

  pub find-append_some :
      (p : A → Bool) (xs ys : List A) (a : A) → find p xs ≡ some a → find p (xs ++ ys) ≡ some a
  unfolding find
  find-append_some p [] ys a e = ground arith
  find-append_some p (x ∷ xs) ys a e = ground (arith, find-append_some p xs ys a)

  pub count_zero_of_find : (p : A → Bool) (xs : List A) → find p xs ≡ none → count p xs ≡ 0
  unfolding find count
  count_zero_of_find p [] e = refl
  count_zero_of_find p (x ∷ xs) e = ground (arith, count_zero_of_find p xs)

  pub count_pos_of_find : (p : A → Bool) (xs : List A) (a : A) → find p xs ≡ some a → 1 ≤ count p xs
  unfolding find count
  count_pos_of_find p [] a e = ground arith
  count_pos_of_find p (x ∷ xs) a e = ground (arith, count_pos_of_find p xs a)

module _ {A : Type 0} (key : A → ℕ) where
  -- A row that any query finds is the row of its primary key.
  pub find_key :
      (p : A → Bool) (xs : List A) (a : A)
      → HasKeys key xs
      → find p xs ≡ some a
      → find (has_key key (key a)) xs ≡ some a
  unfolding find count
  find_key p [] a h e = ground arith
  find_key p (x ∷ xs) a h e =
      let rest : HasKeys key xs = λ i. ground (arith, h i) in
      ground (arith, h (key a), find_key p xs a rest, count_pos_of_find (has_key key (key a)) xs a)

  pub find-update_row :
      (i j : ℕ) (f : A → A) (xs : List A)
      → ((x : A) → key (f x) ≡ key x)
      → find (has_key key i) (update_row key j f xs)
        ≡ (if j == i then Option.map f (find (has_key key i) xs) else find (has_key key i) xs)
  unfolding find update_row
  find-update_row i j f [] h = ground arith
  find-update_row i j f (x ∷ xs) h = ground (arith, h x, find-update_row i j f xs h)

  pub count-update_row :
      (q : A → Bool) (i : ℕ) (f : A → A) (xs : List A) (a : A)
      → find (has_key key i) xs ≡ some a
      → count q (update_row key i f xs) + bit (q a) ≡ count q xs + bit (q (f a))
  unfolding find count update_row
  count-update_row q i f [] a e = ground arith
  count-update_row q i f (x ∷ xs) a e = ground (arith, count-update_row q i f xs a)

  count_key-update_row :
      (i j : ℕ) (f : A → A) (xs : List A)
      → ((x : A) → key (f x) ≡ key x)
      → count (has_key key j) (update_row key i f xs) ≡ count (has_key key j) xs
  unfolding count update_row
  count_key-update_row i j f [] h = refl
  count_key-update_row i j f (x ∷ xs) h = ground (arith, h x, count_key-update_row i j f xs h)

  pub HasKeys-update_row :
      (i : ℕ) (f : A → A) (xs : List A)
      → ((x : A) → key (f x) ≡ key x)
      → HasKeys key xs
      → HasKeys key (update_row key i f xs)
  HasKeys-update_row i f xs h k j = rw (count_key-update_row i j f xs h) (k j)

  -- A row that a query finds is found in its new form too, where that still answers the query.
  pub find-update_found :
      (p : A → Bool) (f : A → A) (xs : List A) (a : A)
      → HasKeys key xs
      → find p xs ≡ some a
      → p (f a) ≡ true
      → find p (update_row key (key a) f xs) ≡ some (f a)
  unfolding find update_row count
  find-update_found p f [] a h e k = ground arith
  find-update_found p f (x ∷ xs) a h e k =
      let rest : HasKeys key xs = λ i. ground (arith, h i) in
      let again = find_key p xs a rest in
      ground (
        arith,
        h (key a),
        again,
        find-update_found p f xs a rest,
        count_pos_of_find (has_key key (key a)) xs a,
      )

module _ {A : Type 0} where
  -- A query finds nothing where no row answers a weaker one.
  pub none_found :
      (p q : A → Bool) (xs : List A)
      → ((x : A) → p x ≡ true → q x ≡ true)
      → count q xs ≡ 0
      → find p xs ≡ none
  unfolding find count
  none_found p q [] h e = refl
  none_found p q (x ∷ xs) h e = ground (arith, h x, none_found p q xs h)

  pub length-update_row :
      (key : A → ℕ) (i : ℕ) (f : A → A) (xs : List A) → length (update_row key i f xs) ≡ length xs
  unfolding update_row
  length-update_row key i f [] = refl
  length-update_row key i f (x ∷ xs) = ground (arith, length-update_row key i f xs)

module _ {A : Type 0} where
  pub count_zero_of_any : (p : A → Bool) (xs : List A) → any p xs ≡ false → count p xs ≡ 0
  unfolding any count
  count_zero_of_any p [] e = refl
  count_zero_of_any p (x ∷ xs) e = ground (arith, count_zero_of_any p xs)

  -- A row whose value of a column no row has can be added where no value stands twice.
  pub count-fresh :
      {I : Type 0} (p : I → A → Bool) (k : I) (x : A) (xs : List A)
      → ((i : I) → p i x ≡ true → k ≡ i)
      → count (p k) xs ≡ 0
      → ((i : I) → count (p i) xs ≤ 1)
      → (i : I) → count (p i) (xs ++ x ∷ []) ≤ 1
  unfolding count
  count-fresh p k x xs of_key fresh h i = elim (Bool-cases (p i x)) [
    | inl e ↦
        let none_yet : count (p i) xs ≡ 0 = rw (← of_key i e) fresh in
        omega (arith, count-append (p i) xs (x ∷ []), none_yet, ap bit e)
    | inr e ↦ omega (arith, count-append (p i) xs (x ∷ []), h i, ap bit e)
  ]

module _ {A : Type 0} (key : A → ℕ) where
  -- Where an update by a test passes, it changed the row of the key, which passed the test.
  pub update_if-some :
      (i : ℕ) (q : A → Bool) (f : A → A) (xs ys : List A)
      → update_if key i q f xs ≡ some ys
      → (x : A) × (find (has_key key i) xs ≡ some x) × (q x ≡ true) × (ys ≡ update_row key i f xs)
  unfolding update_if
  update_if-some i q f xs ys e = elim (Option-cases (find (has_key key i) xs)) [
    | inl n ↦ absurd (none≢some (rw (n, update_if) at e))
    | inr (x, g) ↦ elim (Bool-cases (q x)) [
      | inr refused ↦ absurd (none≢some (rw (g, update_if, refused) at e))
      | inl passed ↦
          let same : some (update_row key i f xs) ≡ some ys = rw (g, update_if, passed) at e in
          (x, g, passed, cc)
    ]
  ]

  pub update_if-none :
      (i : ℕ) (q : A → Bool) (f : A → A) (xs : List A) (x : A)
      → find (has_key key i) xs ≡ some x
      → q x ≡ false
      → update_if key i q f xs ≡ none
  unfolding update_if
  update_if-none i q f xs x e refused = rw (e, update_if, refused) refl

  pub update_if_passes :
      (i : ℕ) (q : A → Bool) (f : A → A) (xs : List A) (x : A)
      → find (has_key key i) xs ≡ some x
      → q x ≡ true
      → update_if key i q f xs ≡ some (update_row key i f xs)
  unfolding update_if
  update_if_passes i q f xs x e passed = rw (e, update_if, passed) refl

  -- The row of a key after an update of it.
  pub find-updated :
      (i : ℕ) (f : A → A) (xs : List A) (x : A)
      → ((y : A) → key (f y) ≡ key y)
      → find (has_key key i) xs ≡ some x
      → find (has_key key i) (update_row key i f xs) ≡ some (f x)
  find-updated i f xs x h e =
      let itself : (i == i) ≡ true = (==_iff i i).1 refl in
      find-update_row key i i f xs h ∙ rw (itself, e) refl

  -- What holds of each row holds after an update that keeps it.
  pub All-update_row {κ} :
      (P : A → Type κ) (i : ℕ) (f : A → A) (xs : List A)
      → ((x : A) → P x → P (f x))
      → All P xs
      → All P (update_row key i f xs)
  unfolding update_row
  All-update_row P i f [] keep h = tt
  All-update_row P i f (x ∷ xs) keep h = elim (Bool-cases (key x == i)) [
    | inl here ↦ rw (here, update_row) (keep x h.0, h.1)
    | inr other ↦ rw (other, update_row) (h.0, All-update_row P i f xs keep h.1)
  ]

  All-update_found {κ} :
      (P : A → Type κ) (i : ℕ) (f : A → A) (xs : List A) (x : A)
      → find (has_key key i) xs ≡ some x
      → (P x → P (f x))
      → All P xs
      → All P (update_row key i f xs)
  unfolding find update_row
  All-update_found P i f [] x e keep h = tt
  All-update_found P i f (z ∷ xs) x e keep h = elim (Bool-cases (key z == i)) [
    | inl here ↦
        let same : some z ≡ some x = rw (here, find) at e in
        let z_is : z ≡ x = cc in rw (here, update_row) (rw z_is (keep (rw (← z_is) h.0)), h.1)
    | inr other ↦
        rw (other, update_row) (h.0, All-update_found P i f xs x (rw (other, find) at e) keep h.1)
  ]

  -- So too for an update by a test, which may use that the row passes.
  pub All-update_if {κ} :
      (P : A → Type κ) (i : ℕ) (q : A → Bool) (f : A → A) (xs ys : List A)
      → ((x : A) → q x ≡ true → P x → P (f x))
      → update_if key i q f xs ≡ some ys
      → All P xs
      → All P ys
  All-update_if P i q f xs ys keep e h =
      let (x, found, passed, same) = update_if-some i q f xs ys e in
      rw same (All-update_found P i f xs x found (keep x passed) h)
