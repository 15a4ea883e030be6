-- ===== src/Policy/Normalize/Keywords.antt =====
-- The keywords of a policy that was accepted.
use text.Mathlib.Text.{◌==◌ as str_eq}
use text.Mathlib.TextEquality.{eq_iff}
use customers_manager_hub.Prelude.{
  String, ◌≤◌, ◌≡◌, refl, ap, Bool, false, ◌||◌, ltb, List, [], ◌∷◌, ◌++◌, any, length, count,
  count-append, bit, All, All-append, arith, Bool-cases, inl, inr,
}
use customers_manager_hub.Prelude.Result.{ok, ok_unique, err≢ok}
use customers_manager_hub.Prelude.Text.{size}
use customers_manager_hub.Policy.Normalize.{normalize_each, normalize_handoff_keywords}

-- A keyword has 1 to 80 characters.
abbrev pub IsKeyword : String → Type 0
IsKeyword k = (str_eq k "" ≡ false) × (size k ≤ 80)

-- No keyword is listed twice.
pub record IsKeywordList (ks : List String) : Type 0 where
  pub each : All IsKeyword ks
  pub once : (k : String) → count (str_eq k) ks ≤ 1

count_unlisted :
    (k : String) (ks : List String) → any (str_eq k) ks ≡ false → count (str_eq k) ks ≡ 0
unfolding any count
count_unlisted k [] e = refl
count_unlisted k (x ∷ xs) e = ground (arith, count_unlisted k xs)

add-IsKeywordList :
    (ks : List String) (x : String)
    → IsKeywordList ks
    → IsKeyword x
    → any (str_eq x) ks ≡ false
    → IsKeywordList (ks ++ x ∷ [])
unfolding count
add-IsKeywordList ks x h good new = record {
  each = All-append IsKeyword ks (x ∷ []) h.each (good, tt);
  once = λ k. elim (Bool-cases (str_eq k x)) [
    | inl same ↦
        let unlisted : count (str_eq k) ks ≡ 0 =
          rw ((eq_iff k x).0 same) (count_unlisted x ks new) in
        omega (arith, count-append (str_eq k) ks (x ∷ []), unlisted, ap bit same)
    | inr differs ↦ omega (arith, count-append (str_eq k) ks (x ∷ []), h.once k, ap bit differs)
  ];
}

module _ (strip casefold : String → String) (is_zone : String → Bool) where
  each-IsKeywordList :
      (normalized value ks : List String)
      → IsKeywordList normalized
      → normalize_each strip casefold is_zone normalized value ≡ ok ks
      → IsKeywordList ks
  unfolding normalize_each
  each-IsKeywordList normalized [] ks h e = rw (← ok_unique refl e) h
  each-IsKeywordList normalized (raw ∷ rest) ks h e =
      let x = casefold (strip raw) in
      elim (Bool-cases (str_eq x "" || ltb 80 (size x))) [
        | inl bad ↦ absurd (err≢ok (rw (bad, normalize_each) at e))
        | inr good ↦ elim (Bool-cases (any (str_eq x) normalized)) [
          | inl seen ↦
              each-IsKeywordList normalized rest ks h (rw (good, normalize_each, seen) at e)
          | inr new ↦
              let keyword : IsKeyword x = (ground arith, ground arith) in
              each-IsKeywordList (normalized ++ x ∷ []) rest ks
                (add-IsKeywordList normalized x h keyword new) (rw (good, normalize_each, new) at e)
        ]
      ]

  -- Keywords that are accepted have 1 to 80 characters each, and none is listed twice.
  pub keywords-IsKeywordList :
      (value ks : List String)
      → normalize_handoff_keywords strip casefold is_zone value ≡ ok ks
      → IsKeywordList ks
  unfolding normalize_handoff_keywords count
  keywords-IsKeywordList value ks e = elim (Bool-cases (ltb 50 (length value))) [
    | inl many ↦ absurd (err≢ok (rw (many, normalize_handoff_keywords) at e))
    | inr few ↦
        each-IsKeywordList [] value ks (record { each = tt; once = λ k. omega arith })
          (rw (few, normalize_handoff_keywords) at e)
  ]
