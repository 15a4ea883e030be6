-- ===== src/Policy/Hours/Windows.antt =====
-- Business hours that were accepted: their windows are proper, stay within the day and do not overlap.
use Prim.Native.Char.{Char}
use customers_manager_hub.Prelude.{
  ℕ, ◌<◌, ◌≤◌, ◌≡◌, refl, ◌&&◌, not, ltb, leb, Option, List, [], ◌∷◌, any, map, All, arith,
  Option-cases, Bool-cases, inl, inr,
}
use customers_manager_hub.Prelude.Result.{ok, err≢ok, ok_unique, bind_ok}
use text.Mathlib.Text.{◌==◌ as str_eq}
use customers_manager_hub.Json.{Json, null, boolean, number, string, array, object, keys, get}
use customers_manager_hub.Policy.Hours.{
  ParsedWindow, BusinessWindow, parse_clock, parse_window, read_window, parse_windows,
  check_overlap, business_window, business_windows,
}

-- Windows that follow each other from the minute `from` on, each with an end after its start and none
-- after 23:59.
abbrev pub IsDayPlan : ℕ → List BusinessWindow → Type 0
IsDayPlan from [] = Unit
IsDayPlan from (w ∷ ws) =
    (from ≤ w.start_minute)
    × (w.start_minute < w.end_minute)
    × (w.end_minute ≤ 1439)
    × IsDayPlan w.end_minute ws

module _ (digit : Char → Option ℕ) where
  -- What parsing a window establishes.
  pub record IsParsed (w : ParsedWindow) : Type 0 where
    pub start_read : parse_clock digit w.start_raw ≡ ok w.start
    pub finish_read : parse_clock digit w.finish_raw ≡ ok w.finish
    pub proper : w.start < w.finish

  clock_bound : (x : Json) (m : ℕ) → parse_clock digit x ≡ ok m → m ≤ 1439
  unfolding parse_clock
  clock_bound (string s) m e = ground arith
  clock_bound null m e = absurd (err≢ok e)
  clock_bound (boolean b) m e = absurd (err≢ok e)
  clock_bound (number n) m e = absurd (err≢ok e)
  clock_bound (array xs) m e = absurd (err≢ok e)
  clock_bound (object fs) m e = absurd (err≢ok e)

  window_read : (a b : Json) (w : ParsedWindow) → read_window digit a b ≡ ok w → IsParsed w
  unfolding read_window
  window_read a b w e =
      let (start, f, rest) = bind_ok (parse_clock digit a) _ w e in
      let (finish, g, last) = bind_ok (parse_clock digit b) _ w rest in
      elim (Bool-cases (leb finish start)) [
        | inl late ↦ absurd (err≢ok (rw late at last))
        | inr fine ↦
            rw (← ok_unique refl (rw fine at last))
              (record { start_read = f; finish_read = g; proper = ground arith })
      ]

  parse_window-IsParsed : (x : Json) (w : ParsedWindow) → parse_window digit x ≡ ok w → IsParsed w
  unfolding parse_window
  parse_window-IsParsed (object fs) w e = elim (Option-cases (get fs "start")) [
    | inl n ↦ absurd (err≢ok (rw (n, parse_window) at e))
    | inr (a, f) ↦ elim (Option-cases (get fs "end")) [
      | inl n ↦ absurd (err≢ok (rw (f, parse_window, n) at e))
      | inr (b, g) ↦
          elim (Bool-cases (any (λ k. not (str_eq k "start") && not (str_eq k "end")) (keys fs))) [
            | inl more ↦ absurd (err≢ok (rw (f, parse_window, g, more) at e))
            | inr only ↦ window_read a b w (rw (f, parse_window, g, only) at e)
          ]
    ]
  ]
  parse_window-IsParsed (string s) w e = absurd (err≢ok e)
  parse_window-IsParsed null w e = absurd (err≢ok e)
  parse_window-IsParsed (boolean b) w e = absurd (err≢ok e)
  parse_window-IsParsed (number n) w e = absurd (err≢ok e)
  parse_window-IsParsed (array xs) w e = absurd (err≢ok e)

  pub parse_windows-IsParsed :
      (xs : List Json) (ws : List ParsedWindow) → parse_windows digit xs ≡ ok ws → All IsParsed ws
  unfolding parse_windows
  parse_windows-IsParsed [] ws e = rw (← ok_unique refl e) tt
  parse_windows-IsParsed (x ∷ xs) ws e =
      let (w, f, rest) = bind_ok (parse_window digit x) _ ws e in
      let (ws', g, last) = bind_ok (parse_windows digit xs) _ ws rest in
      rw (← ok_unique refl last) (parse_window-IsParsed x w f, parse_windows-IsParsed xs ws' g)

  abbrev pub minutes : ParsedWindow → BusinessWindow
  minutes w = record { start_minute = w.start; end_minute = w.finish }

  business_window-IsParsed :
      (w : ParsedWindow) → IsParsed w → business_window digit w ≡ ok (minutes w)
  unfolding business_window
  business_window-IsParsed w h = rw (h.start_read, business_window, h.finish_read) refl

  -- The stored windows are read back as they were accepted.
  pub business_windows-IsParsed :
      (ws : List ParsedWindow) → All IsParsed ws → business_windows digit ws ≡ ok (map minutes ws)
  unfolding business_windows
  business_windows-IsParsed [] h = refl
  business_windows-IsParsed (w ∷ ws) h =
      rw (business_window-IsParsed w h.0, business_windows, business_windows-IsParsed ws h.1) refl

  pub check_overlap-IsDayPlan :
      (from : ℕ) (ws : List ParsedWindow)
      → All IsParsed ws
      → check_overlap digit from ws ≡ ok tt
      → IsDayPlan from (map minutes ws)
  unfolding check_overlap
  check_overlap-IsDayPlan from [] h e = tt
  check_overlap-IsDayPlan from (w ∷ ws) h e = elim (Bool-cases (ltb w.start from)) [
    | inl early ↦ absurd (err≢ok (rw (early, check_overlap) at e))
    | inr fine ↦ (
      ground arith,
      h.0.proper,
      clock_bound w.finish_raw w.finish h.0.finish_read,
      check_overlap-IsDayPlan w.finish ws h.1 (rw (fine, check_overlap) at e),
    )
  ]
