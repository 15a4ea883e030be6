-- ===== src/Policy/Hours.antt =====
-- Business hours: `_parse_clock`, `normalize_business_hours`, `_parse_business_hours` and the test of
-- `is_within_business_hours`.
pub mod Windows
pub mod Week
use Prim.Native.Char.{Char, code}
use text.Mathlib.Text.{◌==◌ as str_eq}
use customers_manager_hub.Prelude.{
  ℕ, zero, suc, ◌+◌, ◌*◌, String, Bool, true, false, ◌&&◌, ◌||◌, ◌==◌, not, ltb, leb, Option, none,
  some, List, [], ◌∷◌, any, map, length, if◌then◌else◌, is_some,
}
use customers_manager_hub.Prelude.Result.{Result, ok, err, ◌>>=◌, ◌>>◌}
use customers_manager_hub.Prelude.Sort.{sort}
use customers_manager_hub.Prelude.Text.{size}
use customers_manager_hub.Json.{
  Json, null, boolean, number, string, array, object, Items, end_items, item, Fields, end_fields,
  field, items, keys, get,
}

-- The `ValueError`s of business hours.
pub data HoursError : Type 0 where
  clock_format clock_range unknown_weekday not_a_list too_many_windows : HoursError
  not_an_object wrong_keys end_not_after_start overlap : HoursError

-- `_WEEKDAYS`
abbrev pub weekdays : List String
weekdays = "mon" ∷ "tue" ∷ "wed" ∷ "thu" ∷ "fri" ∷ "sat" ∷ "sun" ∷ []

-- `s[2] == ":"` where `s` has five characters; 58 is the code of the colon.
abbrev pub is_colon : Char → Bool
is_colon c = code c == 58

abbrev pub third_is_colon : String → Bool
third_is_colon (String.◌∷◌ a (String.◌∷◌ b (String.◌∷◌ c s))) = is_colon c
third_is_colon _ = false

-- `s.split(":", 1)`
unfoldable pub split_colon : String → String × String
split_colon String.[] = (String.[], String.[])
split_colon (String.◌∷◌ c s) =
    let rest = split_colon s in if is_colon c then (String.[], s) else (String.◌∷◌ c rest.0, rest.1)

-- A window, with the texts that it was read from.
pub record ParsedWindow : Type 0 where
  pub start : ℕ
  pub finish : ℕ
  pub start_raw : Json
  pub finish_raw : Json

-- `BusinessWindow`
pub record BusinessWindow : Type 0 where
  pub start_minute : ℕ
  pub end_minute : ℕ

abbrev pub comes_first : ParsedWindow → ParsedWindow → Bool
comes_first x y = ltb x.start y.start || (x.start == y.start && ltb x.finish y.finish)

-- The rendered object of a window.
abbrev pub render : ParsedWindow → Json
render w = object (field "start" w.start_raw (field "end" w.finish_raw end_fields))

-- Python's tables of digits are a parameter: `digit c` is the value of a character that `isdigit`
-- accepts and `int` reads.
module _ (digit : Char → Option ℕ) where
  -- `int(s)` where `s.isdigit()`; `value` is what the characters before give.
  unfoldable pub number_from : ℕ → String → Option ℕ
  number_from value String.[] = some value
  number_from value (String.◌∷◌ c s) = elim (digit c) [
    | none ↦ none
    | some d ↦ number_from (value * 10 + d) s
  ]

  unfoldable pub number_of : String → Option ℕ
  unfolding number_from
  number_of String.[] = none
  number_of (String.◌∷◌ c s) = number_from 0 (String.◌∷◌ c s)

  -- `_parse_clock`
  unfoldable pub parse_clock : Json → Result HoursError ℕ
  unfolding number_of split_colon size
  parse_clock (string s) =
      if not (size s == 5) || not (third_is_colon s)
      then err clock_format
      else elim (number_of (split_colon s).0) [
        | none ↦ err clock_format
        | some hour ↦ elim (number_of (split_colon s).1) [
          | none ↦ err clock_format
          | some minute ↦
              if ltb 23 hour || ltb 59 minute then err clock_range else ok (hour * 60 + minute)
        ]
      ]
  parse_clock _ = err clock_format

  -- The two times of a window.
  unfoldable pub read_window : Json → Json → Result HoursError ParsedWindow
  unfolding parse_clock
  read_window start_raw finish_raw = parse_clock start_raw >>= λ start.
      parse_clock finish_raw >>= λ finish.
      if leb finish start
      then err end_not_after_start
      else ok (record {
        start = start;
        finish = finish;
        start_raw = start_raw;
        finish_raw = finish_raw;
      })

  -- One round of the loop over `windows`.
  unfoldable pub parse_window : Json → Result HoursError ParsedWindow
  unfolding read_window
  parse_window (object fields) = elim (get fields "start") [
    | none ↦ err wrong_keys
    | some start_raw ↦ elim (get fields "end") [
      | none ↦ err wrong_keys
      | some finish_raw ↦
          if any (λ k. not (str_eq k "start") && not (str_eq k "end")) (keys fields)
          then err wrong_keys
          else read_window start_raw finish_raw
    ]
  ]
  parse_window _ = err not_an_object

  unfoldable pub parse_windows : List Json → Result HoursError (List ParsedWindow)
  unfolding parse_window
  parse_windows [] = ok []
  parse_windows (x ∷ xs) = parse_window x >>= λ w. parse_windows xs >>= λ ws. ok (w ∷ ws)

  -- The check of the sorted windows. The first `previous_end` is -1 in the source; no minute is below
  -- either -1 or 0.
  unfoldable pub check_overlap : ℕ → List ParsedWindow → Result HoursError (Unit {0})
  check_overlap previous_end [] = ok tt
  check_overlap previous_end (w ∷ ws) =
      let rest = check_overlap w.finish ws in if ltb w.start previous_end then err overlap else rest

  -- What `normalize_business_hours` does with the windows of one weekday.
  unfoldable pub normalize_windows : List Json → Result HoursError (List ParsedWindow)
  unfolding parse_windows check_overlap
  normalize_windows windows =
      if ltb 8 (length windows)
      then err too_many_windows
      else (parse_windows windows >>= λ parsed.
          let sorted = sort comes_first parsed in check_overlap 0 sorted >> ok sorted)

  abbrev pub normalize_weekday : Option Json → Result HoursError (List ParsedWindow)
  unfolding normalize_windows
  normalize_weekday none = ok []
  normalize_weekday (some null) = ok []
  normalize_weekday (some (array xs)) = normalize_windows (items xs)
  normalize_weekday (some _) = err not_a_list

  -- The loop over `_WEEKDAYS`.
  unfoldable pub normalize_weekdays :
      Fields → List String → Result HoursError (List (String × List ParsedWindow))
  unfolding normalize_weekday
  normalize_weekdays value [] = ok []
  normalize_weekdays value (day ∷ days) = normalize_weekday (get value day) >>= λ windows.
      normalize_weekdays value days >>= λ rest.
      ok (elim windows [ [] ↦ rest | w ∷ ws ↦ (day, w ∷ ws) ∷ rest ])

  -- `normalize_business_hours`, each window with its minutes; `render` gives the stored object.
  unfoldable pub normalize_business_hours :
      Fields → Result HoursError (List (String × List ParsedWindow))
  unfolding normalize_weekdays
  normalize_business_hours value =
      if any (λ k. not (any (str_eq k) weekdays)) (keys value)
      then err unknown_weekday
      else normalize_weekdays value weekdays

  -- The minutes of a stored window, parsed again.
  unfoldable pub business_window : ParsedWindow → Result HoursError BusinessWindow
  unfolding parse_clock
  business_window w = parse_clock w.start_raw >>= λ start. parse_clock w.finish_raw >>= λ finish.
      ok (record { start_minute = start; end_minute = finish })

  unfoldable pub business_windows : List ParsedWindow → Result HoursError (List BusinessWindow)
  unfolding business_window
  business_windows [] = ok []
  business_windows (w ∷ ws) = business_window w >>= λ x. business_windows ws >>= λ xs. ok (x ∷ xs)

  unfoldable pub parse_days :
      List (String × List ParsedWindow) → Result HoursError (List (String × List BusinessWindow))
  unfolding business_windows
  parse_days [] = ok []
  parse_days (d ∷ ds) =
      business_windows d.1 >>= λ xs. parse_days ds >>= λ rest. ok ((d.0, xs) ∷ rest)

  -- `_parse_business_hours`
  unfoldable pub parse_business_hours :
      Fields → Result HoursError (List (String × List BusinessWindow))
  unfolding parse_days normalize_business_hours
  parse_business_hours value = normalize_business_hours value >>= parse_days

-- The windows of a weekday.
abbrev pub windows_of : List (String × List BusinessWindow) → String → List BusinessWindow
windows_of [] day = []
windows_of (d ∷ ds) day = if str_eq d.0 day then d.1 else windows_of ds day

abbrev pub covers : ℕ → BusinessWindow → Bool
covers minute w = leb w.start_minute minute && ltb minute w.end_minute

-- `is_within_business_hours`, at a weekday and a minute of the policy's time zone.
unfoldable pub is_within_business_hours : List (String × List BusinessWindow) → String → ℕ → Bool
is_within_business_hours [] day minute = true
is_within_business_hours (d ∷ ds) day minute = any (covers minute) (windows_of (d ∷ ds) day)
