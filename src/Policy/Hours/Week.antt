-- ===== src/Policy/Hours/Week.antt =====
-- The whole week: what `_parse_business_hours` accepts.
use Prim.Native.Char.{Char}
use customers_manager_hub.Prelude.{
  ℕ, ◌≡◌, refl, String, false, not, ltb, Option, none, some, List, [], ◌∷◌, any, map, length, All,
  arith, Bool-cases, inl, inr,
}
use customers_manager_hub.Prelude.Result.{ok, err≢ok, ok_unique, bind_ok}
use customers_manager_hub.Prelude.Sort.{sort, All-sort}
use text.Mathlib.Text.{◌==◌ as str_eq}
use customers_manager_hub.Json.{
  Json, null, boolean, number, string, array, object, Fields, items, keys, get,
}
use customers_manager_hub.Policy.Hours.Windows.{
  IsDayPlan, IsParsed, minutes, parse_windows-IsParsed, business_windows-IsParsed,
  check_overlap-IsDayPlan,
}
use customers_manager_hub.Policy.Hours.{
  weekdays, ParsedWindow, BusinessWindow, comes_first, covers, windows_of, parse_windows,
  check_overlap, normalize_windows, normalize_weekday, normalize_weekdays, normalize_business_hours,
  business_windows, parse_days, parse_business_hours, is_within_business_hours,
}

module _ (digit : Char → Option ℕ) where
  -- What is known of one weekday's windows.
  record IsAccepted (ws : List ParsedWindow) : Type 0 where
    each : All (IsParsed digit) ws
    plan : IsDayPlan 0 (map (minutes digit) ws)

  normalize_windows-IsAccepted :
      (xs : List Json) (ws : List ParsedWindow) → normalize_windows digit xs ≡ ok ws → IsAccepted ws
  unfolding normalize_windows
  normalize_windows-IsAccepted xs ws e = elim (Bool-cases (ltb 8 (length xs))) [
    | inl many ↦ absurd (err≢ok (rw (many, normalize_windows) at e))
    | inr few ↦
        let (parsed, f, rest) =
          bind_ok (parse_windows digit xs) _ ws (rw (few, normalize_windows) at e) in
        let (checked, g, last) =
          bind_ok (check_overlap digit 0 (sort comes_first parsed)) _ ws rest in
        let each =
          All-sort comes_first (IsParsed digit) parsed (parse_windows-IsParsed digit xs parsed f) in
        rw (← ok_unique refl last) (record {
          each = each;
          plan = check_overlap-IsDayPlan digit 0 (sort comes_first parsed) each g;
        })
  ]

  normalize_weekday-IsAccepted :
      (x : Option Json) (ws : List ParsedWindow) → normalize_weekday digit x ≡ ok ws → IsAccepted ws
  unfolding normalize_weekday
  normalize_weekday-IsAccepted none ws e = rw (← ok_unique refl e) (record { each = tt; plan = tt })
  normalize_weekday-IsAccepted (some null) ws e =
      rw (← ok_unique refl e) (record { each = tt; plan = tt })
  normalize_weekday-IsAccepted (some (array xs)) ws e = normalize_windows-IsAccepted (items xs) ws e
  normalize_weekday-IsAccepted (some (boolean b)) ws e = absurd (err≢ok e)
  normalize_weekday-IsAccepted (some (number n)) ws e = absurd (err≢ok e)
  normalize_weekday-IsAccepted (some (string s)) ws e = absurd (err≢ok e)
  normalize_weekday-IsAccepted (some (object fs)) ws e = absurd (err≢ok e)

  add_day :
      (day : String) (ws : List ParsedWindow) (rest : List (String × List ParsedWindow))
      → IsAccepted ws
      → All (λ d. IsAccepted d.1) rest
      → All (λ d. IsAccepted d.1) (elim ws [ [] ↦ rest | w ∷ more ↦ (day, w ∷ more) ∷ rest ])
  add_day day [] rest h k = k
  add_day day (w ∷ more) rest h k = (h, k)

  normalize_weekdays-IsAccepted :
      (value : Fields) (days : List String) (plans : List (String × List ParsedWindow))
      → normalize_weekdays digit value days ≡ ok plans
      → All (λ d. IsAccepted d.1) plans
  unfolding normalize_weekdays
  normalize_weekdays-IsAccepted value [] plans e = rw (← ok_unique refl e) tt
  normalize_weekdays-IsAccepted value (day ∷ days) plans e =
      let (ws, f, more) = bind_ok (normalize_weekday digit (get value day)) _ plans e in
      let (rest, g, last) = bind_ok (normalize_weekdays digit value days) _ plans more in
      rw (← ok_unique refl last) (
        add_day day ws rest (normalize_weekday-IsAccepted (get value day) ws f)
          (normalize_weekdays-IsAccepted value days rest g))

  accepted :
      (value : Fields) (plans : List (String × List ParsedWindow))
      → normalize_business_hours digit value ≡ ok plans
      → All (λ d. IsAccepted d.1) plans
  unfolding normalize_business_hours
  accepted value plans e =
      elim (Bool-cases (any (λ k. not (any (str_eq k) weekdays)) (keys value))) [
        | inl unknown ↦ absurd (err≢ok (rw (unknown, normalize_business_hours) at e))
        | inr known ↦
            normalize_weekdays-IsAccepted value weekdays plans
              (rw (known, normalize_business_hours) at e)
      ]

  parse_days-IsDayPlan :
      (plans : List (String × List ParsedWindow)) (hours : List (String × List BusinessWindow))
      → All (λ d. IsAccepted d.1) plans
      → parse_days digit plans ≡ ok hours
      → All (λ d. IsDayPlan 0 d.1) hours
  unfolding parse_days
  parse_days-IsDayPlan [] hours h e = rw (← ok_unique refl e) tt
  parse_days-IsDayPlan (d ∷ ds) hours h e =
      let (xs, f, more) = bind_ok (business_windows digit d.1) _ hours e in
      let (rest, g, last) = bind_ok (parse_days digit ds) _ hours more in
      let same = ok_unique (business_windows-IsParsed digit d.1 h.0.each) f in
      rw (← ok_unique refl last) (rw (← same) h.0.plan, parse_days-IsDayPlan ds rest h.1 g)

  -- Business hours that are accepted have, for each weekday, windows in the order of the day that
  -- do not overlap, each with its end after its start and not after 23:59.
  pub hours-IsDayPlan :
      (value : Fields) (hours : List (String × List BusinessWindow))
      → parse_business_hours digit value ≡ ok hours
      → All (λ d. IsDayPlan 0 d.1) hours
  unfolding parse_business_hours normalize_business_hours
  hours-IsDayPlan value hours e =
      let (plans, f, more) = bind_ok (normalize_business_hours digit value) _ hours e in
      parse_days-IsDayPlan plans hours (accepted value plans f) more

all_plans :
    (day : String) (hours : List (String × List BusinessWindow))
    → All (λ d. IsDayPlan 0 d.1) hours
    → IsDayPlan 0 (windows_of hours day)
all_plans day [] h = tt
all_plans day (d ∷ ds) h = elim (Bool-cases (str_eq d.0 day)) [
  | inl same ↦ rw same h.0
  | inr other ↦ rw other (all_plans day ds h.1)
]

no_last_minute :
    (from : ℕ) (ws : List BusinessWindow) → IsDayPlan from ws → any (covers 1439) ws ≡ false
unfolding any
no_last_minute from [] h = refl
no_last_minute from (w ∷ ws) h =
    let (after, proper, day, rest) = h in ground (arith, no_last_minute w.end_minute ws rest)

-- Under any accepted business hours that list at least one weekday, the minute from 23:59 to
-- midnight is outside them on every day.
pub last_minute_outside :
    (digit : Char → Option ℕ) (value : Fields) (d : String × List BusinessWindow)
    (ds : List (String × List BusinessWindow)) (day : String)
    → parse_business_hours digit value ≡ ok (d ∷ ds)
    → is_within_business_hours (d ∷ ds) day 1439 ≡ false
unfolding is_within_business_hours
last_minute_outside digit value d ds day e =
    no_last_minute 0 (windows_of (d ∷ ds) day)
      (all_plans day (d ∷ ds) (hours-IsDayPlan digit value (d ∷ ds) e))
