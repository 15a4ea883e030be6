-- ===== src/ToolRuntime/Configuration/Plain.antt =====
-- The headers of a configuration that is accepted are none of seven that are reserved.
use text.Mathlib.Text.{◌==◌ as str_eq}
use customers_manager_hub.Prelude.{
  ◌≡◌, ◌≢◌, String, Bool, true, not, Option, none, some, List, [], ◌∷◌, ◌&&◌, false, any, All,
  arith, Bool-cases, Option-cases, inl, inr,
}
use customers_manager_hub.Json.{
  Json, null, boolean, number, string, array, object, Fields, end_fields, field,
}
use customers_manager_hub.ToolRuntime.{Python}
use customers_manager_hub.ToolRuntime.Configuration.{
  Headers, put, is_forbidden_header, plain_header, static_header, add_headers, static_headers,
}
use customers_manager_hub.ToolRuntime.Text.{normalize_header_name}

pub none≢some : {A : Type 0} {a : A} → Option.none ≢ some a
none≢some h = cc

-- The names of the headers that a configuration may not set.
abbrev pub reserved_names : List String
reserved_names =
    "authorization" ∷ "content-length" ∷ "cookie" ∷ "host" ∷ "proxy-authorization"
    ∷ "proxy-connection" ∷ "transfer-encoding" ∷ []

abbrev pub is_none_of : List String → String → Bool
is_none_of [] s = true
is_none_of (name ∷ names) s = not (str_eq s name) && is_none_of names s

free-none_of : (s : String) → is_forbidden_header s ≡ false → is_none_of reserved_names s ≡ true
unfolding any
free-none_of s e = ground arith

module _ (python : Python) where
  -- A header that is, in casefold, none of the seven that are reserved.
  abbrev pub is_plain : String → Bool
  is_plain name = is_none_of reserved_names (python.casefold name)

  abbrev pub ArePlain : Headers → Type 0
  ArePlain = All (λ h. is_plain h.0 ≡ true)

  pub plain-plain : (name h : String) → plain_header python name ≡ some h → is_plain h ≡ true
  unfolding plain_header
  plain-plain name h e = elim (Option-cases (normalize_header_name python name)) [
    | inl n ↦ absurd (none≢some (rw (n, plain_header) at e))
    | inr (x, n) ↦ elim (Bool-cases (is_forbidden_header (python.casefold x))) [
      | inl bad ↦ absurd (none≢some (rw (n, plain_header, bad) at e))
      | inr good ↦
          let same : some x ≡ some h = rw (n, plain_header, good) at e in
          let is_h : x ≡ h = cc in rw (← is_h) (free-none_of (python.casefold x) good)
    ]
  ]

  put-ArePlain :
      (k v : String) (headers : Headers)
      → is_plain k ≡ true
      → ArePlain headers
      → ArePlain (put k v headers)
  unfolding put
  put-ArePlain k v [] e h = (e, tt)
  put-ArePlain k v ((k', v') ∷ others) e h = elim (Bool-cases (str_eq k' k)) [
    | inl same ↦ rw (same, put) h
    | inr other ↦ rw (other, put) (h.0, put-ArePlain k v others e h.1)
  ]

  entry-plain :
      (name : String) (value : Json) (k v : String)
      → static_header python name value ≡ some (k, v)
      → is_plain k ≡ true
  unfolding static_header
  entry-plain name (string value) k v e = elim (Option-cases (plain_header python name)) [
    | inl n ↦ absurd (none≢some (rw (n, static_header) at e))
    | inr (h, n) ↦
        let same : h ≡ k = ground (arith, rw (n, static_header) at e) in
        rw (← same) (plain-plain name h n)
  ]
  entry-plain name null k v e = absurd (none≢some e)
  entry-plain name (boolean b) k v e = absurd (none≢some e)
  entry-plain name (number n) k v e = absurd (none≢some e)
  entry-plain name (array xs) k v e = absurd (none≢some e)
  entry-plain name (object f) k v e = absurd (none≢some e)

  added-ArePlain :
      (f : Fields) (headers added : Headers)
      → add_headers python f headers ≡ some added
      → ArePlain headers
      → ArePlain added
  unfolding add_headers
  added-ArePlain end_fields headers added e h = let same : headers ≡ added = cc in rw (← same) h
  added-ArePlain (field name value others) headers added e h =
      elim (Option-cases (static_header python name value)) [
        | inl n ↦ absurd (none≢some (rw (n, add_headers) at e))
        | inr ((k, v), n) ↦
            added-ArePlain others (put k v headers) added (rw (n, add_headers) at e)
              (put-ArePlain k v headers (entry-plain name value k v n) h)
      ]

  pub static-ArePlain :
      (o : Option Json) (headers : Headers)
      → static_headers python o ≡ some headers
      → ArePlain headers
  unfolding static_headers
  static-ArePlain none headers e = let same : [] ≡ headers = cc in rw (← same) tt
  static-ArePlain (some null) headers e = let same : [] ≡ headers = cc in rw (← same) tt
  static-ArePlain (some (object f)) headers e = added-ArePlain f [] headers e tt
  static-ArePlain (some (boolean b)) headers e = absurd (none≢some e)
  static-ArePlain (some (number n)) headers e = absurd (none≢some e)
  static-ArePlain (some (string s)) headers e = absurd (none≢some e)
  static-ArePlain (some (array xs)) headers e = absurd (none≢some e)
