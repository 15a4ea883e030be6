-- ===== src/ToolRuntime/Configuration/Safe.antt =====
-- What a configuration that is accepted cannot do.
use text.Mathlib.Text.{◌==◌ as str_eq}
use customers_manager_hub.Prelude.{
  ◌≡◌, ◌≢◌, refl, String, Bool, true, Option, none, some, [], ◌∷◌, arith, Bool-cases, Option-cases,
  inl, inr,
}
use customers_manager_hub.Json.{Json, null, boolean, number, string, array, object, Fields, get}
use customers_manager_hub.PolicyModels.{
  ToolAdapterKind, generic_rest, business_reference, google_sheets, ToolOperationType, read, write,
}
use customers_manager_hub.ToolRuntime.{Python}
use customers_manager_hub.ToolRuntime.Configuration.{
  Headers, only_keys, one_of, RestConfiguration, rest, plain_header, static_headers,
  idempotency_header, is_permitted_method, method_of, location_of, url_of, rest_with, rest_parts,
  rest_configuration, sheets_configuration, sheets_with, spreadsheet_of, render_option,
  normalize_tool_configuration,
}
use customers_manager_hub.ToolRuntime.Configuration.Plain.{
  ArePlain, is_plain, none≢some, plain-plain, static-ArePlain,
}

module _ (python : Python) where
  abbrev pub is_plain_or_none : Option String → Bool
  is_plain_or_none none = true
  is_plain_or_none (some h) = is_plain python h

  token-plain :
      (o : Option Json) (h : Option String)
      → idempotency_header python o ≡ some h
      → is_plain_or_none h ≡ true
  token-plain none h e = let same : none ≡ h = cc in rw (← same) refl
  token-plain (some null) h e = let same : none ≡ h = cc in rw (← same) refl
  token-plain (some (string s)) h e = elim (Option-cases (plain_header python s)) [
    | inl n ↦ absurd (none≢some (rw (n, idempotency_header) at e))
    | inr (x, n) ↦
        let both : some (some x) ≡ some h = rw (n, idempotency_header) at e in
        let same : some x ≡ h = cc in rw (← same) (plain-plain python s x n)
  ]
  token-plain (some (boolean b)) h e = absurd (none≢some e)
  token-plain (some (number n)) h e = absurd (none≢some e)
  token-plain (some (array xs)) h e = absurd (none≢some e)
  token-plain (some (object f)) h e = absurd (none≢some e)

  abbrev pub reads_by_get : ToolOperationType → String → Bool
  reads_by_get read method = str_eq method "GET"
  reads_by_get write method = true

  permitted-get :
      (kind : ToolAdapterKind) (operation : ToolOperationType) (method location : String)
      → is_permitted_method python kind operation method location ≡ true
      → reads_by_get operation method ≡ true
  unfolding is_permitted_method
  permitted-get kind operation method location e = ground arith

  -- A configuration of a REST tool whose headers are not reserved and whose reading is by GET.
  pub record IsSafe (operation : ToolOperationType) (c : RestConfiguration) : Type 0 where
    pub headers : ArePlain python c.static_headers
    pub token : is_plain_or_none c.idempotency_header ≡ true
    pub reading : reads_by_get operation c.method ≡ true

  with-IsSafe :
      (operation : ToolOperationType) (url method location : String) (headers : Option Headers)
      (token : Option (Option String)) (c : RestConfiguration)
      → rest_with python url method location headers token ≡ some (rest c)
      → ((hs : Headers) → headers ≡ some hs → ArePlain python hs)
      → ((t : Option String) → token ≡ some t → is_plain_or_none t ≡ true)
      → reads_by_get operation method ≡ true
      → IsSafe operation c
  with-IsSafe operation url method location (some hs) (some t) c e h k m =
      let same_headers : hs ≡ c.static_headers = cc in
      let same_token : t ≡ c.idempotency_header = cc in
      let same_method : method ≡ c.method = cc in
      record {
        headers = rw (← same_headers) (h hs refl);
        token = rw (← same_token) (k t refl);
        reading = rw (← same_method) m;
      }
  with-IsSafe operation url method location none t c e h k m = absurd (none≢some e)
  with-IsSafe operation url method location (some hs) none c e h k m = absurd (none≢some e)

  parts-IsSafe :
      (kind : ToolAdapterKind) (operation : ToolOperationType) (configuration : Fields)
      (url method location : Option String) (c : RestConfiguration)
      → rest_parts python kind operation configuration url method location ≡ some (rest c)
      → IsSafe operation c
  parts-IsSafe kind operation f (some u) (some m) (some l) c e =
      elim (Bool-cases (is_permitted_method python kind operation m l)) [
        | inr bad ↦ absurd (none≢some (rw bad at e))
        | inl good ↦
            with-IsSafe operation u m l (static_headers python (get f "static_headers"))
              (idempotency_header python (get f "idempotency_header")) c (rw good at e)
              (static-ArePlain python (get f "static_headers"))
              (token-plain (get f "idempotency_header")) (permitted-get kind operation m l good)
      ]
  parts-IsSafe kind operation f none m l c e = absurd (none≢some e)
  parts-IsSafe kind operation f (some u) none l c e = absurd (none≢some e)
  parts-IsSafe kind operation f (some u) (some m) none c e = absurd (none≢some e)

  rest-IsSafe :
      (kind : ToolAdapterKind) (operation : ToolOperationType) (f : Fields) (c : RestConfiguration)
      → rest_configuration python kind operation f ≡ some (rest c)
      → IsSafe operation c
  unfolding rest_configuration
  rest-IsSafe kind operation f c e =
      elim (Bool-cases (
        only_keys
          (one_of
            ("url" ∷ "method" ∷ "argument_location" ∷ "static_headers" ∷ "idempotency_header" ∷ []))
          f)) [
            | inr other ↦ absurd (none≢some (rw (other, rest_configuration) at e))
            | inl known ↦
                parts-IsSafe kind operation f (url_of python f) (method_of python f)
                  (location_of python f) c (rw (known, rest_configuration) at e)
          ]

  with≢rest :
      (id : Option String) (render : Option (Option String)) (c : RestConfiguration)
      → sheets_with python id render ≢ some (rest c)
  with≢rest (some i) (some r) c h = cc
  with≢rest (some i) none c h = cc
  with≢rest none r c h = cc

  sheets≢rest :
      (operation : ToolOperationType) (f : Fields) (c : RestConfiguration)
      → sheets_configuration python operation f ≢ some (rest c)
  unfolding sheets_configuration
  sheets≢rest write f c e = none≢some e
  sheets≢rest read f c e =
      elim (Bool-cases (only_keys (one_of ("spreadsheet_id" ∷ "value_render_option" ∷ [])) f)) [
        | inr other ↦ none≢some (rw (other, sheets_configuration) at e)
        | inl known ↦
            with≢rest (spreadsheet_of python (get f "spreadsheet_id"))
              (render_option python (get f "value_render_option")) c
              (rw (known, sheets_configuration) at e)
      ]

  -- In a configuration of a REST tool that is accepted, neither a static header nor the header
  -- for the token of an execution is in casefold one of authorization, cookie, host,
  -- proxy-authorization, proxy-connection, content-length and transfer-encoding, and a tool that
  -- reads uses GET.
  pub configuration-IsSafe :
      (kind : ToolAdapterKind) (operation : ToolOperationType) (f : Fields) (c : RestConfiguration)
      → normalize_tool_configuration python kind operation f ≡ some (rest c)
      → IsSafe operation c
  unfolding normalize_tool_configuration
  configuration-IsSafe google_sheets operation f c e = absurd (sheets≢rest operation f c e)
  configuration-IsSafe generic_rest operation f c e = rest-IsSafe generic_rest operation f c e
  configuration-IsSafe business_reference operation f c e =
      rest-IsSafe business_reference operation f c e
