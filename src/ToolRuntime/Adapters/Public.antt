-- ===== src/ToolRuntime/Adapters/Public.antt =====
-- The adapters send to public addresses only.
use customers_manager_hub.Prelude.{
  ℕ, ◌≡◌, ◌⊎◌, refl, String, true, false, Option, none, some, List, [], ◌∷◌, All, Bool-cases,
  Option-cases, inl, inr,
}
use customers_manager_hub.Prelude.Result.{Result, ok, err≢ok, Result-cases}
use customers_manager_hub.Prelude.Step.{Step, ◌>>=◌, ◌>>◌, returning, Keeps, bind-keeps}
use customers_manager_hub.Json.{Fields}
use customers_manager_hub.PolicyModels.{
  ToolAdapterKind, google_sheets, business_reference, generic_rest,
}
use customers_manager_hub.ToolRuntime.{ToolFault, SplitUrl, Python, ToolAdapterRequest}
use customers_manager_hub.ToolRuntime.Url.{
  check_addresses, port_or_443, check_name, check_host, ensure_public_destination,
}
use customers_manager_hub.ToolRuntime.Configuration.{
  SheetsConfiguration, rest, sheets, normalize_tool_configuration,
}
use customers_manager_hub.ToolRuntime.Adapters.{
  send, send_rest, rest_execute, sheets_url, sheets_range, is_bearer, send_sheets, read_range,
  sheets_execute, ToolAdapter, build_tool_adapter_registry,
}
use customers_manager_hub.ToolRuntime.Http.{HttpRequest, HttpReply, credential_headers}

module _ (python : Python) where
  -- Each address is one that is globally routable.
  abbrev pub AllGlobal : List String → Type 0
  AllGlobal = All (λ a. python.is_global a ≡ some true)

  check-AllGlobal :
      (addresses : List String) → check_addresses python addresses ≡ ok tt → AllGlobal addresses
  unfolding check_addresses
  check-AllGlobal [] e = tt
  check-AllGlobal (a ∷ others) e = elim (Option-cases (python.is_global a)) [
    | inl n ↦ absurd (err≢ok (rw (n, check_addresses) at e))
    | inr (false, n) ↦ absurd (err≢ok (rw (n, check_addresses) at e))
    | inr (true, n) ↦ (n, check-AllGlobal others (rw (n, check_addresses) at e))
  ]

  module _ {W : Type 0} (resolver : String → ℕ → Step ToolFault W (List String)) where
    -- The host of the URL is a public address, or the resolver has just found public addresses for it.
    abbrev pub IsPublic : String → W → Type 0
    IsPublic url w =
        (parts : SplitUrl) × (host : String) × (python.urlsplit url ≡ some parts)
        × (parts.hostname ≡ some host)
        × ((python.is_global host ≡ some true)
            ⊎ ((port : ℕ) × (before : W) × (addresses : List String) × (resolver host port before
                  ≡ (ok addresses, w))
                × AllGlobal addresses))

    module _ (P : W → Type 0)
        (resolves : (host : String) (port : ℕ) → Keeps P (resolver host port)) where
      -- A check of a destination keeps `P`, and where it succeeds the destination is public.
      abbrev Checks : String → Step ToolFault W (Unit {0}) → Type 0
      Checks url m = (w : W) → P w → P (m w).1 × ((m w).0 ≡ ok tt → IsPublic url (m w).1)

      name-Checks :
          (url host : String) (parts : SplitUrl) (port : Option (Option ℕ))
          → python.urlsplit url ≡ some parts
          → parts.hostname ≡ some host
          → Checks url (check_name python resolver host port)
      unfolding check_name
      name-Checks url host parts none u h w p = (p, λ e. absurd (err≢ok e))
      name-Checks url host parts (some port) u h w p =
          let n = port_or_443 python port in
          let kept = resolves host n w p in
          elim (Result-cases (resolver host n w).0) [
            | inr (x, e) ↦ rw (e, check_name, ◌>>=◌) (kept, λ f. absurd (err≢ok f))
            | inl (addresses, e) ↦
                rw (e, check_name, ◌>>=◌)
                  (
                    kept,
                    λ f. (
                      parts,
                      host,
                      u,
                      h,
                      inr (n, w, addresses, rw e refl, check-AllGlobal addresses f),
                    ),
                  )
          ]

      host-Checks :
          (url host : String) (parts : SplitUrl)
          → python.urlsplit url ≡ some parts
          → parts.hostname ≡ some host
          → Checks url (check_host python resolver host parts.port)
      unfolding check_host
      host-Checks url host parts u h w p = elim (Option-cases (python.is_global host)) [
        | inl n ↦ rw (n, check_host) (name-Checks url host parts parts.port u h w p)
        | inr (true, n) ↦ rw (n, check_host) (p, λ f. (parts, host, u, h, inl n))
        | inr (false, n) ↦ rw (n, check_host) (p, λ f. absurd (err≢ok f))
      ]

      destination-Checks :
          (url : String) → Checks url (ensure_public_destination python url resolver)
      unfolding ensure_public_destination
      destination-Checks url w p = elim (Option-cases (python.urlsplit url)) [
        | inl n ↦ rw (n, ensure_public_destination) (p, λ f. absurd (err≢ok f))
        | inr (parts, u) ↦ elim (Option-cases parts.hostname) [
          | inl n ↦ rw (u, ensure_public_destination, n) (p, λ f. absurd (err≢ok f))
          | inr (host, h) ↦
              let same : ensure_public_destination python url resolver w
                  ≡ check_host python resolver host parts.port w =
                rw (u, ensure_public_destination, h) refl in
              rw same (host-Checks url host parts u h w p)
        ]
      ]

      -- What is sent after a check of its destination keeps `P`, where it does so for a public one.
      sent-Keeps :
          {A : Type 0} (url : String) (o : Result ToolFault A) (m : A → Step ToolFault W Fields)
          → ((a : A) (w : W) → IsPublic url w → P w → P (m a w).1)
          → Keeps P (ensure_public_destination python url resolver >> (returning o >>= m))
      sent-Keeps url o m sends w p =
          let (kept, public) = destination-Checks url w p in
          bind-keeps P (ensure_public_destination python url resolver) (λ _. returning o >>= m) w
            kept (λ t e. bind-keeps P (returning o) m _ kept (λ a f. sends a _ (public e) kept))

      module _ (client : HttpRequest → W → HttpReply × W)
          (sends : (request : HttpRequest) (w : W)
            → IsPublic request.url w
            → P w
            → P (client request w).1) where
        rest_execute-Keeps :
            (kind : ToolAdapterKind) (request : ToolAdapterRequest)
            → Keeps P (rest_execute python client resolver kind request)
        unfolding rest_execute send_rest send
        rest_execute-Keeps kind request w p =
            elim (Option-cases (
              normalize_tool_configuration python kind request.operation_type
                request.configuration)) [
                  | inl n ↦ rw (n, rest_execute) p
                  | inr (sheets c, n) ↦ rw (n, rest_execute) p
                  | inr (rest c, n) ↦
                      rw (n, rest_execute)
                        (sent-Keeps c.url (credential_headers request.credential)
                          (send_rest python client resolver c request) (λ a w'. sends _ w') w p)
                ]

        range-Keeps :
            (c : SheetsConfiguration) (request : ToolAdapterRequest) (range : String)
            → Keeps P (read_range python client resolver c request range)
        unfolding read_range send_sheets send
        range-Keeps c request range w p =
            elim (Bool-cases (is_bearer python client resolver request.credential)) [
              | inr other ↦ rw (other, read_range) p
              | inl fits ↦
                  rw (fits, read_range)
                    (sent-Keeps (sheets_url python client resolver c range)
                      (credential_headers request.credential)
                      (send_sheets python client resolver c range request) (λ a w'. sends _ w') w p)
            ]

        sheets_execute-Keeps :
            (request : ToolAdapterRequest) → Keeps P (sheets_execute python client resolver request)
        unfolding sheets_execute
        sheets_execute-Keeps request w p =
            elim (Option-cases (
              normalize_tool_configuration python google_sheets request.operation_type
                request.configuration)) [
                  | inl n ↦ rw (n, sheets_execute) p
                  | inr (rest c, n) ↦ rw (n, sheets_execute) p
                  | inr (sheets c, n) ↦
                      elim (Option-cases (sheets_range python client resolver request.arguments)) [
                        | inl m ↦ rw (n, sheets_execute, m) p
                        | inr (range, m) ↦
                            rw (n, sheets_execute, m) (range-Keeps c request range w p)
                      ]
                ]

        -- The adapters send to public addresses only: what the resolver keeps, and what the HTTP
        -- client keeps where it sends to a URL whose host is a public address or has just been
        -- resolved to public addresses, every adapter of the registry keeps.
        pub adapters-Keep :
            All
              (λ (a : ToolAdapter W). (request : ToolAdapterRequest) → Keeps P (a.execute request))
              (build_tool_adapter_registry python client resolver)
        unfolding build_tool_adapter_registry
        adapters-Keep = (
          sheets_execute-Keeps,
          (rest_execute-Keeps business_reference, (rest_execute-Keeps generic_rest, tt)),
        )
