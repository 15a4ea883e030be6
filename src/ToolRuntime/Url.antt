-- ===== src/ToolRuntime/Url.antt =====
-- Where a tool may send: `normalize_fixed_https_url`, `resolve_host_addresses` and
-- `ensure_public_destination`.
use Prim.Native.String.{◌++◌ as ◌<>◌}
use Prim.Native.Char.{code}
use text.Mathlib.Text.{◌==◌ as str_eq}
use customers_manager_hub.Prelude.{
  ℕ, String, Bool, true, false, ◌&&◌, ◌||◌, ◌==◌, not, ltb, Option, none, some, is_some, List, [],
  ◌∷◌, any, if◌then◌else◌,
}
use customers_manager_hub.Prelude.Result.{Result, ok, err}
use customers_manager_hub.Prelude.Sort.{sort}
use customers_manager_hub.Prelude.Step.{Step, ◌>>=◌, pure, raise, returning}
use customers_manager_hub.Prelude.Text.{contains}
use customers_manager_hub.ToolRuntime.{
  ToolFault, adapter_error, other_error, denied, temporary, SplitUrl, Python,
}
use customers_manager_hub.ToolRuntime.Text.{ends_with, without_dots}

-- Python's order of texts.
abbrev pub text_before : String → String → Bool
text_before String.[] String.[] = false
text_before String.[] (String.◌∷◌ d t) = true
text_before (String.◌∷◌ c s) String.[] = false
text_before (String.◌∷◌ c s) (String.◌∷◌ d t) =
    ltb (code c) (code d) || code c == code d && text_before s t

-- `set(texts)`
abbrev pub distinct : List String → List String
distinct [] = []
distinct (s ∷ rest) =
    let others = distinct rest in if any (str_eq s) rest then others else s ∷ others

module _ (python : Python) where
  open python use {strip, casefold, str, urlsplit, urlunsplit, is_global, idna}

  -- The host of a URL in its normal form, where it is permitted.
  unfoldable pub allowed_host : String → Option String
  allowed_host hostname =
      let host = casefold (without_dots hostname) in
      if str_eq host ""
        || str_eq host "localhost"
        || ends_with host ".localhost"
        || ends_with host ".local"
        || ends_with host ".internal"
      then none
      else (elim (is_global host) [ none ↦ idna host | some true ↦ some host | some false ↦ none ])

  abbrev pub netloc : String → Option ℕ → String
  netloc host port =
      let rendered = if contains ":" host then "[" <> host <> "]" else host in
      elim port [
        | none ↦ rendered
        | some n ↦ if n == 443 then rendered else rendered <> ":" <> str n
      ]

  abbrev pub with_host : SplitUrl → String → Option String
  with_host parts hostname = elim (allowed_host hostname) [
    | none ↦ none
    | some host ↦ elim parts.port [
      | none ↦ none
      | some port ↦ some (
          urlunsplit "https" (netloc host port) (if str_eq parts.path "" then "/" else parts.path)
            parts.query "")
    ]
  ]

  -- `normalize_fixed_https_url`
  unfoldable pub normalize_fixed_https_url : String → Option String
  unfolding allowed_host
  normalize_fixed_https_url value = elim (urlsplit (strip value)) [
    | none ↦ none
    | some parts ↦ elim parts.hostname [
      | none ↦ none
      | some hostname ↦
          if str_eq parts.scheme "https"
            && not (is_some parts.username)
            && not (is_some parts.password)
            && str_eq parts.fragment ""
          then with_host parts hostname
          else none
    ]
  ]

  -- The loop over the addresses.
  unfoldable pub check_addresses : List String → Result ToolFault (Unit {0})
  check_addresses [] = ok tt
  check_addresses (address ∷ rest) =
      let others = check_addresses rest in
      elim (is_global address) [
        | none ↦ err (adapter_error (denied "tool_dns_resolution_invalid"))
        | some false ↦ err (adapter_error (denied "tool_ssrf_destination_denied"))
        | some true ↦ others
      ]

  abbrev pub port_or_443 : Option ℕ → ℕ
  port_or_443 none = 443
  port_or_443 (some n) = if n == 0 then 443 else n

  module _ {W : Type 0} where
    -- `resolve_host_addresses`; `getaddrinfo` returns the addresses, and nothing where it raises an
    -- `OSError`.
    unfoldable pub resolve_host_addresses :
        (getaddrinfo : String → ℕ → W → Option (List String) × W) (host : String) (port : ℕ)
        → Step ToolFault W (List String)
    resolve_host_addresses getaddrinfo host port w =
        let (found, next) = getaddrinfo host port w in
        elim found [
          | none ↦ (err (adapter_error (temporary "tool_dns_resolution_failed")), next)
          | some [] ↦ (err (adapter_error (temporary "tool_dns_resolution_failed")), next)
          | some (a ∷ rest) ↦ (ok (sort text_before (distinct (a ∷ rest))), next)
        ]

    -- The addresses of a name, all of them public.
    unfoldable pub check_name :
        (resolver : String → ℕ → Step ToolFault W (List String)) (host : String)
        → Option (Option ℕ)
        → Step ToolFault W (Unit {0})
    unfolding check_addresses
    check_name resolver host none = raise other_error
    check_name resolver host (some port) =
        resolver host (port_or_443 port) >>= λ addresses. returning (check_addresses addresses)

    -- A host is an address that is public, or a name with public addresses.
    unfoldable pub check_host :
        (resolver : String → ℕ → Step ToolFault W (List String)) (host : String)
        → Option (Option ℕ)
        → Step ToolFault W (Unit {0})
    unfolding check_name
    check_host resolver host port = elim (is_global host) [
      | some true ↦ pure tt
      | some false ↦ raise (adapter_error (denied "tool_ssrf_destination_denied"))
      | none ↦ check_name resolver host port
    ]

    -- `ensure_public_destination`
    unfoldable pub ensure_public_destination :
        String
        → (resolver : String → ℕ → Step ToolFault W (List String)) → Step ToolFault W (Unit {0})
    unfolding check_host
    ensure_public_destination url resolver = elim (urlsplit url) [
      | none ↦ raise other_error
      | some parts ↦ elim parts.hostname [
        | none ↦ raise (adapter_error (denied "tool_destination_invalid"))
        | some host ↦ check_host resolver host parts.port
      ]
    ]
