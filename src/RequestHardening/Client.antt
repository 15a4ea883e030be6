-- ===== src/RequestHardening/Client.antt =====
-- The address that a request is counted under: `_trusted_proxy_networks` and `client_ip`.
use Prim.Native.Char.{Char, code}
use text.Mathlib.Text.{◌==◌ as str_eq}
use customers_manager_hub.Prelude.{
  String, ◌≡◌, refl, Bool, false, ◌==◌, Option, none, some, List, [], ◌∷◌, any, if◌then◌else◌,
  Option-cases, inl, inr,
}
use customers_manager_hub.Prelude.Result.{Result, ok, err, ◌>>=◌}
use customers_manager_hub.RequestHardening.{Request, Settings}

abbrev pub is_comma : Char → Bool
is_comma c = code c == 44

-- `s.split(",")`: the part before the first comma, and the other parts.
unfoldable pub split_commas : String → String × List String
split_commas String.[] = (String.[], [])
split_commas (String.◌∷◌ c s) =
    let (first, rest) = split_commas s in
    if is_comma c then (String.[], first ∷ rest) else (String.◌∷◌ c first, rest)

-- The `ValueError` of `ip_network`.
pub data NetworkError : Type 0 where
  network_error : NetworkError

-- `ipaddress` and `str.strip`; `none` stands for a `ValueError`.
pub record Addresses (A N : Type 0) : Type 0 where
  pub strip : String → String
  pub ip_address : String → Option A
  pub ip_network : String → Option N
  pub is_in : A → N → Bool
  pub str : A → String

module _ {A N : Type 0} (net : Addresses A N) where
  open net use {strip, ip_address, ip_network, is_in, str}

  networks_of : List String → Result NetworkError (List N)
  networks_of [] = ok []
  networks_of (item ∷ items) =
      let rest = networks_of items in
      if str_eq (strip item) "" then rest else elim (ip_network (strip item)) [
        | none ↦ err network_error
        | some n ↦ rest >>= λ ns. ok (n ∷ ns)
      ]

  -- `_trusted_proxy_networks`
  unfoldable pub trusted_proxy_networks : Settings → Result NetworkError (List N)
  unfolding networks_of
  trusted_proxy_networks settings =
      let (first, rest) = split_commas settings.trusted_proxy_cidrs in networks_of (first ∷ rest)

  -- The first address of the header, where it is one; an empty header counts as none.
  unfoldable pub forwarded_address : Option String → A → String
  forwarded_address none peer = str peer
  forwarded_address (some forwarded) peer =
      if str_eq forwarded ""
      then str peer
      else elim (ip_address (strip (split_commas forwarded).0)) [ none ↦ str peer | some a ↦ str a ]

  abbrev pub peer_of : Option String → String
  peer_of none = "unknown"
  peer_of (some host) = host

  -- `client_ip`
  unfoldable pub client_ip : Request → Settings → Result NetworkError String
  unfolding trusted_proxy_networks forwarded_address
  client_ip request settings = elim (ip_address (peer_of request.host)) [
    | none ↦ ok (peer_of request.host)
    | some peer ↦ trusted_proxy_networks settings >>= λ networks.
        if any (is_in peer) networks
        then ok (forwarded_address request.forwarded_for peer)
        else ok (str peer)
  ]

  -- Where the configured networks can be read and the address of the peer, if it is one, is in
  -- none of them, the address that a request counts under is the same whatever its
  -- X-Forwarded-For holds.
  pub header_ignored :
      (request : Request) (settings : Settings) (forwarded : Option String) (networks : List N)
      → trusted_proxy_networks settings ≡ ok networks
      → ((peer : A)
          → ip_address (peer_of request.host) ≡ some peer
          → any (is_in peer) networks ≡ false)
      → client_ip (record request { forwarded_for = forwarded }) settings
        ≡ client_ip request settings
  unfolding client_ip
  header_ignored request settings forwarded networks e far =
      elim (Option-cases (ip_address (peer_of request.host))) [
        | inl n ↦ rw (n, client_ip) refl
        | inr (peer, f) ↦ rw (f, client_ip, e, far peer f) refl
      ]
