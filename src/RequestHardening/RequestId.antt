-- ===== src/RequestHardening/RequestId.antt =====
-- The id of a request: `normalize_request_id`.
use Prim.Native.Char.{Char, code}
use customers_manager_hub.Prelude.{
  String, ◌≡◌, Bool, true, ◌&&◌, ◌||◌, ◌==◌, leb, Option, none, some, if◌then◌else◌, Bool-cases,
  inl, inr,
}
use customers_manager_hub.Prelude.Text.{size}

-- `[A-Za-z0-9._:-]`
abbrev pub is_request_id_char : Char → Bool
is_request_id_char c =
    leb 65 (code c) && leb (code c) 90
    || leb 97 (code c) && leb (code c) 122
    || leb 48 (code c) && leb (code c) 57
    || code c == 46
    || code c == 95
    || code c == 58
    || code c == 45

abbrev pub has_request_id_chars : String → Bool
has_request_id_chars String.[] = true
has_request_id_chars (String.◌∷◌ c s) = is_request_id_char c && has_request_id_chars s

-- `_REQUEST_ID_PATTERN.fullmatch`
unfoldable pub matches_request_id : String → Bool
matches_request_id s = leb 1 (size s) && leb (size s) 64 && has_request_id_chars s

-- `normalize_request_id`; `strip` is Python's, and `token` what `secrets.token_hex(16)` returns.
unfoldable pub normalize_request_id : (String → String) → String → Option String → String
normalize_request_id strip token none = token
normalize_request_id strip token (some value) =
    let candidate = strip value in if matches_request_id candidate then candidate else token

-- The id of a request matches the pattern, whatever its header holds, where a random token does.
pub normalize-matches :
    (strip : String → String) (token : String) (value : Option String)
    → matches_request_id token ≡ true
    → matches_request_id (normalize_request_id strip token value) ≡ true
unfolding normalize_request_id
normalize-matches strip token none h = h
normalize-matches strip token (some value) h =
    elim (Bool-cases (matches_request_id (strip value))) [
      | inl fits ↦ rw (fits, normalize_request_id) fits
      | inr other ↦ rw (other, normalize_request_id) h
    ]
