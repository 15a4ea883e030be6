-- ===== src/ToolRuntime/Text.antt =====
-- Names and texts: `qualified_tool_name`, `normalize_tool_name` and `normalize_header_name`.
use Prim.Native.String.{◌++◌ as ◌<>◌}
use Prim.Native.Char.{Char, code}
use text.Mathlib.Text.{◌==◌ as str_eq}
use customers_manager_hub.Prelude.{
  ℕ, String, Bool, true, false, ◌&&◌, ◌||◌, ◌==◌, leb, Option, none, some, [], ◌∷◌, any,
  if◌then◌else◌,
}
use customers_manager_hub.Prelude.Text.{size}
use customers_manager_hub.ToolRuntime.{Python}

abbrev pub all_chars : (Char → Bool) → String → Bool
all_chars p String.[] = true
all_chars p (String.◌∷◌ c s) = p c && all_chars p s

-- `s.endswith(t)`
abbrev pub ends_with : String → String → Bool
ends_with String.[] t = str_eq t ""
ends_with (String.◌∷◌ c s) t = str_eq (String.◌∷◌ c s) t || ends_with s t

-- `s.rstrip(".")`
abbrev pub without_dots : String → String
without_dots String.[] = String.[]
without_dots (String.◌∷◌ c s) =
    let rest = without_dots s in
    if code c == b'.' && str_eq rest "" then String.[] else String.◌∷◌ c rest

abbrev pub is_lower : Char → Bool
is_lower c = leb b'a' (code c) && leb (code c) b'z'

abbrev pub is_upper : Char → Bool
is_upper c = leb b'A' (code c) && leb (code c) b'Z'

abbrev pub is_digit : Char → Bool
is_digit c = leb b'0' (code c) && leb (code c) b'9'

-- `[a-z0-9_.-]`
abbrev pub is_name_char : Char → Bool
is_name_char c = is_lower c || is_digit c || code c == b'_' || code c == b'.' || code c == b'-'

abbrev pub first_char : (Char → Bool) → String → Bool
first_char p String.[] = false
first_char p (String.◌∷◌ c s) = p c

abbrev pub last_char : (Char → Bool) → String → Bool
last_char p String.[] = false
last_char p (String.◌∷◌ c s) = let rest = last_char p s in if str_eq s "" then p c else rest

-- `_TOOL_NAME_PATTERN.fullmatch`
unfoldable pub matches_tool_name : String → Bool
matches_tool_name s =
    first_char is_lower s
    && last_char (λ c. is_lower c || is_digit c) s
    && all_chars is_name_char s
    && leb (size s) 100

-- `[A-Za-z0-9!#$%&'*+.^_`|~-]`
abbrev pub is_header_char : Char → Bool
is_header_char c =
    is_lower c
    || is_upper c
    || is_digit c
    || any (λ n. code c == n)
        (33 ∷ 35 ∷ 36 ∷ 37 ∷ 38 ∷ 39 ∷ 42 ∷ 43 ∷ 46 ∷ 94 ∷ 95 ∷ 96 ∷ 124 ∷ 126 ∷ 45 ∷ [])

-- `_HEADER_NAME_PATTERN.fullmatch`
unfoldable pub matches_header_name : String → Bool
matches_header_name s = leb 1 (size s) && leb (size s) 100 && all_chars is_header_char s

-- `_GOOGLE_SPREADSHEET_ID_PATTERN.fullmatch`
unfoldable pub matches_spreadsheet_id : String → Bool
matches_spreadsheet_id s =
    leb 10 (size s)
    && leb (size s) 200
    && all_chars (λ c. is_lower c || is_upper c || is_digit c || code c == b'_' || code c == b'-') s

module _ (python : Python) where
  open python use {strip, casefold, str}

  abbrev pub qualified_tool_name : String → ℕ → String
  qualified_tool_name name version = name <> "@" <> str version

  -- `normalize_tool_name`; `none` stands for a `ValueError`, here and below.
  unfoldable pub normalize_tool_name : String → Option String
  normalize_tool_name value =
      let normalized = casefold (strip value) in
      if matches_tool_name normalized then some normalized else none

  abbrev pub is_transport_header : String → Bool
  is_transport_header h =
      any (str_eq h) ("host" ∷ "content-length" ∷ "transfer-encoding" ∷ "proxy-authorization" ∷ [])

  -- `normalize_header_name`
  unfoldable pub normalize_header_name : String → Option String
  normalize_header_name value =
      let normalized = strip value in
      if matches_header_name normalized
      then (if is_transport_header (casefold normalized) then none else some normalized)
      else none
