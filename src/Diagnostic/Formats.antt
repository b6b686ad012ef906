-- ===== src/Diagnostic/Formats.antt =====
-- controlplane/internal/diagnostic/model.go: the texts of a document, with NormalizeCallbackIdentity of webhook.go. `Formats` is what the code
-- takes from strings, strconv, time, mime, net/url and regexp, of which nothing is assumed.
use vcpe.Common.{
  [], not, string_eq, nat_eq, some, ◌&&◌, ◌+◌, false, leb, length, ltb, none, ◌==◌, ◌||◌, Bool,
  Option, if◌then◌else◌, ◌∷◌, List, String, ℕ,
}
use vcpe.Common.Text.{codes, is_digit, is_lower, is_lower_hex, all_codes}
use vcpe.Common.Int.{ℤ}

-- url.URL; `host_name` and `port` are what Hostname and Port read from the host.
pub record Url : Type 0 where
  pub scheme : String
  pub user : Option String
  pub host : String
  pub host_name : String
  pub port : String
  pub path : String
  pub raw_query : String
  pub force_query : Bool
  pub fragment : String

pub record Formats : Type 0 where
  pub trim_space : String → String
  pub to_lower : String → String
  pub atoi : String → Option ℤ
  pub parse_time : String → Option ℕ
  pub parse_duration : String → Option ℤ
  -- mime.ParseMediaType, without the parameters
  pub media_type : String → Option String
  pub parse_url : String → Option Url
  pub print_url : Url → String
  pub join_host_port : String → String → String
  -- fmt.Sprint of an int, and regexp.ReplaceAllString of a pattern
  pub print_int : ℤ → String
  pub replace_all : String → String → String → String

-- len of a string: the bytes of its UTF-8 form.
unfoldable pub bytes : List ℕ → ℕ
bytes [] = 0
bytes (c ∷ cs) =
    let rest = bytes cs in
    (if ltb c 128 then 1 else if ltb c 2048 then 2 else if ltb c 65536 then 3 else 4) + rest

abbrev pub byte_length : String → ℕ
byte_length text = bytes (codes text)

-- `[a-z0-9]`, and with `._-`
abbrev pub is_alnum : ℕ → Bool
is_alnum c = is_lower c || is_digit c

abbrev pub is_id_code : ℕ → Bool
is_id_code c = is_alnum c || (c == b'.' || (c == b'_' || c == b'-'))

abbrev pub is_upper : ℕ → Bool
is_upper c = leb b'A' c && leb c b'Z'

-- A first code and those behind it.
abbrev pub matches : (ℕ → Bool) → (ℕ → Bool) → List ℕ → Bool
matches first later [] = false
matches first later (c ∷ cs) = first c && all_codes later cs

-- stableIDPattern, clientServicePattern and eventDestinationPattern
abbrev pub stable_id_pattern : String → Bool
stable_id_pattern text = matches is_alnum is_id_code (codes text)

abbrev pub client_service_pattern : String → Bool
client_service_pattern text =
    matches (λ c. is_alnum c || is_upper c) (λ c. is_id_code c || is_upper c) (codes text)

abbrev pub event_destination_pattern : String → Bool
event_destination_pattern text = matches is_alnum (λ c. is_id_code c || c == b'/') (codes text)

-- deviceIdentityPattern behind its first letter: a scheme up to the colon, then an identifier.
unfoldable pub device_tail : List ℕ → Bool
device_tail [] = false
device_tail (c ∷ cs) =
    let rest = device_tail cs in
    if c == b':'
    then matches is_alnum is_id_code cs
    else (is_alnum c || (c == b'_' || c == b'-')) && rest

abbrev pub device_start : List ℕ → Bool
device_start [] = false
device_start (c ∷ cs) = is_lower c && device_tail cs

abbrev pub device_identity_pattern : String → Bool
device_identity_pattern text = device_start (codes text)

-- registrationIDPattern
abbrev pub registration_id_pattern : String → Bool
registration_id_pattern text = length (codes text) == 64 && all_codes is_lower_hex (codes text)

abbrev pub default_port : String → String → Bool
default_port scheme port =
    port == "" || ((scheme == "http" && port == "80") || (scheme == "https" && port == "443"))

abbrev pub normal_host : Formats → String → Url → String
normal_host f scheme u =
    if default_port scheme u.port
    then f.to_lower u.host_name
    else f.join_host_port (f.to_lower u.host_name) u.port

-- NormalizeCallbackIdentity
unfoldable pub normalize_callback_identity : Formats → String → Option String
normalize_callback_identity f raw = elim (f.parse_url raw) [
  | none ↦ none
  | some u ↦
      let scheme = f.to_lower u.scheme in
      if u.scheme == "" || u.host_name == ""
      then none
      else if not (scheme == "http") && not (scheme == "https")
      then none
      else some (
          f.print_url (record u {
            scheme = scheme;
            host = normal_host f scheme u;
            user = none;
            raw_query = "";
            force_query = false;
            fragment = "";
            path = if u.path == "" then "/" else u.path;
          }))
]
