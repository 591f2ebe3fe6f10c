-- ===== src/Proxy.antt =====
-- The check of the proxy option (centrifuge/client.py): `_redact_proxy`, `_load_parse_proxy` and
-- `_validate_proxy`. A text is the list of its characters. The modules of websockets, with the URL parser
-- in one of them, are a parameter.
pub mod Redaction
mod Runs
use centrifuge_python.Base.{
  ℕ, Bool, true, false, not, ◌&&◌, Option, none, some, List, [], ◌∷◌, ◌++◌, ◌==◌, if◌then◌else◌,
}

abbrev pub Chars : Type 0
Chars = List ℕ

-- "://"
abbrev pub separator : Chars
separator = 58 ∷ 47 ∷ 47 ∷ []

-- "***@"
abbrev pub stars : Chars
stars = 42 ∷ 42 ∷ 42 ∷ 64 ∷ []

-- What follows the separator, where a text begins with it.
abbrev pub after_separator : Chars → Option Chars
after_separator [] = none
after_separator (a ∷ []) = none
after_separator (a ∷ b ∷ []) = none
after_separator (a ∷ b ∷ c ∷ rest) = if a == 58 && b == 47 && c == 47 then some rest else none

abbrev pub with_head : ℕ → Option (Chars × Chars) → Option (Chars × Chars)
with_head c none = none
with_head c (some (before, after)) = some (c ∷ before, after)

-- `proxy.partition("://")`, where the separator occurs.
unfoldable pub partition : Chars → Option (Chars × Chars)
partition [] = none
partition (c ∷ s) = elim (after_separator (c ∷ s)) [
  | some rest ↦ some ([], rest)
  | none ↦ with_head c (partition s)
]

-- `rest.rpartition("@")`, where the character occurs.
unfoldable pub rpartition : Chars → Option (Chars × Chars)
rpartition [] = none
rpartition (c ∷ s) = elim (rpartition s) [
  | some (before, after) ↦ some (c ∷ before, after)
  | none ↦ if c == 64 then some ([], s) else none
]

abbrev pub redact_rest : Chars → Chars → Chars → Chars
redact_rest proxy scheme rest = elim (rpartition rest) [
  | none ↦ proxy
  | some (credentials, hostinfo) ↦ scheme ++ stars ++ hostinfo
]

-- `_redact_proxy`
unfoldable pub redact_proxy : Chars → Chars
redact_proxy proxy = elim (partition proxy) [
  | none ↦ redact_rest proxy [] proxy
  | some (scheme, rest) ↦ redact_rest proxy (scheme ++ separator) rest
]

-- The proxy option.
pub data ProxyOption : Type 0 where
  environment direct not_a_text : ProxyOption
  url : Chars → ProxyOption

-- What `parse_proxy` of websockets does: the scheme, or `InvalidProxy` with its message.
pub data Parsed : Type 0 where
  parsed_scheme : Chars → Parsed
  invalid_proxy : Chars → Parsed

-- What the import of a module gives: none for an `ImportError`, or the module's `parse_proxy`, if it has
-- one.
abbrev pub Import : Type 0
Import = Option (Option (Chars → Parsed))

-- The loop of `_load_parse_proxy` over what the modules give.
unfoldable pub first_parser : List Import → Option (Chars → Parsed)
first_parser [] = none
first_parser (none ∷ modules) = first_parser modules
first_parser (some none ∷ modules) = first_parser modules
first_parser (some (some parse_proxy) ∷ modules) = some parse_proxy

pub data ModuleName : Type 0 where
  websockets_proxy websockets_uri : ModuleName

-- `_load_parse_proxy`
unfoldable pub load_parse_proxy : (ModuleName → Import) → Option (Chars → Parsed)
unfolding first_parser
load_parse_proxy import_module =
    first_parser (import_module websockets_proxy ∷ import_module websockets_uri ∷ [])

-- Each message of a `ValueError` by what it is made of.
pub data Verdict : Type 0 where
  accepted must_be_url : Verdict
  not_valid : Chars → Chars → Verdict
  requires_socks : Chars → Verdict

-- `parsed.scheme.startswith("socks")`
unfoldable pub is_socks : Chars → Bool
is_socks (a ∷ b ∷ c ∷ d ∷ e ∷ rest) = a == 115 && b == 111 && c == 99 && d == 107 && e == 115
is_socks _ = false

abbrev pub judged : Bool → Chars → Parsed → Verdict
judged socks_installed proxy (invalid_proxy message) = not_valid (redact_proxy proxy) message
judged socks_installed proxy (parsed_scheme scheme) =
    if is_socks scheme && not socks_installed then requires_socks scheme else accepted

-- `_validate_proxy`, where the parser may be missing.
unfoldable pub validate_proxy : Option (Chars → Parsed) → Bool → ProxyOption → Verdict
validate_proxy parse_proxy socks_installed environment = accepted
validate_proxy parse_proxy socks_installed direct = accepted
validate_proxy parse_proxy socks_installed not_a_text = must_be_url
validate_proxy none socks_installed (url proxy) = accepted
validate_proxy (some parse_proxy) socks_installed (url proxy) =
    judged socks_installed proxy (parse_proxy proxy)
