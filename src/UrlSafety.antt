-- ===== src/UrlSafety.antt =====
-- src/server/security/url-safety.ts: which addresses the server may fetch. Texts are lists of code
-- points. `URL`, `isIP` and the name lookup are the platform's: the record Net, and an argument.
mod Tests
pub mod Ranges
use Prim.Native.Char.{code}
use web_sync_play.Prelude.{
  ℕ, zero, suc, ◌+◌, ◌-◌, ◌*◌, ◌/◌, ◌%◌, String, Bool, true, false, not, ◌&&◌, ◌||◌, Option, none,
  some, List, [], ◌∷◌, ◌++◌, map, leb, ltb, ◌==◌, if◌then◌else◌, length, any, drop, is_some, str_eq,
}

abbrev pub Text : Type 0
Text = List ℕ

abbrev pub codes : String → Text
codes String.[] = []
codes (String.◌∷◌ c s) = code c ∷ codes s

pub record Url : Type 0 where
  pub protocol : String
  pub hostname : String
  pub href : String

-- `new URL(raw)`, which throws for `none`, and `isIP(text) !== 0`.
pub record Net : Type 0 where
  pub parse_url : String → Option Url
  pub is_ip : Text → Bool
  pub allow_private_urls : Bool

pub data UrlSafety : Type 0 where
  safe : Url → UrlSafety
  invalid_url unsupported_protocol blocked_hostname private_ip dns_lookup_failed : UrlSafety

pub same_codes : Text → Text → Bool
same_codes [] [] = true
same_codes (a ∷ s) (b ∷ t) = a == b && same_codes s t
same_codes _ _ = false

pub has_prefix : Text → Text → Bool
has_prefix [] t = true
has_prefix (a ∷ s) [] = false
has_prefix (a ∷ s) (b ∷ t) = a == b && has_prefix s t

unfoldable pub has_suffix : Text → Text → Bool
unfolding same_codes
has_suffix suffix t =
    leb (length suffix) (length t) && same_codes suffix (drop (length t - length suffix) t)

abbrev pub cons_first : ℕ → List Text → List Text
cons_first a [] = (a ∷ []) ∷ []
cons_first a (part ∷ rest) = (a ∷ part) ∷ rest

-- `split` at one character.
pub split_at : ℕ → Text → List Text
split_at c [] = [] ∷ []
split_at c (a ∷ s) = let parts = split_at c s in if a == c then [] ∷ parts else cons_first a parts

abbrev pub to_lower : ℕ → ℕ
to_lower c = if leb b'A' c && leb c b'Z' then c + 32 else c

abbrev pub drop_bracket : Text → Text
drop_bracket [] = []
drop_bracket (c ∷ s) = if c == b'[' then s else c ∷ s

abbrev pub is_nil : Text → Bool
is_nil [] = true
is_nil (c ∷ s) = false

-- Drops a last character, once.
abbrev pub drop_last_if : ℕ → Text → Text
drop_last_if d [] = []
drop_last_if d (c ∷ s) = if is_nil s && (c == d) then [] else c ∷ drop_last_if d s

-- The loop on `endsWith(".")`.
abbrev pub drop_dots : Text → Text
drop_dots [] = []
drop_dots (c ∷ s) = let rest = drop_dots s in if is_nil rest && (c == b'.') then [] else c ∷ rest

unfoldable pub normalize_hostname : String → Text
normalize_hostname hostname =
    drop_dots (map to_lower (drop_last_if b']' (drop_bracket (codes hostname))))

abbrev pub blocked_hostnames : List Text
blocked_hostnames = codes "localhost" ∷ codes "metadata.google.internal" ∷ codes "metadata" ∷ []

abbrev pub blocked_hostname_suffixes : List Text
blocked_hostname_suffixes = codes ".localhost" ∷ codes ".local" ∷ []

abbrev pub is_digit : ℕ → Bool
is_digit c = leb b'0' c && leb c b'9'

-- `Number` of a part of an address: decimal digits.
pub read_decimal : ℕ → Text → Option ℕ
read_decimal acc [] = some acc
read_decimal acc (c ∷ s) =
    let rest = read_decimal (acc * 10 + (c - b'0')) s in if is_digit c then rest else none

abbrev pub is_private_octets : ℕ → ℕ → Bool
is_private_octets a b =
    if (a == 10) || ((a == 127) || (a == 0))
    then true
    else if (a == 169) && (b == 254)
    then true
    else if (a == 172) && (leb 16 b && leb b 31)
    then true
    else if (a == 192) && (b == 168)
    then true
    else (a == 100) && (leb 64 b && leb b 127)

-- The four numbers, `none` if one is missing or is no number.
abbrev pub read_octets : List Text → Option (List ℕ)
read_octets [] = some []
read_octets (part ∷ rest) = elim (read_decimal 0 part) [
  | none ↦ none
  | some n ↦ elim (read_octets rest) [ none ↦ none | some ns ↦ some (n ∷ ns) ]
]

abbrev pub octets_private : Option (List ℕ) → Bool
octets_private (some (a ∷ b ∷ c ∷ d ∷ [])) = is_private_octets a b
octets_private _ = true

unfoldable pub is_private_or_local_ipv4 : Text → Bool
unfolding read_decimal split_at
is_private_or_local_ipv4 ip = octets_private (read_octets (split_at b'.' ip))

abbrev pub hex_digit : ℕ → Option ℕ
hex_digit c =
    if is_digit c
    then some (c - b'0')
    else if leb b'a' c && leb c b'f'
    then some (c - b'a' + 10)
    else none

pub read_hex : ℕ → Text → Option ℕ
read_hex acc [] = some acc
read_hex acc (c ∷ s) = elim (hex_digit c) [ none ↦ none | some d ↦ read_hex (acc * 16 + d) s ]

-- `[0-9a-f]{1,4}`
abbrev pub hex_group : Text → Option ℕ
hex_group s = if leb 1 (length s) && leb (length s) 4 then read_hex 0 s else none

-- `\d{1,3}`
abbrev pub dotted_part : Text → Option ℕ
dotted_part s = if leb 1 (length s) && leb (length s) 3 then read_decimal 0 s else none

abbrev pub dotted_octets : List Text → Option (List ℕ)
dotted_octets [] = some []
dotted_octets (part ∷ rest) = elim (dotted_part part) [
  | none ↦ none
  | some n ↦ elim (dotted_octets rest) [ none ↦ none | some ns ↦ some (n ∷ ns) ]
]

abbrev pub four : Option (List ℕ) → Option (List ℕ)
four (some (a ∷ b ∷ c ∷ d ∷ [])) = some (a ∷ b ∷ c ∷ d ∷ [])
four _ = none

abbrev pub hex_octets : Option ℕ → Option ℕ → Option (List ℕ)
hex_octets (some hi) (some lo) =
    some ((hi / 256 % 256) ∷ (hi % 256) ∷ (lo / 256 % 256) ∷ (lo % 256) ∷ [])
hex_octets _ _ = none

-- The groups of an address from the last to the first: the two patterns end in `ffff:` and the rest.
abbrev pub mapped_groups : List Text → Option (List ℕ)
mapped_groups [] = none
mapped_groups (last ∷ []) = none
mapped_groups (last ∷ before ∷ []) =
    if same_codes before (codes "ffff") then four (dotted_octets (split_at b'.' last)) else none
mapped_groups (last ∷ before ∷ third ∷ rest) =
    if same_codes before (codes "ffff") && is_some (four (dotted_octets (split_at b'.' last)))
    then four (dotted_octets (split_at b'.' last))
    else if same_codes third (codes "ffff")
    then hex_octets (hex_group before) (hex_group last)
    else none

abbrev pub reversed : List Text → List Text → List Text
reversed done [] = done
reversed done (g ∷ rest) = reversed (g ∷ done) rest

-- The octets of an IPv4 address that is mapped into IPv6.
unfoldable pub ipv4_mapped_octets : Text → Option (List ℕ)
unfolding same_codes read_decimal read_hex split_at
ipv4_mapped_octets ip = mapped_groups (reversed [] (split_at b':' ip))

unfoldable pub is_private_or_local_ip : Text → Bool
unfolding is_private_or_local_ipv4 ipv4_mapped_octets has_prefix same_codes
is_private_or_local_ip address =
    let ip = map to_lower address in
    if same_codes ip (codes "::1")
      || (same_codes ip (codes "::") || same_codes ip (codes "0.0.0.0"))
    then true
    else elim (ipv4_mapped_octets ip) [
      | some octets ↦ octets_private (some octets)
      | none ↦
          if any (λ c. c == b':') ip
          then has_prefix (codes "fc") ip
            || (has_prefix (codes "fd") ip || has_prefix (codes "fe80:") ip)
          else is_private_or_local_ipv4 ip
    ]

abbrev pub is_blocked_hostname : Text → Bool
is_blocked_hostname hostname =
    any (same_codes hostname) blocked_hostnames
    || any (λ suffix. has_suffix suffix hostname) blocked_hostname_suffixes

unfoldable pub is_private_or_loopback_http_url : Net → String → Bool
unfolding normalize_hostname is_private_or_local_ip has_suffix same_codes
is_private_or_loopback_http_url net raw = elim (net.parse_url raw) [
  | none ↦ false
  | some url ↦
      let hostname = normalize_hostname url.hostname in
      is_blocked_hostname hostname || (net.is_ip hostname && is_private_or_local_ip hostname)
]

unfoldable pub assert_public_http_url : Net → String → UrlSafety
unfolding normalize_hostname is_private_or_local_ip has_suffix same_codes
assert_public_http_url net raw = elim (net.parse_url raw) [
  | none ↦ invalid_url
  | some url ↦
      let hostname = normalize_hostname url.hostname in
      if not (str_eq url.protocol "http:") && not (str_eq url.protocol "https:")
      then unsupported_protocol
      else if net.allow_private_urls
      then safe url
      else if is_blocked_hostname hostname
      then blocked_hostname
      else if net.is_ip hostname && is_private_or_local_ip hostname
      then private_ip
      else safe url
]

-- The answer of the lookup is `none` if it fails.
abbrev pub check_addresses : Url → Option (List Text) → UrlSafety
check_addresses url none = dns_lookup_failed
check_addresses url (some []) = dns_lookup_failed
check_addresses url (some (a ∷ rest)) =
    if any is_private_or_local_ip (a ∷ rest) then private_ip else safe url

unfoldable pub assert_public_http_url_resolved :
    Net → (Text → Option (List Text)) → String → UrlSafety
unfolding assert_public_http_url is_private_or_local_ip
assert_public_http_url_resolved net lookup_address raw = elim (assert_public_http_url net raw) [
  | safe url ↦
      let hostname = normalize_hostname url.hostname in
      if net.allow_private_urls
      then safe url
      else if net.is_ip hostname
      then safe url
      else check_addresses url (lookup_address hostname)
  | refused ↦ refused
]
