-- ===== src/Vpn/Profile.antt =====
-- Profiles of backend/brup/vpn.py: `VpnProfile`, `detect_kind`, `_wg_sections` and what `describe_config`
-- says of a WireGuard configuration. Texts are lists of code points; `str.lower` and the prefix length
-- that the ipaddress library reads are parameters.
use brup_http_proxy.Prelude.{
  ℕ, ◌-◌, Bool, false, not, ◌&&◌, Option, none, some, List, [], ◌∷◌, ◌++◌, map, ◌==◌, if◌then◌else◌,
  is_empty, keep, any, length, take, drop,
}
use brup_http_proxy.Bytes.{Bytes, codes, bytes_eq, starts_with, contains, split_on, strip_text}
use brup_http_proxy.Result.{Result, ok, err, vpn_error}
use brup_http_proxy.Vpn.Lines.{splitlines, partition}
use brup_http_proxy.Config.Scope.{before}
use brup_http_proxy.Config.Overrides.{assign}

pub data Kind : Type 0 where
  openvpn wireguard : Kind

pub record VpnProfile : Type 0 where
  pub id : Bytes
  pub kind : Kind
  pub config : Bytes
  pub username : Bytes
  pub password : Bytes

unfoldable pub openvpn_markers : List Bytes
openvpn_markers =
    codes "remote "
    ∷ codes "client\n"
    ∷ codes "dev tun"
    ∷ codes "<ca>"
    ∷ codes "proto udp"
    ∷ codes "proto tcp"
    ∷ []

-- the fields of one section, and the sections with their names
abbrev pub Fields : Type 0
Fields = List (Bytes × Bytes)

abbrev pub Sections : Type 0
Sections = List (Bytes × Fields)

-- `fields.get(key, "")`
unfoldable pub field : Bytes → Fields → Bytes
unfolding bytes_eq
field key [] = []
field key ((k, v) ∷ fields) = let rest = field key fields in if bytes_eq k key then v else rest

-- `line[1:-1]`, of a line with at least one character
abbrev pub inside : Bytes → Bytes
inside line = drop 1 (take (length line - 1) line)

abbrev pub ends_with : Bytes → Bytes → Bool
unfolding bytes_eq
ends_with suffix s = bytes_eq (drop (length s - length suffix) s) suffix

-- `[v.strip() for v in value.split(",") if v.strip()]`
unfoldable pub comma_list : Bytes → List Bytes
unfolding split_on strip_text
comma_list value = keep (λ v. not (is_empty v)) (map strip_text (split_on b',' value))

-- the lines that name DNS servers, and the others
unfoldable pub is_dns_line : (Bytes → Bytes) → Bytes → Bool
unfolding starts_with strip_text
is_dns_line lower_text raw = starts_with (codes "dns") (lower_text (strip_text raw))

module _ (lower_text : Bytes → Bytes) where
  unfoldable pub detect_kind : Bytes → Result Kind
  unfolding contains openvpn_markers
  detect_kind config =
      let text = lower_text config in
      if contains (codes "[interface]") text && contains (codes "privatekey") text
      then ok wireguard
      else if any (λ marker. contains marker text) openvpn_markers
      then ok openvpn
      else err vpn_error

  -- one line; the first section is the one that is being filled
  unfoldable pub section_line : Sections → Bytes → Sections
  unfolding before strip_text starts_with contains partition assign
  section_line sections raw =
      let line = strip_text (before b'#' raw) in
      let parts = partition b'=' line in
      if is_empty line
      then sections
      else if starts_with (codes "[") line && ends_with (codes "]") line
      then (lower_text (strip_text (inside line)), []) ∷ sections
      else if not (contains (codes "=") line)
      then sections
      else elim sections [
        | [] ↦ []
        | (name, fields) ∷ others ↦
            (name, assign fields (lower_text (strip_text parts.0)) (strip_text parts.1)) ∷ others
      ]

  unfoldable pub sections_from : Sections → List Bytes → Sections
  unfolding section_line
  sections_from sections [] = sections
  sections_from sections (raw ∷ lines) = sections_from (section_line sections raw) lines

  -- the sections, the last one first
  unfoldable pub wg_sections : Bytes → Sections
  unfolding sections_from splitlines
  wg_sections config = sections_from [] (splitlines config)

  -- `sections.get(name)`, the last one first
  unfoldable pub named : Bytes → Sections → List Fields
  unfolding bytes_eq
  named name [] = []
  named name ((n, fields) ∷ sections) =
      let rest = named name sections in if bytes_eq n name then fields ∷ rest else rest

  -- the peers' endpoints, in the order of `sections`
  unfoldable pub endpoints : List Fields → List Bytes
  unfolding field
  endpoints [] = []
  endpoints (peer ∷ peers) =
      let endpoint = field (codes "endpoint") peer in
      let rest = endpoints peers in if is_empty endpoint then rest else endpoint ∷ rest

  -- Some network of some peer has the prefix length 0; `prefixlen` has `none` for a ValueError.
  unfoldable pub allowed_all : (Bytes → Option ℕ) → List Fields → Bool
  unfolding field comma_list
  allowed_all prefixlen peers =
      any
        (λ peer.
          any (λ net. elim (prefixlen net) [ none ↦ false | some n ↦ n == 0 ])
            (comma_list (field (codes "allowedips") peer)))
        peers

  -- the servers of the DNS lines, in their order
  unfoldable pub dns_servers : List Bytes → List Bytes
  unfolding is_dns_line partition comma_list
  dns_servers [] = []
  dns_servers (raw ∷ lines) =
      let rest = dns_servers lines in
      if is_dns_line lower_text raw then comma_list (partition b'=' raw).1 ++ rest else rest

  -- the lines that are written for wg-quick
  unfoldable pub wg_lines : List Bytes → List Bytes
  unfolding is_dns_line
  wg_lines [] = []
  wg_lines (raw ∷ lines) =
      let rest = wg_lines lines in if is_dns_line lower_text raw then rest else raw ∷ rest
