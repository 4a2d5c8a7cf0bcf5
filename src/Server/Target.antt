-- ===== src/Server/Target.antt =====
-- `_resolve_target` of backend/brup/proxy/server.py.
use brup_http_proxy.Prelude.{Bool, Option, none, some, [], if◌then◌else◌, is_empty}
use brup_http_proxy.Bytes.{Bytes, codes, bytes_eq, lower, split_once, strip_text}
use brup_http_proxy.Bytes.Int.{ℤ, pos}
use brup_http_proxy.Result.{Result, ok, ◌>>=◌}
use brup_http_proxy.HttpMessage.Message.{Request, header, is_absolute_form}
use brup_http_proxy.HttpMessage.Authority.{split_authority, default_port}
use brup_http_proxy.Server.State.{ServerSettings}

abbrev pub Destination : Type 0
Destination = Bytes × ℤ × Bool

abbrev with_tls : Bool → Bytes × ℤ → Destination
with_tls tls (host, port) = (host, port, tls)

-- the text behind the first "://", or "" without one
abbrev rest_of : Option Bytes → Bytes
rest_of none = []
rest_of (some rest) = rest

unfoldable pub absolute_target : Request → Result (Option Destination)
unfolding split_once bytes_eq lower split_authority
absolute_target req =
    let parts = split_once (codes "://") req.target in
    let is_tls = bytes_eq (lower parts.0) (codes "https") in
    let authority = (split_once (codes "/") (rest_of parts.1)).0 in
    do
      found ← split_authority authority (pos (default_port is_tls))
      ok (some (with_tls is_tls found))

unfoldable pub default_target : ServerSettings → Bool → Result (Option Destination)
unfolding strip_text split_authority
default_target settings tls =
    let default = strip_text settings.invisible_default_host in
    if is_empty default
    then ok none
    else do found ← split_authority default (pos (default_port tls)); ok (some (with_tls tls found))

-- an origin-form request of invisible mode
unfoldable pub invisible_target : ServerSettings → Bool → Request → Result (Option Destination)
unfolding header split_authority default_target
invisible_target settings tls req = elim (header req (codes "host")) [
  | none ↦ default_target settings tls
  | some value ↦ if is_empty value then default_target settings tls else do
    found ← split_authority value (pos (default_port tls))
    if is_empty found.0 then default_target settings tls else ok (some (with_tls tls found))
]

unfoldable pub resolve_target :
    ServerSettings → Bool → Option (Bytes × ℤ) → Request → Result (Option Destination)
unfolding is_absolute_form absolute_target invisible_target
resolve_target settings tls fixed_host req =
    if is_absolute_form req then absolute_target req else elim fixed_host [
      | some (host, port) ↦ ok (some (host, port, tls))
      | none ↦ if settings.invisible_proxy then invisible_target settings tls req else ok none
    ]
