-- ===== src/Config/Overrides.antt =====
-- `merge_settings` and `validate_overrides` of backend/brup/config.py. Settings are the dictionary of
-- their fields; a value is of a type that the model leaves open, and so is what `Settings.model_validate`
-- of the pydantic library accepts.
pub mod Laws
use brup_http_proxy.Prelude.{
  Bool, true, false, not, ◌&&◌, Option, none, some, List, [], ◌∷◌, map, if◌then◌else◌, any,
}
use brup_http_proxy.Bytes.{Bytes, codes, bytes_eq}
use brup_http_proxy.Result.{Result, ok, err, value_error, ◌>>=◌}

abbrev pub system_only_keys : List Bytes
system_only_keys =
    codes "proxy_host"
    ∷ codes "proxy_port"
    ∷ codes "invisible_tls_enabled"
    ∷ codes "invisible_tls_port"
    ∷ codes "listen_http2"
    ∷ codes "vpn_required"
    ∷ codes "vpn_autoconnect"
    ∷ codes "vpn_override_dns"
    ∷ codes "vpn_exit_ip_url"
    ∷ codes "vpn_auto_check_exit_ip"
    ∷ []

-- the other fields of Settings
abbrev pub project_overridable_keys : List Bytes
project_overridable_keys =
    codes "invisible_proxy"
    ∷ codes "invisible_default_host"
    ∷ codes "intercept_enabled"
    ∷ codes "intercept_requests"
    ∷ codes "intercept_responses"
    ∷ codes "intercept_skip_extensions"
    ∷ codes "scope_include"
    ∷ codes "scope_exclude"
    ∷ codes "header_rules"
    ∷ codes "upstream_http2"
    ∷ codes "upstream_proxy"
    ∷ codes "upstream_verify_tls"
    ∷ codes "connect_timeout"
    ∷ codes "read_timeout"
    ∷ codes "tls_passthrough_hosts"
    ∷ codes "logging_enabled"
    ∷ codes "log_out_of_scope"
    ∷ codes "max_history"
    ∷ codes "max_stored_body"
    ∷ []

-- `key in keys`
unfoldable pub key_in : Bytes → List Bytes → Bool
unfolding bytes_eq
key_in key keys = any (bytes_eq key) keys

module _ {ℓ} {V : Type ℓ} where
  -- `data[key] = value`
  unfoldable pub assign : List (Bytes × V) → Bytes → V → List (Bytes × V)
  assign [] key value = (key, value) ∷ []
  assign ((k, v) ∷ data') key value =
      let rest = assign data' key value in
      if bytes_eq k key then (k, value) ∷ data' else (k, v) ∷ rest

  -- the loop of `merge_settings`
  unfoldable pub overridden : List (Bytes × V) → List (Bytes × V) → List (Bytes × V)
  overridden data' [] = data'
  overridden data' ((key, value) ∷ overrides) =
      if key_in key project_overridable_keys
      then overridden (assign data' key value) overrides
      else overridden data' overrides

  -- the loop of `validate_overrides`; `none` is a value of None
  unfoldable pub clean_from : List (Bytes × V) → List (Bytes × Option V) → Result (List (Bytes × V))
  clean_from cleaned [] = ok cleaned
  clean_from cleaned ((key, value) ∷ overrides) =
      if key_in key system_only_keys
      then err value_error
      else if not (key_in key project_overridable_keys)
      then err value_error
      else elim value [
        | none ↦ clean_from cleaned overrides
        | some v ↦ clean_from (assign cleaned key v) overrides
      ]

module _ {ℓ κ} {V : Type ℓ} {S : Type κ} (model_validate : List (Bytes × V) → Result S)
    (model_dump : S → List (Bytes × V)) where
  unfoldable pub merge_settings : S → List (Bytes × V) → Result S
  unfolding overridden
  merge_settings system overrides = model_validate (overridden (model_dump system) overrides)

  unfoldable pub validate_overrides : S → List (Bytes × Option V) → Result (List (Bytes × V))
  unfolding clean_from merge_settings
  validate_overrides defaults overrides = do
    cleaned ← clean_from [] overrides
    merged ← merge_settings defaults cleaned
    ok cleaned
