-- ===== src/Server/Serve/Silent.antt =====
-- A connection under the kill switch.
use brup_http_proxy.Prelude.{ℕ, ◌≡◌, true, false, none, some, ◌∷◌, ◌⊎◌}
use brup_http_proxy.Bytes.{Bytes}
use brup_http_proxy.Bytes.Int.{ℤ}
use brup_http_proxy.Result.{Result, ok}
use brup_http_proxy.Server.Answers.{is_passthrough}
use brup_http_proxy.Server.State.{Server, World, tunnel_message}
use brup_http_proxy.Server.Sends.{sent_by}
use brup_http_proxy.Server.Serve.{Ending, Served, passed_through}

-- What a connection may send since `s`: nothing, or the bytes that follow a CONNECT to a host that is
-- passed through, into the tunnel.
module _ (lower_text : Bytes → Bytes) (worlds : ℕ → World) where
  abbrev pub OnlyTunnels : Server → Result Ending → Server → Type 0
  OnlyTunnels s r s' =
      (sent_by s' ≡ sent_by s)
      ⊎ ((n : ℕ) × (host : Bytes) × (port : ℤ) × (raw : Bytes) × (is_passthrough lower_text
              (worlds n).settings.tls_passthrough_hosts host
            ≡ true)
          × (r ≡ ok (passed_through host port))
          × (sent_by s' ≡ (host, port, false, tunnel_message raw) ∷ sent_by s))

  abbrev Silent : Server → Served → Type 0
  Silent s none = Unit
  Silent s (some (r, s')) = OnlyTunnels s r s'
