-- ===== src/Server/Serve/Ends.antt =====
-- The loop over the requests of a connection ends, and what it sends.
use brup_http_proxy.Prelude.{
  ℕ, zero, suc, ◌<◌, ◌≤◌, ◌≡◌, ◌≢◌, ◌⊎◌, refl, Bool, true, false, Option, none, some, arith, length,
  Bool-cases, inl, inr,
}
use brup_http_proxy.Bytes.{Bytes}
use brup_http_proxy.Bytes.Int.{ℤ}
use brup_http_proxy.Result.{Error, Result, ok, err}
use brup_http_proxy.HttpMessage.Message.{Request}
use brup_http_proxy.HttpMessage.Read.{read_head, read_body}
use brup_http_proxy.HttpMessage.Read.Shorter.{read_head-shorter, read_body-shorter}
use brup_http_proxy.HttpMessage.Read.Framing.{body-cases, read_body-ne_none}
use brup_http_proxy.Server.Target.{Destination, resolve_target}
use brup_http_proxy.Server.State.{Server, World}
use brup_http_proxy.Server.Serve.{
  Served, stream_limit, next_request, after_exchange, serve_body, serve_request, serve_from,
  serve_requests, is_connect,
}

pub head-cases :
    {A : Type 0} (r : Result (Option A × Bytes))
    → ((x : Error) × (r ≡ err x))
      ⊎ (((rest : Bytes) × (r ≡ ok (none, rest)))
          ⊎ ((a : A) × (rest : Bytes) × (r ≡ ok (some a, rest))))
head-cases (err x) = inl (x, refl)
head-cases (ok (none, rest)) = inr (inl (rest, refl))
head-cases (ok (some a, rest)) = inr (inr (a, rest, refl))

-- A request that was read shortens the stream.
next_request-shorter :
    (stream rest : Bytes) (req : Result Request)
    → next_request stream ≡ ok (some req, rest)
    → length rest < length stream
unfolding next_request
next_request-shorter stream rest req h = elim (head-cases (read_head stream_limit stream)) [
  | inl (x, e) ↦ ground arith
  | inr (inl (r, e)) ↦ ground arith
  | inr (inr (head, r, e)) ↦ ground (arith, read_head-shorter stream_limit stream head r e)
]

after_exchange-ne_none :
    (next : Bytes → Server → Served) (rest : Bytes) (r : Result Bool × Server)
    → ((s : Server) → next rest s ≢ none)
    → after_exchange next rest r ≢ none
unfolding after_exchange
after_exchange-ne_none next rest (err e, s) h = λ c. cc c
after_exchange-ne_none next rest (ok true, s) h = h s
after_exchange-ne_none next rest (ok false, s) h = λ c. cc c

pub target-cases :
    {A : Type 0} (r : Result (Option A))
    → ((x : Error) × (r ≡ err x)) ⊎ ((r ≡ ok none) ⊎ ((a : A) × (r ≡ ok (some a))))
target-cases (err x) = inl (x, refl)
target-cases (ok none) = inr (inl refl)
target-cases (ok (some a)) = inr (inr (a, refl))

pub request-cases :
    {A : Type 0} (r : Result (Option (Result A) × Bytes))
    → ((x : Error) × (r ≡ err x))
      ⊎ (((rest : Bytes) × (r ≡ ok (none, rest)))
          ⊎ (((x : Error) × (rest : Bytes) × (r ≡ ok (some (err x), rest)))
              ⊎ ((a : A) × (rest : Bytes) × (r ≡ ok (some (ok a), rest)))))
request-cases (err x) = inl (x, refl)
request-cases (ok (none, rest)) = inr (inl (rest, refl))
request-cases (ok (some (err x), rest)) = inr (inr (inl (x, rest, refl)))
request-cases (ok (some (ok a), rest)) = inr (inr (inr (a, rest, refl)))

module _ {ℓ} {P : Type ℓ} (compile : Bytes → Option P) (search : P → Bytes → Bool)
    (lower_text : Bytes → Bytes) (worlds : ℕ → World) (tls : Bool)
    (fixed_host : Option (Bytes × ℤ)) where
  serve_body-ne_none :
      (n : ℕ) (req : Request) (target : Destination) (stream : Bytes) (s : Server)
      (next : Bytes → Server → Served)
      → ((rest : Bytes) (s' : Server) → length rest ≤ length stream → next rest s' ≢ none)
      → serve_body compile search lower_text worlds tls fixed_host n req target stream s next ≢ none
  unfolding serve_body
  serve_body-ne_none n req (host, port, is_tls) stream s next h =
      elim (body-cases (read_body stream_limit req.headers false none none stream)) [
        | inl e ↦ absurd (read_body-ne_none stream_limit req.headers false none none stream e)
        | inr (inl (b, rest, e)) ↦
            rw (e, serve_body)
              (after_exchange-ne_none next rest _
                (λ s'. h rest s' (read_body-shorter stream_limit req.headers stream rest b e)))
        | inr (inr (x, e)) ↦ rw (e, serve_body) (λ c. cc c)
      ]

  serve_request-ne_none :
      (n : ℕ) (req : Request) (stream : Bytes) (s : Server) (next : Bytes → Server → Served)
      → ((rest : Bytes) (s' : Server) → length rest ≤ length stream → next rest s' ≢ none)
      → serve_request compile search lower_text worlds tls fixed_host n req stream s next ≢ none
  unfolding serve_request
  serve_request-ne_none n req stream s next h = elim (Bool-cases (is_connect req)) [
    | inl c ↦ rw (c, serve_request) (λ z. cc z)
    | inr c ↦ elim (target-cases (resolve_target (worlds n).settings tls fixed_host req)) [
      | inl (x, e) ↦ rw (c, e, serve_request) (λ z. cc z)
      | inr (inl e) ↦ rw (c, e, serve_request) (λ z. cc z)
      | inr (inr (target, e)) ↦
          rw (c, e, serve_request) (serve_body-ne_none n req target stream s next h)
    ]
  ]

  serve_from-ne_none :
      (fuel n : ℕ) (stream : Bytes) (s : Server)
      → length stream < fuel
      → serve_from compile search lower_text worlds tls fixed_host fuel n stream s ≢ none
  unfolding serve_from
  serve_from-ne_none zero n stream s h = elim h [ ]
  serve_from-ne_none (suc fuel) n stream s h = elim (request-cases (next_request stream)) [
    | inl (x, e) ↦ rw (e, serve_from) (λ z. cc z)
    | inr (inl (r, e)) ↦ rw (e, serve_from) (λ z. cc z)
    | inr (inr (inl (x, r, e))) ↦ rw (e, serve_from) (λ z. cc z)
    | inr (inr (inr (req, rest, e))) ↦
        rw (e, serve_from)
          (serve_request-ne_none n req rest s
            (serve_from compile search lower_text worlds tls fixed_host fuel (suc n))
            (λ rest' s' shorter.
              serve_from-ne_none fuel (suc n) rest' s'
                (omega (arith, shorter, h, next_request-shorter stream rest (ok req) e))))
  ]

  -- Serving a connection ends on every finite stream, whatever the requests in it and whatever the
  -- operator and the origins do.
  pub serve_requests-ne_none :
      (stream : Bytes) (s : Server)
      → serve_requests compile search lower_text worlds tls fixed_host stream s ≢ none
  unfolding serve_requests
  serve_requests-ne_none stream s =
      serve_from-ne_none (suc (length stream)) 0 stream s (omega arith)
