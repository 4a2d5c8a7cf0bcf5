-- ===== src/Result.antt =====
-- Python exceptions as values. The texts of the messages are not modelled.
use brup_http_proxy.Prelude.{◌≡◌, refl, ap, ◌⊎◌, inl, inr}

pub data Error : Type 0 where
  -- http_message.ParseError, http2.Http2Error, intruder.ParseError
  parse_error http2_error template_error : Error
  -- ValueError, and what asyncio's readers raise
  value_error incomplete_read limit_overrun : Error
  -- IndexError
  index_error : Error
  -- TimeoutError, and OSError with ssl.SSLError
  timeout_error os_error : Error
  -- vpn.VpnError, projects.ProjectError, AssertionError, and any other exception
  vpn_error project_error assertion_error other_error : Error

pub data Result {ℓ} (A : Type ℓ) : Type ℓ where
  ok : A → Result A
  err : Error → Result A

infixl 5 ◌>>=◌
abbrev pub ◌>>=◌ {ℓ κ} : {A : Type ℓ} {B : Type κ} → Result A → (A → Result B) → Result B
ok a >>= f = f a
err e >>= f = err e

pub Result-cases {ℓ} :
    {A : Type ℓ} (r : Result A) → ((a : A) × (r ≡ ok a)) ⊎ ((e : Error) × (r ≡ err e))
Result-cases (ok a) = inl (a, refl)
Result-cases (err e) = inr (e, refl)

pub ok-inj {ℓ} : {A : Type ℓ} {a b : A} → Path (Result A) (ok a) (ok b) → a ≡ b
ok-inj {a = a} e = ap (λ (r : Result _). elim r [ ok x ↦ x | err x ↦ a ]) e
