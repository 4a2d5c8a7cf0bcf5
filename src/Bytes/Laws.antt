-- ===== src/Bytes/Laws.antt =====
-- Laws of the byte operations.
use brup_http_proxy.Prelude.{◌≡◌, ◌↔◌, true, arith, [], ◌∷◌}
use brup_http_proxy.Bytes.{Bytes, bytes_eq}

pub bytes_eq_iff : (s t : Bytes) → (bytes_eq s t ≡ true) ↔ (s ≡ t)
unfolding bytes_eq
bytes_eq_iff [] [] = ground arith
bytes_eq_iff [] (y ∷ t) = ground arith
bytes_eq_iff (x ∷ s) [] = ground arith
bytes_eq_iff (x ∷ s) (y ∷ t) = ground (arith, bytes_eq_iff s t)
