-- ===== src/Api/Limiter/Tests.antt =====
-- Runs of the rate limiter, and a witness for each of its properties.
use packet_lab.Prelude.{
  ℕ, ◌≤◌, ◌≡◌, refl, true, false, List, [], ◌∷◌, arith, Bytes, bytes, lookup, insert, eqb,
}
use packet_lab.Api.Limiter.{RateLimiter, allow, cleanup, allow_all}
use packet_lab.Api.Limiter.Window.{let_through, first_window}
use packet_lab.Api.Limiter.Cleanup.{allow-cleanup}

abbrev a : Bytes
a = bytes "a"

abbrev b : Bytes
b = bytes "b"

abbrev limiter : RateLimiter
limiter = record {
  visitors = (a, record { count = 1; reset_at = 50 }) ∷ [];
  max_calls = 2;
  window = 60;
}

abbrev calls : List (Bytes × ℕ)
calls = (a, 10) ∷ (b, 11) ∷ (a, 12) ∷ (a, 50) ∷ []

answers : (allow_all calls limiter).0 ≡ true ∷ true ∷ false ∷ false ∷ []
unfolding allow_all allow lookup insert eqb
answers = refl

first_window_example :
    let_through b
      ((b, 10) ∷ (b, 20) ∷ (b, 30) ∷ [])
      (allow_all ((b, 10) ∷ (b, 20) ∷ (b, 30) ∷ []) limiter).0
    ≤ 2
unfolding lookup eqb
first_window_example =
    first_window b 10 ((b, 20) ∷ (b, 30) ∷ []) limiter refl (omega arith, (omega arith, tt))

allow-cleanup_example : (allow a 70 (cleanup 60 limiter)).0 ≡ (allow a 70 limiter).0
unfolding lookup
allow-cleanup_example = allow-cleanup a 60 70 limiter (refl, tt) (omega arith)
