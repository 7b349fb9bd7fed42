-- ===== src/Password/Hex.antt =====
-- The printed digest determines the digest.
use reference_monitor.Base.{All, List, [], arith, refl, ℕ, ◌%◌, ◌/◌, ◌<◌, ◌∷◌, ◌≡◌}
use reference_monitor.Password.{hex, hex_digit}

hex_digit_injective : (a b : ℕ) → a < 16 → b < 16 → hex_digit a ≡ hex_digit b → a ≡ b
unfolding hex_digit
hex_digit_injective a b ha hb e = ground arith

byte_of_digits :
    (a b : ℕ)
    → a < 256
    → b < 256
    → hex_digit (a / 16) ≡ hex_digit (b / 16)
    → hex_digit (a % 16) ≡ hex_digit (b % 16)
    → a ≡ b
byte_of_digits a b ha hb e f = omega (
  arith,
  hex_digit_injective (a / 16) (b / 16) (omega arith) (omega arith) e,
  hex_digit_injective (a % 16) (b % 16) (omega arith) (omega arith) f,
)

pub hex_injective :
    (xs ys : List ℕ) → All (λ b. b < 256) xs → All (λ b. b < 256) ys → hex xs ≡ hex ys → xs ≡ ys
unfolding hex
hex_injective [] [] hx hy e = refl
hex_injective [] (y ∷ ys) hx hy e = cc
hex_injective (x ∷ xs) [] hx hy e = cc
hex_injective (x ∷ xs) (y ∷ ys) hx hy e =
    ground (arith, byte_of_digits x y hx.0 hy.0, hex_injective xs ys hx.1 hy.1)
