-- ===== src/Client/Text.antt =====
-- The functions of the C library by which client/client.c reads a command: `strtok` at spaces, and
-- `strtol` with base 0.
use reference_monitor.Base.{
  Bool, List, Option, [], false, if◌then◌else◌, leb, ltb, none, some, true, ℕ, ◌%◌, ◌&&◌, ◌*◌, ◌+◌,
  ◌-◌, ◌==◌, ◌^◌, ◌||◌, ◌∷◌,
}
use reference_monitor.Base.Int.{int_of, ℤ}

skip_spaces : List ℕ → List ℕ
skip_spaces [] = []
skip_spaces (c ∷ s) = if c == 32 then skip_spaces s else c ∷ s

-- The characters before the first space, and those behind it
to_space : List ℕ → List ℕ × List ℕ
to_space [] = ([], [])
to_space (c ∷ s) = let (w, rest) = to_space s in if c == 32 then ([], s) else (c ∷ w, rest)

-- A call of `strtok`, with what it leaves to the next one; `none` is NULL.
unfoldable pub strtok : List ℕ → Option (List ℕ × List ℕ)
unfolding skip_spaces to_space
strtok s = elim (skip_spaces s) [ [] ↦ none | c ∷ s' ↦ some (to_space (c ∷ s')) ]

-- A digit of the largest base; other characters have the value 36.
digit_value : ℕ → ℕ
digit_value c =
    if leb 48 c && leb c 57
    then c - 48
    else if leb 97 c && leb c 122
    then c - 87
    else if leb 65 c && leb c 90
    then c - 55
    else 36

-- The number that the leading digits stand for
number_in : (base acc : ℕ) → List ℕ → ℕ
number_in base acc [] = acc
number_in base acc (c ∷ s) =
    let rest = number_in base (acc * base + digit_value c) s in
    if ltb (digit_value c) base then rest else acc

-- Base 16 behind `0x` or `0X`, base 8 behind `0`, and base 10
unsigned : List ℕ → ℕ
unfolding number_in digit_value
unsigned [] = 0
unsigned (c ∷ []) = number_in 10 0 (c ∷ [])
unsigned (c ∷ d ∷ s) =
    if c == 48
    then (if d == 120 || d == 88 then number_in 16 0 s else number_in 8 0 (d ∷ s))
    else number_in 10 0 (c ∷ d ∷ s)

is_space : ℕ → Bool
is_space c = c == 32 || (leb 9 c && leb c 13)

-- The sign is the first character that is no space, if it is one.
signed : List ℕ → Bool × ℕ
unfolding unsigned is_space
signed [] = (false, 0)
signed (c ∷ s) =
    if is_space c
    then signed s
    else if c == 45
    then (true, unsigned s)
    else if c == 43
    then (false, unsigned s)
    else (false, unsigned (c ∷ s))

-- The `long` is cut to the range of `long` and then to the 32 bits of an `int`.
unfoldable pub strtol_int : List ℕ → ℤ
unfolding signed
strtol_int s =
    let (negative, n) = signed s in
    let limit = if negative then 2 ^ 63 else 2 ^ 63 - 1 in
    let n = if ltb limit n then limit else n in
    int_of (if negative then (2 ^ 64 - n) % 2 ^ 32 else n % 2 ^ 32)
