-- ===== src/Log/Deferred.antt =====
-- `deferred_work` of reference-monitor/log/logger.c: the fingerprint of the program's path, the row
-- that is printed, and the write to the log file. `kernel_write` is a parameter: it gets the bytes.
use reference_monitor.Base.{
  Bool, List, Option, [], arith, codes, if◌then◌else◌, length, ltb, none, not, some, suc, take,
  zero, ℕ, ◌%◌, ◌++◌, ◌+◌, ◌/◌, ◌<◌, ◌^◌, ◌∷◌, ◌≤◌,
}
use reference_monitor.Base.Int.{int_of, negsuc, pos, ℤ}
use reference_monitor.Log.{LogData}
use reference_monitor.Password.{CharPtr, HashEnv, Sha256, encrypt_password, holds, null_ptr}
use reference_monitor.Run.{Cmd, pure, ◌>>=◌, ◌>>◌}

-- The digits of a number below 10 ^ k, where `%u` prints at most ten.
digits : (k : ℕ) → ℕ → List ℕ
digits zero n = []
digits (suc k) n = if ltb n 10 then (48 + n) ∷ [] else digits k (n / 10) ++ (48 + n % 10) ∷ []

-- `%u`
print_uint : ℕ → List ℕ
print_uint n = digits 10 (n % 2 ^ 32)

-- `%d`, of the `int` with this bit pattern
print_int : ℕ → List ℕ
print_int n = elim (int_of (n % 2 ^ 32)) [ pos a ↦ digits 10 a | negsuc a ↦ 45 ∷ digits 10 (a + 1) ]

-- `%s`
print_string : Option (List ℕ) → List ℕ
print_string none = codes "(null)"
print_string (some s) = s

comma : List ℕ
comma = codes ", "

-- What follows the first number
row_tail : LogData → Option (List ℕ) → List ℕ
row_tail d hash =
    comma
    ++ (print_int d.tgid
        ++ (comma
            ++ (print_uint d.uid
                ++ (comma
                    ++ (print_uint d.euid
                        ++ (comma
                            ++ (print_string d.exe_path
                                ++ (comma ++ (print_string hash ++ codes "\n")))))))))

-- `snprintf(row, 256, "%d, %d, %u, %u, %s, %s\n", ...)`: what fits in front of the terminator
unfoldable pub print_row : LogData → (hash : Option (List ℕ)) → List ℕ
unfolding print_int print_uint print_string comma digits row_tail
print_row d hash = take 255 (print_int d.tid ++ row_tail d hash)

as_char_ptr : Option (List ℕ) → CharPtr
as_char_ptr none = null_ptr
as_char_ptr (some s) = holds s

-- What the kernel answers: the hash, and whether the log file could be opened.
pub record WorkEnv : Type 0 where
  pub hash : HashEnv
  pub opened : Bool

unfoldable pub deferred_work :
    {S : Type 0} → Sha256 → (kernel_write : List ℕ → Cmd S ℤ) → WorkEnv → LogData → Cmd S (Unit {0})
unfolding as_char_ptr
deferred_work sha kernel_write e d = do
  hash ← encrypt_password sha e.hash (as_char_ptr d.exe_path)
  if not e.opened then pure tt else do kernel_write (print_row d hash); pure tt

length-take : (n : ℕ) (xs : List ℕ) → length (take n xs) ≤ n
length-take zero xs = omega arith
length-take (suc n) [] = omega arith
length-take (suc n) (x ∷ xs) = omega (arith, length-take n xs)

-- A list with an element after a first part has a first element.
take_some : (n : ℕ) (xs : List ℕ) (y : ℕ) (ys : List ℕ) → 0 < length (take (suc n) (xs ++ y ∷ ys))
take_some n [] y ys = omega arith
take_some n (x ∷ xs) y ys = omega arith

-- A row has 1 to 255 bytes, whatever the path is and whether or not there is a hash.
pub length-print_row :
    (d : LogData) (hash : Option (List ℕ))
    → (0 < length (print_row d hash)) × (length (print_row d hash) ≤ 255)
unfolding print_row comma row_tail
length-print_row d hash =
    (take_some 254 (print_int d.tid) 44 _, length-take 255 (print_int d.tid ++ row_tail d hash))
