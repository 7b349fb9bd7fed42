-- ===== src/Base/Int.antt =====
-- C's `int` and `long` results as integers, the `int` that a 32-bit pattern stands for, and the
-- kernel's error codes.
use reference_monitor.Base.{Bool, false, if◌then◌else◌, ltb, true, ℕ, ◌-◌, ◌==◌, ◌^◌}

-- `negsuc n` is -(n + 1).
pub data ℤ : Type 0 where
  pos : ℕ → ℤ
  negsuc : ℕ → ℤ

-- `a < n` for a constant that is not negative.
abbrev pub lt_pos : ℤ → ℕ → Bool
lt_pos (pos a) n = ltb a n
lt_pos (negsuc a) n = true

abbrev pub gt_pos : ℤ → ℕ → Bool
gt_pos (pos a) n = ltb n a
gt_pos (negsuc a) n = false

abbrev pub eq_pos : ℤ → ℕ → Bool
eq_pos (pos a) n = a == n
eq_pos (negsuc a) n = false

-- An error code, as the kernel's functions return it.
abbrev pub is_error : ℤ → Bool
is_error (pos n) = false
is_error (negsuc n) = true

-- The `int` with the bit pattern `w`.
abbrev pub int_of : ℕ → ℤ
int_of w = if ltb w (2 ^ 31) then pos w else negsuc (2 ^ 32 - 1 - w)

abbrev pub eperm : ℤ
eperm = negsuc 0

abbrev pub eio : ℤ
eio = negsuc 4

abbrev pub ebadf : ℤ
ebadf = negsuc 8

abbrev pub eagain : ℤ
eagain = negsuc 10

abbrev pub enomem : ℤ
enomem = negsuc 11

abbrev pub eacces : ℤ
eacces = negsuc 12

abbrev pub eexist : ℤ
eexist = negsuc 16

abbrev pub einval : ℤ
einval = negsuc 21

abbrev pub erange : ℤ
erange = negsuc 33
