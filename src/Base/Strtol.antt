-- ===== src/Base/Strtol.antt =====
-- strtol(s, &end, 10) of <stdlib.h>, with a 64-bit long: blanks, a sign, digits, saturation.
use Prim.Native.Nat.{ℕ, ◌+◌, ◌-◌, ◌*◌, ◌^◌}
use mathlib.Core.Bool.{Bool, true, false, ◌&&◌, ◌||◌}
use mathlib.Core.List.{[], ◌∷◌}
use c_shell_and_networking.Base.Tests.{ltb, leb, ◌==◌, if◌then◌else◌}
use c_shell_and_networking.Base.Int.{ℤ, pos, neg}
use c_shell_and_networking.Base.Bytes.{Bytes}

-- isspace in the C locale.
unfoldable pub is_space : ℕ → Bool
is_space c = c == 32 || leb 9 c && leb c 13

unfoldable pub is_digit : ℕ → Bool
is_digit c = leb 48 c && leb c 57

unfoldable pub skip_space : Bytes → Bytes
unfolding is_space
skip_space [] = []
skip_space (c ∷ s) = if is_space c then skip_space s else c ∷ s

-- The value of the longest run of digits, added to what was read before, and the rest.
unfoldable pub read_digits : ℕ → Bytes → ℕ × Bytes
unfolding is_digit
read_digits n [] = (n, [])
read_digits n (c ∷ s) = if is_digit c then read_digits (n * 10 + (c - 48)) s else (n, c ∷ s)

-- Whether a digit comes first; without one nothing is converted.
unfoldable pub digit_first : Bytes → Bool
unfolding is_digit
digit_first [] = false
digit_first (c ∷ s) = is_digit c

abbrev pub Sign : Type 0
Sign = Bool

-- The sign, true for a minus, and what follows it.
unfoldable pub read_sign : Bytes → Sign × Bytes
read_sign [] = (false, [])
read_sign (c ∷ s) = if c == 45 then (true, s) else if c == 43 then (false, s) else (false, c ∷ s)

-- LONG_MAX and LONG_MIN bound the result.
unfoldable pub saturate : Sign → ℕ → ℤ
saturate true n = if ltb (2 ^ 63) n then neg (2 ^ 63) else neg n
saturate false n = if ltb (2 ^ 63 - 1) n then pos (2 ^ 63 - 1) else pos n

-- The value, and the text at `end`: the whole text where nothing was converted.
unfoldable pub strtol : Bytes → ℤ × Bytes
unfolding skip_space read_sign digit_first read_digits saturate
strtol s =
    let (sign, body) = read_sign (skip_space s) in
    let (n, rest) = read_digits 0 body in
    if digit_first body then (saturate sign n, rest) else (pos 0, s)
