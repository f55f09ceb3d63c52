-- ===== src/Base/Lines.antt =====
-- Reading lines as the program does: fgets into a buffer, and the cut at the newline.
use Prim.Native.Nat.{ℕ, zero, suc, ◌<◌}
use mathlib.Core.Path.{◌≡◌, refl}
use mathlib.Core.Bool.{false}
use mathlib.Core.List.{[], ◌∷◌, ◌++◌}
use native.Mathlib.Omega.{arith}
use c_shell_and_networking.Base.Tests.{◌==◌, if◌then◌else◌}
use c_shell_and_networking.Base.Lists.{length, All}
use c_shell_and_networking.Base.Bytes.{Bytes}

-- fgets(line, n + 1, file): at most n bytes, up to and with the first newline.
unfoldable pub fgets : ℕ → Bytes → Bytes × Bytes
fgets zero s = ([], s)
fgets (suc n) [] = ([], [])
fgets (suc n) (c ∷ s) =
    if c == 10 then (c ∷ [], s) else let (line, rest) = fgets n s in (c ∷ line, rest)

-- line[strcspn(line, "\n")] = 0, at the newline; the callers stop at a NUL byte.
unfoldable pub cut_newline : Bytes → Bytes
cut_newline [] = []
cut_newline (c ∷ s) = if c == 10 then [] else c ∷ cut_newline s

abbrev pub NotNewline : ℕ → Type 0
NotNewline c = (c == 10) ≡ false

pub fgets_line :
    (n : ℕ) (e s : Bytes)
    → length e < n
    → All NotNewline e
    → fgets n (e ++ 10 ∷ s) ≡ (e ++ 10 ∷ [], s)
unfolding fgets
fgets_line zero e s h a = absurd (omega arith)
fgets_line (suc n) [] s h a = refl
fgets_line (suc n) (c ∷ e) s h a = rw (a.0, fgets_line n e s (omega arith) a.1)

pub cut_newline_line : (e : Bytes) → All NotNewline e → cut_newline (e ++ 10 ∷ []) ≡ e
unfolding cut_newline
cut_newline_line [] a = refl
cut_newline_line (c ∷ e) a = rw (a.0, cut_newline_line e a.1)

-- The C string at the start of these bytes.
abbrev pub until_nul : Bytes → Bytes
until_nul [] = []
until_nul (b ∷ bs) = if b == 0 then [] else b ∷ until_nul bs

abbrev pub NotNul : ℕ → Type 0
NotNul c = (c == 0) ≡ false

pub until_nul_lem : (s : Bytes) → All NotNul s → until_nul s ≡ s
until_nul_lem [] a = refl
until_nul_lem (c ∷ s) a = rw (a.0, until_nul_lem s a.1)
