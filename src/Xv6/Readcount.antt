-- ===== src/Xv6/Readcount.antt =====
-- xv6/readcount.c: a test of the system call getreadcount. The kernel is an interface; printed
-- lines are a data type.
mod Verdict
mod Tests
use c_shell_and_networking.Base.{
  ℕ, zero, suc, ◌+◌, ◌-◌, ◌%◌, ◌^◌, Bool, true, false, Option, none, some, List, [], ◌∷◌, ◌==◌, leb,
  if◌then◌else◌, length,
}
use c_shell_and_networking.Base.Bytes.{Bytes}
use c_shell_and_networking.Base.Int.{ℤ, pos, negsuc, residue, of_bits}

pub data Line : Type 0 where
  initial_count final_count increase : ℤ → Line
  not_created not_written not_opened : Line
  short_read : Option ℕ → Line
  success : Line
  only_increased : ℤ → Line

-- getreadcount, an int; open with O_CREATE | O_WRONLY and with O_RDONLY, whether the descriptor is not
-- negative; write with the number that it returns, 0 for a failure; read with that number, `none`
-- for a failure; close, unlink and printf.
pub record Kernel (W : Type 0) : Type 0 where
  pub getreadcount : W → ℤ
  pub create : W → Bool × W
  pub write : Bytes → W → ℕ × W
  pub open_again : W → Bool × W
  pub read : ℕ → W → Option ℕ × W
  pub close : W → W
  pub unlink : W → W
  pub print : Line → W → W

-- The difference of two ints, which wraps at 2^32.
abbrev pub difference : ℤ → ℤ → ℤ
difference a b = of_bits ((residue a (2 ^ 32) + (2 ^ 32 - residue b (2 ^ 32))) % 2 ^ 32)

-- `increase >= 100`
abbrev pub is_enough : ℤ → Bool
is_enough (pos n) = leb 100 n
is_enough (negsuc n) = false

-- The loop over i, from i on with n rounds left.
unfoldable pub letters : ℕ → ℕ → Bytes
letters zero i = []
letters (suc n) i = (65 + i % 26) ∷ letters n (suc i)

module _ {W : Type 0} (kernel : Kernel W) where
  -- The end of main, after the last read: the counts before and after it.
  unfoldable pub verdict : ℤ → ℤ → W → ℕ × W
  verdict before after w =
      let by = difference after before in
      let w' = kernel.print (increase by) (kernel.print (final_count after) w) in
      let line = if is_enough by then success else only_increased by in
      (0, kernel.unlink (kernel.print line w'))

  unfoldable pub after_read : ℤ → Option ℕ × W → ℕ × W
  unfolding verdict
  after_read before (none, w) = (1, kernel.close (kernel.print (short_read none) w))
  after_read before (some n, w) =
      if n == 100
      then verdict before (kernel.getreadcount (kernel.close w)) (kernel.close w)
      else (1, kernel.close (kernel.print (short_read (some n)) w))

  unfoldable pub after_open : ℤ → Bool × W → ℕ × W
  unfolding after_read
  after_open before (true, w) = after_read before (kernel.read 100 w)
  after_open before (false, w) = (1, kernel.print not_opened w)

  unfoldable pub after_write : ℤ → ℕ × W → ℕ × W
  unfolding after_open
  after_write before (n, w) =
      if n == 100
      then after_open before (kernel.open_again (kernel.close w))
      else (1, kernel.close (kernel.print not_written w))

  unfoldable pub after_create : ℤ → Bool × W → ℕ × W
  unfolding after_write letters
  after_create before (true, w) = after_write before (kernel.write (letters 100 0) w)
  after_create before (false, w) = (1, kernel.print not_created w)

  -- The code of exit, and the state of the system.
  unfoldable pub main : W → ℕ × W
  unfolding after_create
  main w =
      let before = kernel.getreadcount w in
      after_create before (kernel.create (kernel.print (initial_count before) w))
