-- ===== src/Xv6/Readcount/Verdict.antt =====
-- main on a kernel whose calls succeed.
use c_shell_and_networking.Base.{
  Option, none, some, ℕ, zero, suc, length, ◌+◌, ◌-◌, ◌%◌, ◌^◌, ◌<◌, ◌≡◌, ◌∙◌, refl, ap, true,
  arith,
}
use c_shell_and_networking.Base.Bytes.{Bytes}
use c_shell_and_networking.Base.Int.{ℤ, pos, residue, of_bits}
use c_shell_and_networking.Xv6.Readcount.{
  Kernel, Line, initial_count, final_count, increase, success, letters, difference, verdict,
  after_read, after_open, after_write, after_create, main,
}

length-letters : (n i : ℕ) → length (letters n i) ≡ n
unfolding letters
length-letters zero i = refl
length-letters (suc n) i = ap suc (length-letters n (suc i))

-- How many bytes were read.
abbrev pub amount : Option ℕ → ℕ
amount none = 0
amount (some n) = n

residue-of_bits : (b : ℕ) → b < 2 ^ 32 → residue (of_bits b) (2 ^ 32) ≡ b
residue-of_bits b h = ground arith

difference-of_bits :
    (n : ℕ) → difference (of_bits ((n + 100) % 2 ^ 32)) (of_bits (n % 2 ^ 32)) ≡ pos 100
difference-of_bits n =
    let after = residue-of_bits ((n + 100) % 2 ^ 32) (omega arith) in
    let before = residue-of_bits (n % 2 ^ 32) (omega arith) in
    let bits : ((n + 100) % 2 ^ 32 + (2 ^ 32 - n % 2 ^ 32)) % 2 ^ 32 ≡ 100 = omega arith in
    rw (after, before, bits) refl

module _ {W : Type 0} (kernel : Kernel W) (count : W → ℕ) where
  -- A kernel on which the calls succeed, with a count that grows by what read returns and by nothing
  -- that main does beside it; getreadcount returns its low 32 bits as an int.
  pub record IsCounting : Type 0 where
    pub shows : (w : W) → kernel.getreadcount w ≡ of_bits (count w % 2 ^ 32)
    pub creates : (w : W) → (kernel.create w).0 ≡ true
    pub writes : (s : Bytes) (w : W) → (kernel.write s w).0 ≡ length s
    pub opens : (w : W) → (kernel.open_again w).0 ≡ true
    pub reads : (w : W) → (kernel.read 100 w).0 ≡ some 100
    pub counts : (n : ℕ) (w : W) → count (kernel.read n w).1 ≡ count w + amount (kernel.read n w).0
    pub create_keeps : (w : W) → count (kernel.create w).1 ≡ count w
    pub write_keeps : (s : Bytes) (w : W) → count (kernel.write s w).1 ≡ count w
    pub open_keeps : (w : W) → count (kernel.open_again w).1 ≡ count w
    pub close_keeps : (w : W) → count (kernel.close w) ≡ count w
    pub print_keeps : (l : Line) (w : W) → count (kernel.print l w) ≡ count w

  module _ (ok : IsCounting) where
    -- The states of the successful run.
    abbrev opened_in : W → W
    opened_in w =
        (kernel.open_again (
          kernel.close
            (kernel.write (letters 100 0)
              (kernel.create (kernel.print (initial_count (kernel.getreadcount w)) w)).1).1)).1

    abbrev read_in : W → W
    read_in w = kernel.close (kernel.read 100 (opened_in w)).1

    opened_in-count : (w : W) → count (opened_in w) ≡ count w
    opened_in-count w =
        ok.open_keeps _
        ∙ ok.close_keeps _
        ∙ ok.write_keeps _ _
        ∙ ok.create_keeps _
        ∙ ok.print_keeps _ _

    read_in-count : (w : W) → count (read_in w) ≡ count w + 100
    read_in-count w =
        ok.close_keeps _
        ∙ ok.counts 100 (opened_in w)
        ∙ ap (λ n. n + amount (kernel.read 100 (opened_in w)).0) (opened_in-count w)
        ∙ ap (λ n. count w + amount n) (ok.reads (opened_in w))

    -- What getreadcount returns after the read.
    abbrev shown_after : W → ℤ
    shown_after w = of_bits ((count w + 100) % 2 ^ 32)

    -- On a kernel whose calls succeed and whose count grows by exactly what read returns, main exits
    -- with 0 after it has printed an increase by 100 and the success, and has removed the file, also
    -- where the count goes beyond an int in between.
    pub main_succeeds :
        (w : W)
        → main kernel w ≡ (
          0,
          kernel.unlink (
              kernel.print success (
                kernel.print
                  (increase (pos 100))
                  (kernel.print (final_count (shown_after w)) (read_in w)))),
        )
    unfolding main after_create after_write after_open after_read verdict
    main_succeeds w =
        let before = kernel.getreadcount w in
        let created = kernel.create (kernel.print (initial_count before) w) in
        let written = kernel.write (letters 100 0) created.1 in
        let after : kernel.getreadcount (read_in w) ≡ shown_after w =
          ok.shows (read_in w) ∙ ap (λ n. of_bits (n % 2 ^ 32)) (read_in-count w) in
        let by : difference (kernel.getreadcount (read_in w)) before ≡ pos 100 =
          ap (λ x. difference x before) after
          ∙ ap (λ x. difference (shown_after w) x) (ok.shows w)
          ∙ difference-of_bits (count w) in
        rw
          (
            ok.creates (kernel.print (initial_count before) w),
            after_create,
            ok.writes (letters 100 0) created.1 ∙ length-letters 100 0,
            after_write,
            ok.opens (kernel.close written.1),
            after_open,
            ok.reads (opened_in w),
            after_read,
            verdict,
            by,
            after,
          )
          refl
