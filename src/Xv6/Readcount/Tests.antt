-- ===== src/Xv6/Readcount/Tests.antt =====
-- A kernel that only counts.
use c_shell_and_networking.Base.{ℕ, ◌+◌, ◌%◌, ◌^◌, ◌≡◌, refl, some, true, length}
use c_shell_and_networking.Xv6.Readcount.{
  Kernel, main, after_create, after_write, after_open, after_read, verdict, letters,
}
use c_shell_and_networking.Base.Int.{of_bits}
use c_shell_and_networking.Xv6.Readcount.Verdict.{IsCounting}

abbrev counting : Kernel ℕ
counting = record {
  getreadcount = λ w. of_bits (w % 2 ^ 32);
  create = λ w. (true, w);
  write = λ s w. (length s, w);
  open_again = λ w. (true, w);
  read = λ n w. (some n, w + n);
  close = λ w. w;
  unlink = λ w. w;
  print = λ l w. w;
}

counting-IsCounting : IsCounting counting λ w. w
counting-IsCounting = record {
  shows = λ w. refl;
  creates = λ w. refl;
  writes = λ s w. refl;
  opens = λ w. refl;
  reads = λ w. refl;
  counts = λ n w. refl;
  create_keeps = λ w. refl;
  write_keeps = λ s w. refl;
  open_keeps = λ w. refl;
  close_keeps = λ w. refl;
  print_keeps = λ l w. refl;
}

counted : main counting 7 ≡ (0, 107)
unfolding main after_create after_write after_open after_read verdict letters
counted = refl
