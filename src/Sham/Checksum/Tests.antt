-- ===== src/Sham/Checksum/Tests.antt =====
-- A digest that counts the bytes.
use c_shell_and_networking.Base.{ℕ, ◌+◌, ◌%◌, ◌≡◌, refl, some, [], ◌∷◌, length}
use c_shell_and_networking.Base.Bytes.{codes}
use c_shell_and_networking.Sham.Checksum.{Digest, finalized, hex}

abbrev counter : Digest ℕ
counter = record {
  create = some 0;
  init = λ c. some 0;
  update = λ s c. some (c + length s);
  final = λ c. some (c % 256 ∷ []);
}

printed_count : finalized counter (some 3) ≡ codes "MD5: 03\n"
unfolding finalized hex
printed_count = refl
