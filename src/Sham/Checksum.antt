-- ===== src/Sham/Checksum.antt =====
-- calculate_md5 of networking/sham.h, over the digest functions of OpenSSL.
mod Whole
mod Tests
use c_shell_and_networking.Base.{
  ℕ, zero, suc, ◌+◌, ◌/◌, ◌%◌, Option, none, some, List, [], ◌∷◌, ◌++◌, ltb, if◌then◌else◌, length,
  take, drop,
}
use c_shell_and_networking.Base.Bytes.{Bytes, codes}

-- EVP_MD_CTX_new, `none` where it returns NULL; EVP_DigestInit_ex with MD5, EVP_DigestUpdate and
-- EVP_DigestFinal_ex, `none` where they do not return 1.
pub record Digest (C : Type 0) : Type 0 where
  pub create : Option C
  pub init : C → Option C
  pub update : Bytes → C → Option C
  pub final : C → Option Bytes

abbrev pub error : Bytes → Bytes
error text = codes "MD5 Error: " ++ text ++ 10 ∷ []

abbrev pub digit : ℕ → ℕ
digit d = if ltb d 10 then 48 + d else 87 + d

-- "%02x" for each byte.
unfoldable pub hex : Bytes → Bytes
hex [] = []
hex (b ∷ bs) = digit (b / 16) ∷ digit (b % 16) ∷ hex bs

module _ {C : Type 0} (evp : Digest C) where
  -- The loop of fread and EVP_DigestUpdate; the inner `none` is a failed update, the outer one the
  -- end of the fuel.
  unfoldable pub feed : ℕ → Bytes → C → Option (Option C)
  feed fuel [] c = some (some c)
  feed zero (b ∷ bs) c = none
  feed (suc fuel) (b ∷ bs) c = elim (evp.update (take 1024 (b ∷ bs)) c) [
    | none ↦ some none
    | some c' ↦ feed fuel (drop 1024 (b ∷ bs)) c'
  ]

  -- What is printed after the loop.
  unfoldable pub finalized : Option C → Bytes
  finalized none = error (codes "Failed to update MD5.")
  finalized (some c) = elim (evp.final c) [
    | none ↦ error (codes "Failed to finalize MD5.")
    | some digest ↦ codes "MD5: " ++ hex digest ++ 10 ∷ []
  ]

  unfoldable pub after_init : Bytes → Option C → Option Bytes
  unfolding feed finalized
  after_init file none = some (error (codes "Failed to initialize MD5."))
  after_init file (some c) = elim (feed (length file) file c) [
    | none ↦ none
    | some r ↦ some (finalized r)
  ]

  -- What is printed for a file, `none` in the place of the contents where it cannot be opened. Each
  -- round of the loop reads a byte at least.
  unfoldable pub calculate_md5 : Bytes → Option Bytes → Option Bytes
  unfolding after_init
  calculate_md5 filename none = some (error (filename ++ codes " can't be opened."))
  calculate_md5 filename (some file) = elim evp.create [
    | none ↦ some (error (codes "Failed to create MD5 context."))
    | some c ↦ after_init file (evp.init c)
  ]
