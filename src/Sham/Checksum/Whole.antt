-- ===== src/Sham/Checksum/Whole.antt =====
-- The loop of calculate_md5 against one update with the whole contents.
use c_shell_and_networking.Base.{◌≡◌, Option, none, some, [], ◌++◌}
use c_shell_and_networking.Base.Bytes.{Bytes, codes}
use c_shell_and_networking.Sham.Checksum.{Digest, finalized, error}

abbrev pub and_update : {C : Type 0} → Digest C → Bytes → Option C → Option C
and_update evp b none = none
and_update evp b (some c) = evp.update b c

-- EVP_DigestUpdate can be called several times to hash additional data.
pub record IsIncremental {C : Type 0} (evp : Digest C) : Type 0 where
  pub nothing : (c : C) → evp.update [] c ≡ some c
  pub more : (a b : Bytes) (c : C) → evp.update (a ++ b) c ≡ and_update evp b (evp.update a c)

-- The digest of the contents at once.
abbrev pub at_once : {C : Type 0} → Digest C → Bytes → Option C → Bytes
at_once evp file none = error (codes "Failed to initialize MD5.")
at_once evp file (some c) = finalized evp (evp.update file c)
