-- ===== src/Sham/Arguments/Tests.antt =====
-- A client that is given a loss rate.
use c_shell_and_networking.Base.{◌≡◌, refl, [], ◌∷◌, ◌++◌}
use c_shell_and_networking.Base.Bytes.{Bytes, codes, str_eq}
use c_shell_and_networking.Base.Int.{pos, to_int}
use c_shell_and_networking.Base.Strtol.{strtol}
use c_shell_and_networking.Base.{List}
use c_shell_and_networking.Sham.Arguments.{transfer, client_arguments, client_arguments-append}

abbrev argv : List Bytes
argv = codes "client" ∷ codes "127.0.0.1" ∷ codes "8080" ∷ codes "a.txt" ∷ codes "b.txt" ∷ []

transfers :
    client_arguments argv ≡ transfer (codes "127.0.0.1") (pos 8080) (codes "a.txt") (codes "b.txt")
unfolding client_arguments str_eq strtol to_int
transfers = refl

with_loss_rate : client_arguments (argv ++ codes "0.1" ∷ []) ≡ client_arguments argv
unfolding client_arguments str_eq
with_loss_rate = client_arguments-append argv (codes "0.1" ∷ []) refl
