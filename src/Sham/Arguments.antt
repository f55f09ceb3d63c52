-- ===== src/Sham/Arguments.antt =====
-- The arguments of networking/client.c and networking/server.c, as main reads them. atof is an
-- argument; argv holds the name of the program first.
mod Tests
use c_shell_and_networking.Base.{
  ℕ, ◌≡◌, refl, ap, arith, Bool, true, false, List, [], ◌∷◌, ◌++◌, if◌then◌else◌, Bool-cases, inl,
  inr,
}
use c_shell_and_networking.Base.Bytes.{Bytes, codes, str_eq}
use c_shell_and_networking.Base.Int.{ℤ, to_int}
use c_shell_and_networking.Base.Strtol.{strtol}

-- What a client does: it prints one of the two messages and exits, or it connects to a server for a
-- chat, or to transfer a file under a name.
pub data ClientRun : Type 0 where
  usage : ClientRun
  usage_of_transfer : ClientRun
  chat : Bytes → ℤ → ClientRun
  transfer : Bytes → ℤ → Bytes → Bytes → ClientRun

-- atoi, as glibc has it: the cast of what strtol returns. C leaves it open beyond int.
abbrev pub atoi : Bytes → ℤ
atoi s = to_int (strtol s).0

-- What follows argv[2].
unfoldable pub client_mode : Bytes → ℤ → Bytes → List Bytes → ClientRun
client_mode ip port mode more = if str_eq mode (codes "--chat") then chat ip port else elim more [
  | [] ↦ usage_of_transfer
  | output_name ∷ rest ↦ transfer ip port mode output_name
]

unfoldable pub client_arguments : List Bytes → ClientRun
unfolding client_mode
client_arguments [] = usage
client_arguments (program ∷ []) = usage
client_arguments (program ∷ ip ∷ []) = usage
client_arguments (program ∷ ip ∷ port ∷ []) = usage
client_arguments (program ∷ ip ∷ port ∷ mode ∷ more) = client_mode ip (atoi port) mode more

-- What a server does: it prints a message and exits, or it listens on a port, for a chat or for a
-- file, with a loss rate.
pub data ServerRun (Rate : Type 0) : Type 0 where
  usage : ServerRun Rate
  listens : ℤ → Bool → Rate → ServerRun Rate

module _ {Rate : Type 0} (no_loss : Rate) (atof : Bytes → Rate) where
  unfoldable pub server_mode : ℤ → List Bytes → ServerRun Rate
  server_mode port [] = listens port false no_loss
  server_mode port (mode ∷ []) =
      if str_eq mode (codes "--chat")
      then listens port true no_loss
      else listens port false (atof mode)
  server_mode port (mode ∷ rate ∷ more) =
      if str_eq mode (codes "--chat")
      then listens port true (atof rate)
      else listens port false (atof mode)

  unfoldable pub server_arguments : List Bytes → ServerRun Rate
  unfolding server_mode
  server_arguments [] = ServerRun.usage
  server_arguments (program ∷ []) = ServerRun.usage
  server_arguments (program ∷ port ∷ more) = server_mode (atoi port) more

abbrev is_usage : ClientRun → Bool
is_usage usage = true
is_usage usage_of_transfer = true
is_usage (chat ip port) = false
is_usage (transfer ip port file name) = false

-- A client that runs with some arguments runs in the same way with more behind them, such as a loss
-- rate.
pub client_arguments-append :
    (argv more : List Bytes)
    → is_usage (client_arguments argv) ≡ false
    → client_arguments (argv ++ more) ≡ client_arguments argv
unfolding client_arguments client_mode
client_arguments-append [] more h = absurd (cc)
client_arguments-append (program ∷ []) more h = absurd (cc)
client_arguments-append (program ∷ ip ∷ []) more h = absurd (cc)
client_arguments-append (program ∷ ip ∷ port ∷ []) more h = absurd (cc)
client_arguments-append (program ∷ ip ∷ port ∷ mode ∷ []) more h =
    elim (Bool-cases (str_eq mode (codes "--chat"))) [
      | inl e ↦ rw (e, client_arguments, client_mode) refl
      | inr e ↦
          let run : client_arguments (program ∷ ip ∷ port ∷ mode ∷ []) ≡ usage_of_transfer =
            rw (e, client_arguments, client_mode) refl in
          absurd (ground (arith, h, ap is_usage run))
    ]
client_arguments-append (program ∷ ip ∷ port ∷ mode ∷ name ∷ rest) more h = refl
