-- ===== src/Sham/Transfer.antt =====
-- A client and a server of networking/ with a network between them that loses, repeats, delays and
-- reorders datagrams: whatever was sent and is not lost can arrive, at any time, any number of times.
pub mod Upload
pub mod ServerSide
pub mod ClientSide
pub mod Safety
pub mod Outcome
pub mod Named
pub mod Deaf
pub mod Livelock
pub mod Nameless
pub mod Finish
pub mod Level
pub mod Recover
mod Tests
use c_shell_and_networking.Base.{
  ℕ, ◌≡◌, Bool, Option, none, some, List, [], ◌++◌, get_elem?, erase_at,
}
use c_shell_and_networking.Base.Bytes.{Bytes}
use c_shell_and_networking.Sham.Wire.{Header, Packet}
use c_shell_and_networking.Sham.Client
use c_shell_and_networking.Sham.Client.{Client}
use c_shell_and_networking.Sham.Server
use c_shell_and_networking.Sham.Server.{Server}

-- The two programs, and the datagrams under way in each direction.
pub record System : Type 0 where
  pub client : Client
  pub server : Server
  pub to_server : List Packet
  pub to_client : List Header

-- The client's recvfrom returns.
unfoldable pub client_turn : Option Header → System → System
client_turn r s =
    let (c, sent) = Client.step r s.client in
    record s { client = c; to_server = s.to_server ++ sent }

-- The server's recvfrom returns.
unfoldable pub server_turn : Bool → Packet → System → System
server_turn dropped p s =
    let (srv, sent) = Server.step dropped p s.server in
    record s { server = srv; to_client = s.to_client ++ sent }

pub data Step (s : System) : System → Type 0 where
  hear_ack :
      (i : ℕ) (h : Header) → get_elem? s.to_client i ≡ some h → Step s (client_turn (some h) s)
  time_out : Step s (client_turn none s)
  hear_packet :
      (i : ℕ) (p : Packet) (dropped : Bool)
      → get_elem? s.to_server i ≡ some p
      → Step s (server_turn dropped p s)
  lose_ack : (i : ℕ) → Step s (record s { to_client = erase_at i s.to_client })
  lose_packet : (i : ℕ) → Step s (record s { to_server = erase_at i s.to_server })

pub data Reach (s : System) : System → Type 0 where
  here : Reach s s
  next : {t u : System} → Reach s t → Step t u → Reach s u
