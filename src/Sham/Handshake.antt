-- ===== src/Sham/Handshake.antt =====
-- The 3-way handshake: the first part of main in networking/client.c and networking/server.c.
-- Neither side looks at the flags or at the ACK number of what it receives.
mod Connected
mod Tests
use c_shell_and_networking.Base.{ℕ, ◌+◌, Option, none, some}
use c_shell_and_networking.Base.Bytes.{Bytes}
use c_shell_and_networking.Sham.Wire.{Header, syn_flag, ack_flag, add32, header}
use c_shell_and_networking.Sham.Client
use c_shell_and_networking.Sham.Server

-- The client's SYN, with the number that rand returned.
unfoldable pub syn : ℕ → Header
syn client_seq = header client_seq 0 syn_flag

-- The server's SYN-ACK, with the number that rand returned, after the first datagram.
unfoldable pub syn_ack : ℕ → Header → Header
syn_ack server_seq h = header server_seq (add32 h.seq_num 1) (syn_flag + ack_flag)

-- client_seq and the ACK, after the client's recvfrom.
unfoldable pub on_syn_ack : ℕ → Header → ℕ × Header
on_syn_ack client_seq h =
    (add32 client_seq 1, header (add32 client_seq 1) (add32 h.seq_num 1) ack_flag)

-- The client in file mode, from its number before the handshake on; the ACK goes out first.
unfoldable pub client_connect : ℕ → Header → Bytes → Option Bytes → Header × Option Client.Sends
unfolding on_syn_ack
client_connect client_seq h name file =
    let r = on_syn_ack client_seq h in (r.1, Client.start r.0 name file)

-- The server in file mode after a first datagram and a second one, of which it reads nothing.
unfoldable pub server_connect : ℕ → Header → Header → Server.Server
server_connect server_seq first second = Server.start first.seq_num server_seq
