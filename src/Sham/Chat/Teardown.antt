-- ===== src/Sham/Chat/Teardown.antt =====
-- The end of a chat: main of networking/client.c and networking/server.c after chat_mode. The
-- client's socket no longer blocks, so its recvfrom can return nothing.
use c_shell_and_networking.Base.{ℕ, ◌≡◌, refl, Bool, Option, none, some, [], ◌∷◌}
use c_shell_and_networking.Sham.Wire.{Header, Packet, add32, header}
use c_shell_and_networking.Sham.Client
use c_shell_and_networking.Sham.Client.{Client}
use c_shell_and_networking.Sham.Server
use c_shell_and_networking.Sham.Chat.{Chat, leaves, on_datagram}

-- The client when chat_mode has returned, whatever is in its buffers.
unfoldable pub client_leaves : Client → Client.Sends
client_leaves c = Client.send_fin c

-- The server when chat_mode has returned this number.
unfoldable pub server_leaves : ℕ → Server.Server → Server.Sends
server_leaves fin_seq s = Server.finish fin_seq s

-- What the client does with the two answers.
unfoldable pub client_closes : Option Header → Option Header → Client → Client.Sends
client_closes first second c = Client.step second (Client.step first (client_leaves c).0).0

-- When the client leaves the chat, its FIN ends the server's chat with the client's number; the
-- server's ACK and FIN are for that number; with these two answers the client is closed and
-- acknowledges the number after the server's FIN, and with that the server is closed. Where no
-- answer is there yet, the client is closed all the same and acknowledges its own FIN.
pub chat_teardown_lem :
    (c : Client) (s : Server.Server) (d : Chat) (a b : Header) (p : Packet)
    → (on_datagram (record { header = header c.seq 0 4; payload = [] }) d ≡ leaves c.seq d)
      × ((client_leaves c).1 ≡ record { header = header c.seq 0 4; payload = [] } ∷ [])
      × ((server_leaves c.seq s).1
          ≡ header (add32 s.server_seq 1) (add32 c.seq 1) 2
            ∷ header (add32 s.server_seq 1) 0 4
            ∷ [])
      × ((client_closes (some a) (some b) c).0.phase ≡ Client.closed)
      × ((client_closes (some a) (some b) c).1
          ≡ record { header = header (add32 c.seq 1) (add32 b.seq_num 1) 2; payload = [] } ∷ [])
      × ((Server.step Bool.false p (server_leaves c.seq s).0).0.phase ≡ Server.closed)
      × ((client_closes none none c).0.phase ≡ Client.closed)
      × ((client_closes none none c).1
          ≡ record { header = header (add32 c.seq 1) (add32 c.seq 1) 2; payload = [] } ∷ [])
unfolding on_datagram client_leaves server_leaves client_closes Client.step Client.step_in
    Client.send_fin Client.last_ack Server.step Server.step_in
chat_teardown_lem c s d a b p = (refl, refl, refl, refl, refl, refl, refl, refl)
