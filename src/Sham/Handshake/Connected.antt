-- ===== src/Sham/Handshake/Connected.antt =====
-- The handshake together with the beginning of the file mode of both programs.
use c_shell_and_networking.Base.{
  ℕ, ◌+◌, ◌-◌, ◌%◌, ◌^◌, ◌≤◌, ◌<◌, ◌≡◌, refl, true, Option, none, some, [], ◌∷◌, ◌++◌, length, leb,
  arith,
}
use c_shell_and_networking.Base.Bytes.{Bytes}
use c_shell_and_networking.Sham.Wire.{add32, header}
use c_shell_and_networking.Sham.Client
use c_shell_and_networking.Sham.Handshake.{syn, syn_ack, on_syn_ack, client_connect, server_connect}
use c_shell_and_networking.Sham.Transfer.{System}
use c_shell_and_networking.Sham.Transfer.Safety.{initial}

-- What both programs and the network are after a handshake without losses; `none` where the client
-- does not come as far.
unfoldable pub connected : ℕ → ℕ → Bytes → Bytes → Option System
unfolding syn syn_ack client_connect server_connect
connected client_seq server_seq name file =
    let reply = syn_ack server_seq (syn client_seq) in
    let c = client_connect client_seq reply name (some file) in
    elim c.1 [
      | none ↦ none
      | some sends ↦ some record {
        client = sends.0;
        server = server_connect server_seq (syn client_seq) c.0;
        to_server = sends.1;
        to_client = [];
      }
    ]

-- The SYN-ACK and the last ACK answer the other side's number with the next one, both sides go on
-- with the client's next number, and the filename is under way under that number.
pub record IsAgreed (client_seq server_seq : ℕ) (name file : Bytes) : Type 0 where
  pub system : System
  pub outcome : connected client_seq server_seq name file ≡ some system
  pub begins :
      system ≡ initial (record { base = client_seq + 1; name = name; file = file }) server_seq
  pub answered : syn_ack server_seq (syn client_seq) ≡ header server_seq (client_seq + 1) 3
  pub confirmed :
      (client_connect client_seq (syn_ack server_seq (syn client_seq)) name (some file)).0
      ≡ header (client_seq + 1) ((server_seq + 1) % 2 ^ 32) 2
  pub client_number : system.client.seq ≡ client_seq + 1
  pub server_number : system.server.expected_seq ≡ client_seq + 1
  pub first_packet :
      system.to_server
      ≡ record { header = header (client_seq + 1) 0 8; payload = name ++ 0 ∷ [] } ∷ []
  pub unsent : system.client.rest ≡ file
  pub unwritten : system.server.written ≡ []

-- In a handshake without losses, if the client's number does not wrap and the name fits a packet, the
-- SYN-ACK carries the client's number + 1 and the last ACK the server's number + 1, modulo 2^32, as
-- their ACK numbers; then the transfer begins, in which the client sends the filename under its
-- number + 1, which is the number that the server expects; the whole file is still to be sent, and
-- nothing is written.
pub connected_lem :
    (client_seq server_seq : ℕ) (name file : Bytes)
    → client_seq + 1 < 2 ^ 32
    → length name + 1 ≤ 1024
    → IsAgreed client_seq server_seq name file
unfolding connected syn syn_ack on_syn_ack client_connect server_connect Client.start
connected_lem client_seq server_seq name file f l =
    let e : add32 client_seq 1 ≡ client_seq + 1 = omega arith in
    let fits : leb (length name + 1) 1024 ≡ true = ground arith in
    let back : client_seq + 1 - 1 ≡ client_seq = omega arith in
    let begun = initial (record { base = client_seq + 1; name = name; file = file }) server_seq in
    record {
      system = begun;
      outcome = rw (fits, connected, client_connect, Client.start, back, e) refl;
      begins = refl;
      answered = rw e refl;
      confirmed = rw e refl;
      client_number = refl;
      server_number = rw back e;
      first_packet = refl;
      unsent = refl;
      unwritten = refl;
    }
