-- ===== src/Sham/Server.antt =====
-- networking/server.c in file mode, from the end of the 3-way handshake on: file_transfer_mode and
-- the teardown in main. A step is what follows one datagram. The file is opened, and every write
-- to it succeeds. The simulated loss is an argument of the step.
use c_shell_and_networking.Base.{ℕ, Bool, List, [], ◌∷◌, ◌++◌, ◌==◌, if◌then◌else◌, length, take}
use c_shell_and_networking.Base.Bytes.{Bytes, codes}
use c_shell_and_networking.Base.Lines.{until_nul}
use c_shell_and_networking.Sham.Wire.{
  Header, Packet, ack_flag, fin_flag, name_flag, has_flag, add32, header,
}

-- Which recvfrom the server waits in: for the first packet, in the loop, for the last ACK; or it
-- has returned.
pub data Phase : Type 0 where
  first receiving teardown closed : Phase

-- `expected_seq`, what fwrite has written, `output_file`, `server_seq`, and the FIN's number.
pub record Server : Type 0 where
  pub phase : Phase
  pub expected_seq : ℕ
  pub written : Bytes
  pub output_file : Bytes
  pub server_seq : ℕ
  pub fin_seq : ℕ

abbrev pub Sends : Type 0
Sends = Server × List Header

-- The server after the handshake with a client whose first sequence number was client_seq.
abbrev pub start : ℕ → ℕ → Server
start client_seq server_seq = record {
  phase = first;
  expected_seq = add32 client_seq 1;
  written = [];
  output_file = codes "received_file.txt";
  server_seq = server_seq;
  fin_seq = 0;
}

-- The packet before the loop: a filename, in a buffer of 256 bytes, is acknowledged; any other packet is dropped.
unfoldable pub on_first : Packet → Server → Sends
on_first p s =
    if has_flag p.header name_flag
    then (
      record s {
        phase = receiving;
        expected_seq = add32 s.expected_seq (length p.payload);
        output_file = take 255 (until_nul p.payload);
      },
      header 0 (add32 s.expected_seq (length p.payload)) ack_flag ∷ [],
    )
    else (record s { phase = receiving }, [])

-- The file grows if the packet is the expected one; the ACK is cumulative in either case.
unfoldable pub on_data : Packet → Server → Sends
on_data p s =
    let s' =
      (if p.header.seq_num == s.expected_seq
        then record s {
          written = s.written ++ p.payload;
          expected_seq = add32 s.expected_seq (length p.payload);
        }
        else s) in
    (s', header 0 s'.expected_seq ack_flag ∷ [])

-- main after a mode that returned this number: ACK and FIN.
abbrev pub finish : ℕ → Server → Sends
finish client_fin_seq s = (
  record s { phase = teardown; fin_seq = client_fin_seq },
  header (add32 s.server_seq 1) (add32 client_fin_seq 1) ack_flag
      ∷ header (add32 s.server_seq 1) 0 fin_flag
      ∷ [],
)

-- FIN ends the loop.
unfoldable pub on_fin : Packet → Server → Sends
on_fin p s = finish p.header.seq_num s

-- One round of the loop. `dropped` is what the simulated packet loss decides.
unfoldable pub on_packet : Bool → Packet → Server → Sends
unfolding on_data on_fin
on_packet dropped p s =
    if has_flag p.header fin_flag then on_fin p s else if dropped then (s, []) else on_data p s

unfoldable pub step_in : Phase → Bool → Packet → Server → Sends
unfolding on_first on_packet
step_in first dropped p s = on_first p s
step_in receiving dropped p s = on_packet dropped p s
step_in teardown dropped p s = (record s { phase = closed }, [])
step_in closed dropped p s = (s, [])

-- What the server does when a packet arrives.
unfoldable pub step : Bool → Packet → Server → Sends
unfolding step_in
step dropped p s = step_in s.phase dropped p s
