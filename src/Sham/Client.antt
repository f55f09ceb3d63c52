-- ===== src/Sham/Client.antt =====
-- networking/client.c in file mode, from the end of the 3-way handshake on: file_transfer_mode and
-- the teardown in main. A step is what follows one return of recvfrom, which is a header or, after
-- 500 ms, nothing. `packet.header` is a register: recvfrom writes what it receives into it.
use c_shell_and_networking.Base.{
  ℕ, ◌+◌, Bool, ◌&&◌, Option, none, some, List, [], ◌∷◌, ◌++◌, leb, ◌==◌, if◌then◌else◌, length,
  take, drop,
}
use c_shell_and_networking.Base.Bytes.{Bytes}
use c_shell_and_networking.Sham.Wire.{
  Header, Packet, ack_flag, fin_flag, name_flag, payload_size, has_flag, add32, header,
}

-- Which recvfrom the client waits in: for the filename's ACK, for a chunk's ACK, for the ACK and
-- the FIN of the teardown; or it has returned.
pub data Phase : Type 0 where
  naming sending fin_sent ack_seen closed : Phase

-- `seq`, `filename_len`, `packet.header`, the bytes of `packet.data` that were read, and the bytes
-- of the file that were not read yet.
pub record Client : Type 0 where
  pub phase : Phase
  pub seq : ℕ
  pub filename_len : ℕ
  pub packet_header : Header
  pub chunk : Bytes
  pub rest : Bytes

abbrev pub Sends : Type 0
Sends = Client × List Packet

-- `sendto(sockfd, &packet, …)` of the register and the chunk.
abbrev pub packet_of : Client → Packet
packet_of c = record { header = c.packet_header; payload = c.chunk }

-- main after file_transfer_mode: send FIN.
unfoldable pub send_fin : Client → Sends
send_fin c =
    let fin = header c.seq 0 fin_flag in
    (
      record c { phase = fin_sent; packet_header = fin; chunk = [] },
      record { header = fin; payload = [] } ∷ [],
    )

-- The outer loop: fread of at most PAYLOAD_SIZE bytes, and the first transmission of a chunk.
unfoldable pub next_chunk : Bytes → Client → Sends
unfolding send_fin
next_chunk [] c = send_fin (record c { rest = [] })
next_chunk (b ∷ bs) c =
    let c' = record c {
      phase = sending;
      packet_header = header c.seq 0 0;
      chunk = take payload_size (b ∷ bs);
      rest = drop payload_size (b ∷ bs);
    } in
    (c', packet_of c' ∷ [])

-- The filename packet. `none` where strlen + 1 bytes go beyond `packet.data`; where the input file
-- cannot be opened nothing is transferred.
unfoldable pub start : ℕ → Bytes → Option Bytes → Option Sends
unfolding send_fin
start seq name none = some (
    send_fin (record {
      phase = naming;
      seq = seq;
      filename_len = 0;
      packet_header = header seq 0 0;
      chunk = [];
      rest = [];
    }))
start seq name (some file) =
    if leb (length name + 1) payload_size
    then some (
      record {
        phase = naming;
        seq = seq;
        filename_len = length name + 1;
        packet_header = header seq 0 name_flag;
        chunk = name ++ 0 ∷ [];
        rest = file;
      },
      record { header = header seq 0 name_flag; payload = name ++ 0 ∷ [] } ∷ [],
    )
    else none

-- recvfrom into `packet.header`.
abbrev pub receive : Option Header → Client → Client
receive none c = c
receive (some h) c = record c { packet_header = h }

-- The condition under which a chunk is acknowledged.
abbrev pub acknowledges : Option Header → Client → Bool
acknowledges none c = Bool.false
acknowledges (some h) c = has_flag h ack_flag && (h.ack_num == add32 c.seq (length c.chunk))

-- The next chunk, or the retransmission of `packet`, whose header recvfrom may have overwritten.
unfoldable pub on_ack : Bool → Client → Sends
unfolding next_chunk
on_ack Bool.true c = next_chunk c.rest (record c { seq = add32 c.seq (length c.chunk) })
on_ack Bool.false c = (c, packet_of c ∷ [])

-- The last ACK of the teardown.
unfoldable pub last_ack : Client → Sends
last_ack c =
    let h = header (add32 c.seq 1) (add32 c.packet_header.seq_num 1) ack_flag in
    (record c { phase = closed; packet_header = h }, record { header = h; payload = [] } ∷ [])

unfoldable pub step_in : Phase → Option Header → Client → Sends
unfolding on_ack last_ack
step_in naming r c =
    let c' = receive r c in next_chunk c'.rest (record c' { seq = add32 c'.seq c'.filename_len })
step_in sending r c = on_ack (acknowledges r c) (receive r c)
step_in fin_sent r c = (record (receive r c) { phase = ack_seen }, [])
step_in ack_seen r c = last_ack (receive r c)
step_in closed r c = (c, [])

-- What the client does when recvfrom returns a header, or nothing.
unfoldable pub step : Option Header → Client → Sends
unfolding step_in
step r c = step_in c.phase r c
