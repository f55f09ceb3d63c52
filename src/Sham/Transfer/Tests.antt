-- ===== src/Sham/Transfer/Tests.antt =====
-- Runs of small transfers, and the theorems at them.
use c_shell_and_networking.Base.{◌⊎◌, ◌≡◌, refl, [], ◌∷◌, ◌++◌, false, some, none, arith, erase_at}
use c_shell_and_networking.Base.Bytes.{codes}
use c_shell_and_networking.Sham.Wire.{Packet, header}
use c_shell_and_networking.Sham.Client
use c_shell_and_networking.Sham.Server
use c_shell_and_networking.Sham.Transfer.{
  System, hear_ack, time_out, hear_packet, lose_packet, Reach, here, next, client_turn, server_turn,
}
use c_shell_and_networking.Sham.Transfer.Upload.{Upload, Fits}
use c_shell_and_networking.Sham.Transfer.Safety.{initial}
use c_shell_and_networking.Sham.Transfer.Outcome.{
  IsPartOf, IsWhole, transfer_safety, transfer_complete, server_done-IsWhole,
}
use c_shell_and_networking.Sham.Transfer.Named.{named, named_transfer_exact}
use c_shell_and_networking.Sham.Transfer.Finish.{Finishes, transfer_can_finish}
use c_shell_and_networking.Sham.Transfer.Recover.{transfer_recovers}
use c_shell_and_networking.Sham.Transfer.Nameless.{nameless}
use c_shell_and_networking.Sham.Transfer.Livelock.{
  IsAtFirstChunk, IsResending, IsStuck, garbled_livelock, name_lost_livelock,
}

-- Three bytes under a name of one byte, after a handshake with the number 4.
abbrev small : Upload
small = record { base = 5; name = codes "f"; file = codes "abc" }

small-Fits : Fits small
small-Fits = record { positive = omega arith; room = omega arith }

abbrev name_packet : Packet
name_packet = record { header = header 5 0 8; payload = codes "f" ++ 0 ∷ [] }

abbrev data_packet : Packet
data_packet = record { header = header 7 0 0; payload = codes "abc" }

abbrev fin_packet : Packet
fin_packet = record { header = header 10 0 4; payload = [] }

-- The name, a timeout, the chunk, its ACK, and FIN.
abbrev received : System
received = server_turn false data_packet (client_turn none (named small 1))

abbrev finished : System
finished = server_turn false fin_packet (client_turn (some (header 0 10 2)) received)

to_received : Reach (named small 1) received
unfolding server_turn client_turn Client.step Server.step
to_received = next (next here time_out) (hear_packet 1 data_packet false refl)

to_finished : Reach (named small 1) finished
unfolding server_turn client_turn Client.step Server.step
to_finished =
    next (next to_received (hear_ack 1 (header 0 10 2) refl)) (hear_packet 2 fin_packet false refl)

from_start : Reach (initial small 1) finished
unfolding server_turn client_turn Client.step Server.step
from_start =
    next
      (next
        (next (next (next here (hear_packet 0 name_packet false refl)) time_out)
          (hear_packet 1 data_packet false refl))
        (hear_ack 1 (header 0 10 2) refl))
      (hear_packet 2 fin_packet false refl)

finished_file : finished.server.written ≡ codes "abc"
unfolding server_turn client_turn Client.step Server.step
finished_file = refl

transfer_safety_example : IsPartOf small finished.server.written
transfer_safety_example = transfer_safety small 1 small-Fits from_start

transfer_complete_example : IsWhole small finished.server.written
unfolding server_turn client_turn Client.step Server.step
transfer_complete_example = transfer_complete small 1 small-Fits from_start refl

server_done-IsWhole_example : IsWhole small finished.server.written
unfolding server_turn client_turn Client.step Server.step
server_done-IsWhole_example = server_done-IsWhole small 1 small-Fits from_start refl

named_transfer_exact_example : finished.server.written ≡ codes "abc"
unfolding server_turn client_turn Client.step Server.step
named_transfer_exact_example = named_transfer_exact small 1 small-Fits to_finished refl

-- The client gives up waiting for the name's ACK, the chunk is lost, and then that ACK arrives.
abbrev chunk_sent : System
chunk_sent = client_turn none (named small 1)

abbrev lost : System
lost = record (record chunk_sent { to_server = erase_at 1 chunk_sent.to_server }) {
  to_server = erase_at 0 (erase_at 1 chunk_sent.to_server);
}

abbrev confused : System
confused = client_turn (some (header 0 7 2)) lost

confused-IsStuck : IsStuck confused
unfolding client_turn server_turn Client.step Server.step erase_at
confused-IsStuck = ground arith

confused-reachable : Reach (named small 1) confused
unfolding client_turn server_turn Client.step Server.step
confused-reachable =
    next (next (next (next here time_out) (lose_packet 1)) (lose_packet 0))
      (hear_ack 0 (header 0 7 2) refl)

garbled_livelock_example : IsResending confused (client_turn none confused)
garbled_livelock_example = garbled_livelock confused-IsStuck (next here time_out)

lost-reachable : Reach (named small 1) lost
unfolding client_turn server_turn Client.step Server.step erase_at
lost-reachable = next (next (next here time_out) (lose_packet 1)) (lose_packet 0)

transfer_recovers_example : Finishes lost (codes "abc")
unfolding client_turn server_turn Client.step Server.step erase_at
transfer_recovers_example = transfer_recovers small 1 small-Fits lost-reachable refl refl

name_lost_livelock_example :
    ((((client_turn none (nameless small 1)).client.phase ≡ Client.naming)
        × ((client_turn none (nameless small 1)).to_server ≡ [])
        × ((client_turn none (nameless small 1)).to_client ≡ []))
      ⊎ IsAtFirstChunk small (client_turn none (nameless small 1)))
    × ((client_turn none (nameless small 1)).server.expected_seq ≡ 5)
    × ((client_turn none (nameless small 1)).server.written ≡ [])
name_lost_livelock_example =
    name_lost_livelock small 1 small-Fits (omega arith) (next here time_out)

transfer_can_finish_example : Finishes (initial small 1) (codes "abc")
transfer_can_finish_example = transfer_can_finish small 1 (omega arith) (omega arith)
