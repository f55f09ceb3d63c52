-- ===== src/Sham/Chat.antt =====
-- chat_mode of networking/client.c and networking/server.c. A turn is what follows one return of
-- select.
mod Conversation
mod Teardown
mod Tests
use c_shell_and_networking.Base.{
  ℕ, ◌-◌, Bool, true, false, Option, none, some, List, [], ◌∷◌, ◌++◌, ltb, if◌then◌else◌, length,
}
use c_shell_and_networking.Base.Bytes.{Bytes, codes, str_eq}
use c_shell_and_networking.Base.Lines.{until_nul, fgets, cut_newline}
use c_shell_and_networking.Sham.Wire.{Header, Packet, fin_flag, payload_size, has_flag, header}

-- The C string in `buffer`, `none` before it is written; what is left of the standard input; what
-- was sent and printed.
pub record Chat : Type 0 where
  pub buffer : Option Bytes
  pub stdin : Bytes
  pub sent : List Packet
  pub shown : Bytes

-- A turn goes on, or leaves the loop, with the number of the FIN or 0 (which the client does not
-- return), or reads memory that C does not define.
pub data Turn : Type 0 where
  goes_on : Chat → Turn
  leaves : ℕ → Chat → Turn
  undefined : Turn

-- fgets and the cut of the newline; at the end of the input the buffer keeps its old line.
unfoldable pub read_buffer : Bytes → Option Bytes → Option Bytes × Bytes
read_buffer [] buffer = (buffer, [])
read_buffer (c ∷ s) buffer =
    let r = fgets (payload_size - 1) (c ∷ s) in (some (cut_newline (until_nul r.0)), r.1)

-- `/quit`, or strcpy to the packet's data and sendto.
unfoldable pub after_read : Header → Option Bytes → Chat → Turn
after_read h none c = undefined
after_read h (some line) c =
    if str_eq line (codes "/quit")
    then leaves 0 c
    else if ltb (length line) payload_size
    then goes_on (record c { sent = c.sent ++ record { header = h; payload = line } ∷ [] })
    else undefined

unfoldable pub on_stdin : Header → Chat → Turn
on_stdin h c =
    let r = read_buffer c.stdin c.buffer in
    after_read h r.0 (record c { buffer = r.0; stdin = r.1 })

-- printf("Received: %s\n", …)
abbrev pub received : Bytes → Bytes
received text = codes "Received: " ++ text ++ 10 ∷ []

-- What is printed of a datagram: the data is zero behind it, unless it is full.
unfoldable pub on_datagram : Packet → Chat → Turn
on_datagram p c =
    let text = until_nul p.payload in
    if has_flag p.header fin_flag
    then leaves p.header.seq_num c
    else if ltb (length text) payload_size
    then goes_on (record c { shown = c.shown ++ received text })
    else undefined

-- The second half of a turn, unless the first one left the loop.
unfoldable pub then_datagram : Option Packet → Turn → Turn
then_datagram none t = t
then_datagram (some p) (goes_on c) = on_datagram p c
then_datagram (some p) (leaves n c) = leaves n c
then_datagram (some p) undefined = undefined

-- `ready` is FD_ISSET of the standard input; recvfrom returns a datagram where the socket is ready.
unfoldable pub chat_turn : Header → Bool → Option Packet → Chat → Turn
unfolding then_datagram
chat_turn h ready p c = then_datagram p (if ready then on_stdin h c else goes_on c)

unfoldable pub client_turn : ℕ → Bool → Option Packet → Chat → Turn
client_turn seq = chat_turn (header seq 0 0)

unfoldable pub server_turn : Bool → Option Packet → Chat → Turn
server_turn = chat_turn (header 0 0 0)
