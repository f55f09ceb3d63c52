-- ===== src/Sham/Chat/Conversation.antt =====
-- Conversations over chat_mode of networking/client.c and networking/server.c: turns in which only
-- the standard input or only the socket is ready.
use c_shell_and_networking.Base.{
  ℕ, zero, suc, ◌≤◌, ◌==◌, ◌≡◌, ◌∙◌, refl, ap, sym, true, false, Option, none, some, List, [], ◌∷◌,
  ◌++◌, ltb, length, All, arith, append_assoc, append-nil, replicate,
}
use c_shell_and_networking.Base.Bytes.{Bytes, codes, str_eq}
use c_shell_and_networking.Base.Lines.{
  until_nul, NotNewline, fgets, cut_newline, fgets_line, cut_newline_line,
}
use c_shell_and_networking.Sham.Wire.{Packet, header}
use c_shell_and_networking.Sham.Chat.{
  Chat, Turn, goes_on, leaves, undefined, read_buffer, after_read, on_stdin, on_datagram, received,
  then_datagram, chat_turn, client_turn, server_turn,
}

-- A line that is typed and is not the end of the chat.
pub record IsSaid (line : Bytes) : Type 0 where
  pub fits : length line ≤ 1022
  pub one_line : All NotNewline line
  pub text : All (λ b. (b == 0) ≡ false) line
  pub stays : str_eq line (codes "/quit") ≡ false

-- The turns of one side, after one another.
abbrev and_then : (Chat → Turn) → Turn → Turn
and_then f (goes_on c) = f c
and_then f (leaves n c) = leaves n c
and_then f undefined = undefined

-- n turns of the client in which only the standard input is ready.
unfoldable pub type_lines : ℕ → ℕ → Chat → Turn
type_lines seq zero c = goes_on c
type_lines seq (suc n) c = and_then (type_lines seq n) (client_turn seq true none c)

-- Turns of the server in which only the socket is ready.
unfoldable pub hear_all : List Packet → Chat → Turn
hear_all [] c = goes_on c
hear_all (p ∷ ps) c = and_then (hear_all ps) (server_turn false (some p) c)

-- The lines with their newlines, and then /quit.
abbrev pub typed : List Bytes → Bytes
typed [] = codes "/quit\n"
typed (line ∷ lines) = line ++ 10 ∷ typed lines

abbrev pub packets : ℕ → List Bytes → List Packet
packets seq [] = []
packets seq (line ∷ lines) = record { header = header seq 0 0; payload = line } ∷ packets seq lines

-- What the other side prints.
abbrev pub transcript : List Bytes → Bytes
transcript [] = []
transcript (line ∷ lines) = received line ++ transcript lines

until_nul-text :
    (s t : Bytes) → All (λ b. (b == 0) ≡ false) s → until_nul (s ++ t) ≡ s ++ until_nul t
until_nul-text [] t a = refl
until_nul-text (c ∷ s) t a = rw (a.0, until_nul-text s t a.1)

read_buffer-line :
    (line s : Bytes) (buffer : Option Bytes)
    → IsSaid line
    → read_buffer (line ++ 10 ∷ s) buffer ≡ (some line, s)
unfolding read_buffer fgets cut_newline
read_buffer-line [] s buffer i = refl
read_buffer-line (c ∷ line) s buffer i =
    let read = fgets_line 1023 (c ∷ line) s (omega (arith, i.fits)) i.one_line in
    let text = until_nul-text (c ∷ line) (10 ∷ []) i.text in
    let cut = cut_newline_line (c ∷ line) i.one_line in rw (read, text, cut) refl

-- One line on the side of the client.
said :
    (seq : ℕ) (line s : Bytes) (c : Chat)
    → IsSaid line
    → c.stdin ≡ line ++ 10 ∷ s
    → client_turn seq true none c
      ≡ goes_on (record {
        buffer = some line;
        stdin = s;
        sent = c.sent ++ record { header = header seq 0 0; payload = line } ∷ [];
        shown = c.shown;
      })
unfolding client_turn chat_turn on_stdin then_datagram after_read
said seq line s c i e =
    let short : ltb (length line) 1024 ≡ true = ground (arith, i.fits) in
    rw (e, read_buffer-line line s c.buffer i, i.stays, short) refl

-- The same line on the side of the server.
heard :
    (seq : ℕ) (line : Bytes) (d : Chat)
    → IsSaid line
    → server_turn false (some (record { header = header seq 0 0; payload = line })) d
      ≡ goes_on (record d { shown = d.shown ++ received line })
unfolding server_turn chat_turn then_datagram on_datagram
heard seq line d i =
    let short : ltb (length line) 1024 ≡ true = ground (arith, i.fits) in
    let text : until_nul line ≡ line =
      ap until_nul (sym (append-nil line)) ∙ until_nul-text line [] i.text ∙ append-nil line in
    rw (text, short) refl

-- The end of the client's chat.
abbrev over : Chat → Chat
over c = record c { buffer = some (codes "/quit"); stdin = [] }

said_quit :
    (seq : ℕ) (c : Chat) → c.stdin ≡ typed [] → client_turn seq true none c ≡ leaves 0 (over c)
unfolding client_turn chat_turn on_stdin then_datagram after_read read_buffer fgets cut_newline
    str_eq
said_quit seq c e = rw e refl

type_lines-leaves :
    (seq : ℕ) (lines : List Bytes) (c : Chat)
    → All IsSaid lines
    → c.stdin ≡ typed lines
    → type_lines seq (suc (length lines)) c
      ≡ leaves 0 (over (record c { sent = c.sent ++ packets seq lines }))
unfolding type_lines
type_lines-leaves seq [] c a e = rw (said_quit seq c e, append-nil c.sent) refl
type_lines-leaves seq (line ∷ lines) c a e =
    let p : Packet = record { header = header seq 0 0; payload = line } in
    let next : Chat = record {
      buffer = some line;
      stdin = typed lines;
      sent = c.sent ++ p ∷ [];
      shown = c.shown;
    } in
    rw (said seq line (typed lines) c a.0 e) (
      type_lines-leaves seq lines next a.1 refl
      ∙ ap (λ x. leaves 0 (over (record c { sent = x })))
          (append_assoc c.sent (p ∷ []) (packets seq lines)))

hear_all-goes_on :
    (seq : ℕ) (lines : List Bytes) (d : Chat)
    → All IsSaid lines
    → hear_all (packets seq lines) d ≡ goes_on (record d { shown = d.shown ++ transcript lines })
unfolding hear_all
hear_all-goes_on seq [] d a = ap (λ x. goes_on (record d { shown = x })) (sym (append-nil d.shown))
hear_all-goes_on seq (line ∷ lines) d a =
    let text = received line in
    rw (heard seq line d a.0) (
      hear_all-goes_on seq lines (record d { shown = d.shown ++ text }) a.1
      ∙ ap (λ x. goes_on (record d { shown = x })) (append_assoc d.shown text (transcript lines)))

-- Lines of at most 1022 bytes, without zero bytes and other than /quit, that are typed at the
-- client before /quit: after one turn for each of them and one for /quit the client has left the
-- loop and has sent one packet for each line, and a server that hears these packets in order prints
-- exactly the lines, each after "Received: ", and stays in its loop.
pub chat_delivers :
    (seq : ℕ) (lines : List Bytes) (c d : Chat)
    → All IsSaid lines
    → c.stdin ≡ typed lines
    → (type_lines seq (suc (length lines)) c
        ≡ leaves 0 (record {
          buffer = some (codes "/quit");
          stdin = [];
          sent = c.sent ++ packets seq lines;
          shown = c.shown;
        }))
      × (hear_all (packets seq lines) d
          ≡ goes_on (record d { shown = d.shown ++ transcript lines }))
chat_delivers seq lines c d a e =
    (type_lines-leaves seq lines c a e, hear_all-goes_on seq lines d a)

-- At the end of the standard input, which select reports as ready, every turn of the client sends
-- the line that was read last once more, unless that line is /quit: after n turns it was sent n
-- times more, and the client is still in the loop.
pub chat_end_repeats :
    (seq n : ℕ) (line : Bytes) (c : Chat)
    → c.stdin ≡ []
    → c.buffer ≡ some line
    → str_eq line (codes "/quit") ≡ false
    → length line ≤ 1023
    → type_lines seq n c
      ≡ goes_on (record c {
        sent = c.sent ++ replicate n record { header = header seq 0 0; payload = line };
      })
unfolding type_lines client_turn chat_turn on_stdin then_datagram after_read read_buffer
chat_end_repeats seq zero line c e b q l =
    ap (λ x. goes_on (record c { sent = x })) (sym (append-nil c.sent))
chat_end_repeats seq (suc n) line c e b q l =
    let p : Packet = record { header = header seq 0 0; payload = line } in
    let short : ltb (length line) 1024 ≡ true = ground arith in
    let next : Chat = record {
      buffer = some line;
      stdin = [];
      sent = c.sent ++ p ∷ [];
      shown = c.shown;
    } in
    rw (e, b, q, short)
      (chat_end_repeats seq n line next refl refl q l
        ∙ ap (λ x. goes_on (record next { sent = x }))
            (append_assoc c.sent (p ∷ []) (replicate n p)))
