-- ===== src/Sham/Transfer/Recover.antt =====
-- A transfer that goes on after any loss, as long as the client sends a chunk under its own number.
use mathlib.Core.Path.{subst}
use c_shell_and_networking.Base.{
  ℕ, suc, ◌+◌, ◌<◌, ◌≡◌, refl, ap, sym, ◌∙◌, ◌⊎◌, inl, inr, true, false, [], ◌∷◌, ◌++◌, length,
  take, drop, some, none, arith, ◌==◌, length-append, length-take, take-append-drop, append_assoc,
}
use c_shell_and_networking.Base.Bytes.{Bytes}
use c_shell_and_networking.Sham.Wire.{Header, Packet, header, has_flag, add32}
use c_shell_and_networking.Sham.Client
use c_shell_and_networking.Sham.Client.{Client, acknowledges, receive, packet_of}
use c_shell_and_networking.Sham.Server
use c_shell_and_networking.Sham.Server.{Server}
use c_shell_and_networking.Sham.Transfer.{System, time_out, Reach, client_turn, server_turn}
use c_shell_and_networking.Sham.Transfer.Upload.{
  Upload, origin, Fits, chunk_at, Bounds, ServerIs, before, missed, getting, ClientIs, naming,
  sending, closing, length-chunk_at, name_bytes-pos, take-append,
}
use c_shell_and_networking.Sham.Transfer.Safety.{Consistent, Reach-Consistent}
use c_shell_and_networking.Sham.Transfer.Named.{
  named, IsCounted, Reach-IsCounted, append-Reach, named-Reach,
}
use c_shell_and_networking.Sham.Transfer.Finish.{
  Finishes, Step-Finishes, Has, Has-append, hears, takes, self, rest-Finishes, loop, with_chunk,
}
use c_shell_and_networking.Sham.Transfer.Nameless.{differs}
use c_shell_and_networking.Sham.Transfer.Level.{IsLevel, after_chunk, server_receives}
use c_shell_and_networking.Sham.Transfer.Level.Steps.{Reach-IsLevel}

-- The number and the ACK after the client's chunk.
abbrev following : Client → ℕ
following c = add32 c.seq (length c.chunk)

-- A retransmission that the server answers with the ACK of the chunk, and the rest of the transfer.
resent-Finishes :
    (s : System) (w file : Bytes)
    → s.client.phase ≡ Client.sending
    → s.server.phase ≡ Server.receiving
    → s.client.packet_header ≡ header s.client.seq 0 0
    → Server.on_data (packet_of s.client) s.server
      ≡ (loop s.server (following s.client) w, header 0 (following s.client) 2 ∷ [])
    → Finishes
        (with_chunk s.client.rest
          (record (receive (some (header 0 (following s.client) 2)) s.client) {
            seq = following s.client;
          })
          s.server
          w
          (s.to_server ++ packet_of s.client ∷ [])
          (s.to_client ++ header 0 (following s.client) 2 ∷ []))
        file
    → Finishes s file
unfolding Has client_turn server_turn Client.step Client.step_in Client.on_ack Server.step
    Server.step_in Server.on_packet
resent-Finishes s w file ph receiving clean answer rest =
    let p = packet_of s.client in
    let q = following s.client in
    let a = header 0 q 2 in
    let s1 : System = record s { to_server = s.to_server ++ p ∷ [] } in
    let s2 : System = record s1 { server = loop s.server q w; to_client = s.to_client ++ a ∷ [] } in
    let no_fin : has_flag s.client.packet_header 4 ≡ false = rw clean refl in
    let resend : client_turn none s ≡ s1 =
      ap
        (λ x.
          let r = Client.step_in x none s.client in
          record s { client = r.0; to_server = s.to_server ++ r.1 })
        ph in
    let on_packet : Server.on_packet false p s.server ≡ (loop s.server q w, a ∷ []) =
      rw (no_fin, Server.on_packet) answer in
    let heard : server_turn false p s1 ≡ s2 =
      ap
        (λ x.
          let r = Server.step_in x false p s.server in
          record s1 { server = r.0; to_client = s.to_client ++ r.1 })
        receiving
      ∙ ap (λ (r : Server.Sends). record s1 { server = r.0; to_client = s.to_client ++ r.1 })
          on_packet in
    Step-Finishes (client_turn none s) s1 file time_out resend (
      hears s1 s2 p file (Has-append p s.to_server (p ∷ []) (0, refl)) heard (
        takes s2 _ a file (Has-append a s.to_client (a ∷ []) (0, refl))
          (ap
              (λ x.
                let r = Client.step_in x (some a) s.client in
                record s2 { client = r.0; to_server = s1.to_server ++ r.1 })
              ph
            ∙ (rw (self q, Client.on_ack) refl))
          rest))

-- The answer to a packet in the loop.
taken_next :
    (s : Server) (e : ℕ) (w : Bytes) (p : Packet)
    → p.header.seq_num ≡ e
    → Server.on_data p (loop s e w) ≡ (
      loop s (add32 e (length p.payload)) (w ++ p.payload),
      header 0 (add32 e (length p.payload)) 2 ∷ [],
    )
unfolding Server.on_data
taken_next s e w p q =
    let test : (p.header.seq_num == e) ≡ true = ground (arith, q) in rw (test, Server.on_data) refl

had_already :
    (s : Server) (e : ℕ) (w : Bytes) (p : Packet)
    → (p.header.seq_num == e) ≡ false
    → Server.on_data p (loop s e w) ≡ (loop s e w, header 0 e 2 ∷ [])
unfolding Server.on_data
had_already s e w p test = rw (test, Server.on_data) refl

in_loop : (s : Server) → s.phase ≡ Server.receiving → s ≡ loop s s.expected_seq s.written
in_loop s ph = λ i. record s { phase = ph i }

module _ (u : Upload) (f : Fits u) (s : System) (c : Consistent u s) (counted : IsCounted u s) where
  -- How much of the file the server has, and that it has nothing else.
  written_part : (k : ℕ) → s.server.expected_seq ≡ origin u + k → s.server.written ≡ take k u.file
  written_part k at = of_server c.k c.server
    where
      of_server : (j : ℕ) → ServerIs u s.server j → s.server.written ≡ take k u.file
      of_server j (before x e w z) = absurd (omega (arith, counted, e, name_bytes-pos u))
      of_server j (missed x e w z) = absurd (omega (arith, counted, e, name_bytes-pos u))
      of_server j (getting prefix (inl none_before) x e w i) =
          let same : j ≡ k = omega (arith, e, at) in
          w ∙ ap (λ (t : Bytes). t ++ take j u.file) none_before ∙ ap (λ n. take n u.file) same
      of_server j (getting prefix (inr named_before) x e w i) = absurd (
          omega (
            arith,
            counted,
            e,
            ap (λ (t : Bytes). length t) w,
            length-append prefix (take j u.file),
            ap (λ (t : Bytes). length t) named_before,
            name_bytes-pos u,
            length-take j u.file,
            i,
          ))

  -- The file in three parts: before the chunk, the chunk, and what the client has not read.
  three_parts :
      (o : ℕ) → take (o + length (chunk_at u o)) u.file ++ drop 1024 (drop o u.file) ≡ u.file
  three_parts o =
      ap (λ t. t ++ drop 1024 (drop o u.file)) (sym (take-append o 1024 u.file))
      ∙ append_assoc (take o u.file) (chunk_at u o) (drop 1024 (drop o u.file))
      ∙ ap (λ t. take o u.file ++ t) (take-append-drop 1024 (drop o u.file))
      ∙ take-append-drop o u.file

  -- The server's answer to the chunk under its own number.
  answer_to_chunk :
      (o : ℕ)
      → o < length u.file
      → s.server.phase ≡ Server.receiving
      → s.client.seq ≡ origin u + o
      → s.client.chunk ≡ chunk_at u o
      → s.client.packet_header ≡ header s.client.seq 0 0
      → (s.server.expected_seq ≡ s.client.seq) ⊎ (s.server.expected_seq ≡ after_chunk s.client)
      → Server.on_data (packet_of s.client) s.server ≡ (
        loop s.server (following s.client) (take (o + length (chunk_at u o)) u.file),
        header 0 (following s.client) 2 ∷ [],
      )
  answer_to_chunk o lt receiving sq ch clean (inl q) =
      let p = packet_of s.client in
      let number : p.header.seq_num ≡ s.server.expected_seq =
        ap (λ (h : Header). h.seq_num) clean ∙ sym q in
      let grown : s.server.written ++ s.client.chunk ≡ take (o + length (chunk_at u o)) u.file =
        ap (λ t. t ++ s.client.chunk) (written_part o (q ∙ sq))
        ∙ ap (λ t. take o u.file ++ t) ch
        ∙ take-append o 1024 u.file in
      ap (Server.on_data p) (in_loop s.server receiving)
      ∙ taken_next s.server s.server.expected_seq s.server.written p number
      ∙ (λ i. (
        loop s.server (add32 (q i) (length s.client.chunk)) (grown i),
        header 0 (add32 (q i) (length s.client.chunk)) 2 ∷ [],
      ))
  answer_to_chunk o lt receiving sq ch clean (inr q) =
      let p = packet_of s.client in
      let len : length s.client.chunk ≡ length (chunk_at u o) = ap (λ (t : Bytes). length t) ch in
      let number : p.header.seq_num ≡ s.client.seq = ap (λ (h : Header). h.seq_num) clean in
      let other : (p.header.seq_num == s.server.expected_seq) ≡ false =
        differs _ _ (λ e. omega (arith, e, number, q, len, length-chunk_at u o, lt)) in
      let top : s.server.expected_seq ≡ following s.client =
        omega (arith, q, sq, len, f.room, length-chunk_at u o, lt) in
      let part : s.server.written ≡ take (o + length (chunk_at u o)) u.file =
        written_part (o + length (chunk_at u o)) (omega (arith, q, sq, len)) in
      ap (Server.on_data p) (in_loop s.server receiving)
      ∙ had_already s.server s.server.expected_seq s.server.written p other
      ∙ (λ i. (loop s.server (top i) (part i), header 0 (top i) 2 ∷ []))

  recovered :
      IsLevel u s.client s.server.expected_seq
      → s.client.phase ≡ Client.sending
      → s.client.packet_header ≡ header s.client.seq 0 0
      → ClientIs u s.client c.bounds
      → Finishes s u.file
  recovered v ph clean (naming x sq fl r e) = absurd (cc (x, ph))
  recovered v ph clean (closing (inl x) sq e) = absurd (cc (x, ph))
  recovered v ph clean (closing (inr (inl x)) sq e) = absurd (cc (x, ph))
  recovered v ph clean (closing (inr (inr x)) sq e) = absurd (cc (x, ph))
  recovered v ph clean (sending o lt x sq hd ch rest e) =
      let live : c.bounds.closing ≡ false = ap (λ (b : Bounds). b.closing) e in
      let receiving = server_receives u f s c counted live in
      let w = take (o + length (chunk_at u o)) u.file in
      let whole : w ++ s.client.rest ≡ u.file = ap (λ t. w ++ t) rest ∙ three_parts o in
      resent-Finishes s w u.file ph receiving clean
        (answer_to_chunk o lt receiving sq ch clean (v.at_chunk ph))
        (subst (Finishes _) whole
          (rest-Finishes (suc (length s.client.rest)) s.client.rest _ s.server w _ _ (omega arith)))

-- The filename packet came first, and whatever was lost, repeated, delayed or reordered since: as
-- long as the client sends a chunk under the chunk's own number, that is, has not taken a wrong ACK
-- for this chunk, there is a run in which the transfer is finished and the server's file is exactly
-- the client's.
pub transfer_recovers :
    (u : Upload) (n : ℕ) {s : System}
    → Fits u
    → Reach (named u n) s
    → s.client.phase ≡ Client.sending
    → s.client.packet_header ≡ header s.client.seq 0 0
    → Finishes s u.file
transfer_recovers u n {s} f r ph clean =
    let c = Reach-Consistent u f n (append-Reach (named-Reach u n) r) in
    recovered u f s c (Reach-IsCounted u n f r) (Reach-IsLevel u f n r) ph clean c.client
