-- ===== src/Sham/Transfer/Finish.antt =====
-- Runs of a transfer in which no datagram is lost.
use mathlib.Core.Path.{subst}
use c_shell_and_networking.Base.{
  ℕ, zero, suc, ◌+◌, ◌-◌, ◌^◌, ◌≤◌, ◌<◌, ◌==◌, ◌≡◌, refl, ap, ◌∙◌, sym, true, false, some, none,
  List, [], ◌∷◌, ◌++◌, length, take, drop, get_elem?, take-append-drop, length-drop, length-append,
  append_assoc, append-nil, arith,
}
use c_shell_and_networking.Base.Bytes.{Bytes}
use c_shell_and_networking.Sham.Wire.{Header, Packet, header, add32}
use c_shell_and_networking.Sham.Client
use c_shell_and_networking.Sham.Client.{Client}
use c_shell_and_networking.Sham.Server
use c_shell_and_networking.Sham.Server.{Server}
use c_shell_and_networking.Sham.Transfer.{
  System, Step, hear_ack, time_out, hear_packet, Reach, here, next, client_turn, server_turn,
}
use c_shell_and_networking.Sham.Transfer.Upload.{Upload, name_bytes}
use c_shell_and_networking.Sham.Transfer.Safety.{initial}
use c_shell_and_networking.Sham.Transfer.Named.{append-Reach}

-- Some run leads to the end of both programs, with these bytes in the server's file.
pub record Finishes (s : System) (file : Bytes) : Type 0 where
  pub final : System
  pub run : Reach s final
  pub client_closed : final.client.phase ≡ Client.closed
  pub server_closed : final.server.phase ≡ Server.closed
  pub file_written : final.server.written ≡ file

pub Step-Finishes :
    {s : System} (t u : System) (file : Bytes)
    → Step s t
    → t ≡ u
    → Finishes u file
    → Finishes s file
Step-Finishes {s} t u file st e f = record {
  final = f.final;
  run = append-Reach (next here (subst (λ x. Step s x) e st)) f.run;
  client_closed = f.client_closed;
  server_closed = f.server_closed;
  file_written = f.file_written;
}

unfoldable pub Has : {A : Type 0} → A → List A → Type 0
Has x xs = (i : ℕ) × (get_elem? xs i ≡ some x)

pub Has-append : {A : Type 0} (x : A) (xs ys : List A) → Has x ys → Has x (xs ++ ys)
unfolding Has
Has-append x [] ys h = h
Has-append x (y ∷ xs) ys h = let r = Has-append x xs ys h in (suc r.0, r.1)

pub hears :
    (s u : System) (p : Packet) (file : Bytes)
    → Has p s.to_server
    → server_turn false p s ≡ u
    → Finishes u file
    → Finishes s file
unfolding Has
hears s u p file h e f =
    Step-Finishes (server_turn false p s) u file (hear_packet h.0 p false h.1) e f

pub takes :
    (s u : System) (a : Header) (file : Bytes)
    → Has a s.to_client
    → client_turn (some a) s ≡ u
    → Finishes u file
    → Finishes s file
unfolding Has
takes s u a file h e f = Step-Finishes (client_turn (some a) s) u file (hear_ack h.0 a h.1) e f

-- The server in its loop.
abbrev pub loop : Server → ℕ → Bytes → Server
loop s q w = record s { phase = Server.receiving; expected_seq = q; written = w }

-- After next_chunk.
abbrev pub with_chunk : Bytes → Client → Server → Bytes → List Packet → List Header → System
with_chunk rest c s w ps hs =
    let r = Client.next_chunk rest c in
    record { client = r.0; server = loop s c.seq w; to_server = ps ++ r.1; to_client = hs }

-- FIN, the ACK and the FIN of the server, and the last ACK.
fin-Finishes :
    (c : Client) (s : Server) (w : Bytes) (ps : List Packet) (hs : List Header)
    → Finishes (with_chunk [] c s w ps hs) w
unfolding Has client_turn server_turn Client.next_chunk Client.send_fin Client.step Client.step_in
    Client.last_ack Server.step Server.step_in Server.on_packet Server.on_fin
fin-Finishes c s w ps hs =
    let fin = header c.seq 0 4 in
    let acked = header (add32 s.server_seq 1) (add32 c.seq 1) 2 in
    let fin' = header (add32 s.server_seq 1) 0 4 in
    let last = header (add32 c.seq 1) (add32 (add32 s.server_seq 1) 1) 2 in
    let fin_packet : Packet = record { header = fin; payload = [] } in
    let last_packet : Packet = record { header = last; payload = [] } in
    let s0 = with_chunk [] c s w ps hs in
    let s1 = server_turn false fin_packet s0 in
    let s2 = client_turn (some acked) s1 in
    let s3 = client_turn (some fin') s2 in
    let s4 = server_turn false last_packet s3 in
    hears s0 s1 fin_packet w (Has-append fin_packet ps (fin_packet ∷ []) (0, refl)) refl (
      takes s1 s2 acked w (Has-append acked hs (acked ∷ fin' ∷ []) (0, refl)) refl (
        takes s2 s3 fin' w (Has-append fin' hs (acked ∷ fin' ∷ []) (1, refl)) refl (
          hears s3 s4 last_packet w
            (Has-append last_packet s2.to_server (last_packet ∷ []) (0, refl)) refl
            (record {
              final = s4;
              run = here;
              client_closed = refl;
              server_closed = refl;
              file_written = refl;
            }))))

pub self : (n : ℕ) → (n == n) ≡ true
self n = ground arith

-- A chunk and its ACK.
chunk-Finishes :
    (b : ℕ) (bs : Bytes) (c : Client) (s : Server) (w : Bytes) (ps : List Packet) (hs : List Header)
    → ((c' : Client) (ps' : List Packet) (hs' : List Header)
        → Finishes
            (with_chunk (drop 1024 (b ∷ bs)) c' s (w ++ take 1024 (b ∷ bs)) ps' hs')
            (w ++ b ∷ bs))
    → Finishes (with_chunk (b ∷ bs) c s w ps hs) (w ++ b ∷ bs)
unfolding Has client_turn server_turn Client.step Client.step_in Client.on_ack Server.step
    Server.step_in Server.on_packet Server.on_data
chunk-Finishes b bs c s w ps hs next_one =
    let r = Client.next_chunk (b ∷ bs) c in
    let chunk = take 1024 (b ∷ bs) in
    let p : Packet = record { header = header c.seq 0 0; payload = chunk } in
    let seq' = add32 c.seq (length chunk) in
    let a = header 0 seq' 2 in
    let s0 = with_chunk (b ∷ bs) c s w ps hs in
    let s1 : System = record {
      client = r.0;
      server = loop s seq' (w ++ chunk);
      to_server = ps ++ r.1;
      to_client = hs ++ a ∷ [];
    } in
    let c' : Client = record (Client.receive (some a) r.0) { seq = seq' } in
    let s2 = with_chunk (drop 1024 (b ∷ bs)) c' s (w ++ chunk) (ps ++ p ∷ []) (hs ++ a ∷ []) in
    hears s0 s1 p (w ++ b ∷ bs) (Has-append p ps (p ∷ []) (0, refl))
      (rw (self c.seq, server_turn) refl)
      (takes s1 s2 a (w ++ b ∷ bs) (Has-append a hs (a ∷ []) (0, refl))
        (rw (self seq', client_turn) refl) (next_one c' (ps ++ p ∷ []) (hs ++ a ∷ [])))

-- The rest of the file, chunk by chunk, and the end; fuel above its length.
pub rest-Finishes :
    (fuel : ℕ) (rest : Bytes) (c : Client) (s : Server) (w : Bytes) (ps : List Packet)
    (hs : List Header)
    → length rest < fuel
    → Finishes (with_chunk rest c s w ps hs) (w ++ rest)
rest-Finishes zero rest c s w ps hs l = absurd (omega arith)
rest-Finishes (suc fuel) [] c s w ps hs l =
    subst (Finishes (with_chunk [] c s w ps hs)) (sym (append-nil w)) (fin-Finishes c s w ps hs)
rest-Finishes (suc fuel) (b ∷ bs) c s w ps hs l =
    let chunk = take 1024 (b ∷ bs) in
    let more = drop 1024 (b ∷ bs) in
    let whole : (w ++ chunk) ++ more ≡ w ++ b ∷ bs =
      append_assoc w chunk more ∙ ap (λ x. w ++ x) (take-append-drop 1024 (b ∷ bs)) in
    chunk-Finishes b bs c s w ps hs (λ c' ps' hs'.
      subst (Finishes (with_chunk more c' s (w ++ chunk) ps' hs')) whole (
        rest-Finishes fuel more c' s (w ++ chunk) ps' hs'
          (omega (arith, l, length-drop 1024 (b ∷ bs)))))

-- From the beginning of a transfer, whatever the size of the file, there is a run at whose end both
-- programs have returned and the server's file is exactly the client's. The client's first number
-- must not be 0 and is below 2^32; later numbers may wrap.
pub transfer_can_finish :
    (u : Upload) (n : ℕ) → 1 ≤ u.base → u.base < 2 ^ 32 → Finishes (initial u n) u.file
unfolding Has client_turn server_turn Client.step Client.step_in Server.step Server.step_in
    Server.on_first
transfer_can_finish u n lo hi =
    let p : Packet = record { header = header u.base 0 8; payload = name_bytes u } in
    let q = add32 u.base (length u.name + 1) in
    let s0 = initial u n in
    let s1 = server_turn false p s0 in
    let srv = s1.server in
    let c' : Client = record s0.client { seq = q } in
    let base : add32 (u.base - 1) 1 ≡ u.base = omega arith in
    let len : length (name_bytes u) ≡ length u.name + 1 = length-append u.name (0 ∷ []) in
    let s2 = with_chunk u.file c' srv [] (p ∷ []) (header 0 q 2 ∷ []) in
    hears s0 s1 p u.file (0, refl) refl
      (Step-Finishes (client_turn none s1) s2 u.file time_out (rw (base, len) refl) (
        rest-Finishes (suc (length u.file)) u.file c' srv [] (p ∷ []) (header 0 q 2 ∷ [])
          (omega arith)))
