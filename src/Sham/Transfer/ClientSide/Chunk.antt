-- ===== src/Sham/Transfer/ClientSide/Chunk.antt =====
-- The client goes on to the next chunk.
use c_shell_and_networking.Base.{
  ℕ, suc, ◌+◌, ◌-◌, ◌≤◌, ◌<◌, ◌≡◌, refl, ap, sym, ◌∙◌, inl, ap₂, true, false, [], ◌∷◌, length, take,
  drop, All, Option, some, none, arith, length-drop,
}
use c_shell_and_networking.Base.Bytes.{Bytes}
use c_shell_and_networking.Sham.Wire.{Header, Packet, header, add32}
use c_shell_and_networking.Sham.Client.{Client, Sends, Phase, receive, acknowledges, packet_of}
use c_shell_and_networking.Sham.Client
use c_shell_and_networking.Sham.Transfer.Upload.{
  Upload, name_bytes, origin, Fits, chunk_at, Bounds, IsSent, filename, chunk, garbled, fin,
  last_ack, IsAck, ClientIs, sending, closing, length-chunk_at, drop-drop, drop-length-take,
}

-- The bounds grow, and with them the packets that can have been sent.
pub record Grows (b b' : Bounds) : Type 0 where
  pub bound : b.bound ≤ b'.bound
  pub closing : b.closing ≡ true → b'.closing ≡ true

pub IsSent-grows :
    (u : Upload) (b b' : Bounds) (p : Packet) → Grows b b' → IsSent u b p → IsSent u b' p
IsSent-grows u b b' p g (filename x) = filename x
IsSent-grows u b b' p g (chunk o lt below x) = chunk o lt (omega (arith, g.bound)) x
IsSent-grows u b b' p g (garbled z fl) = garbled z fl
IsSent-grows u b b' p g (fin c fl) = fin (g.closing c) fl
IsSent-grows u b b' p g (last_ack n fl) = last_ack n fl

-- What the client does to its position, if k bytes are written.
pub record IsAdvanced (u : Upload) (b : Bounds) (k : ℕ) (out : Sends) : Type 0 where
  pub to : Bounds
  pub is : ClientIs u out.0 to
  pub acked : to.acked ≤ k
  pub top : k ≤ to.top
  pub grows : Grows b to
  pub sends : All (IsSent u to) out.1

-- The bounds while the chunk at an offset is under way, and at the end.
abbrev pub sending_at : Upload → ℕ → Bounds
sending_at u o = record {
  acked = o;
  top = o + length (chunk_at u o);
  bound = suc o;
  closing = false;
}

abbrev pub at_end : Upload → Bounds
at_end u = record {
  acked = length u.file;
  top = length u.file;
  bound = length u.file;
  closing = true;
}

-- What recvfrom can return before the server has seen FIN.
abbrev pub IsReply : ℕ → Option Header → Type 0
IsReply e none = Unit
IsReply e (some h) = IsAck e h

module _ (u : Upload) (f : Fits u) where
  -- The outer loop at an offset up to which the server has everything.
  pub next_chunk_advances :
      (b : Bounds) (o k : ℕ) (rest : Bytes) (c : Client)
      → rest ≡ drop o u.file
      → o ≤ length u.file
      → k ≡ o
      → b.bound ≤ o
      → b.closing ≡ false
      → c.seq ≡ origin u + o
      → IsAdvanced u b k (Client.next_chunk rest c)
  unfolding Client.next_chunk
  next_chunk_advances b o k [] c e i same below ongoing s =
      let empty : length u.file - o ≡ 0 =
        omega (arith, ap (λ (xs : Bytes). length xs) e, length-drop o u.file) in
      let whole : o ≡ length u.file = omega arith in
      record {
        to = at_end u;
        is = closing (inl refl) (s ∙ ap (λ n. origin u + n) whole) refl;
        acked = omega arith;
        top = omega arith;
        grows = record { bound = omega arith; closing = λ h. refl };
        sends = (fin refl refl, tt);
      }
  next_chunk_advances b o k (x ∷ xs) c e i same below ongoing s =
      let more : suc (length xs) ≡ length u.file - o =
        omega (arith, ap (λ (ys : Bytes). length ys) e, length-drop o u.file) in
      let inside : o < length u.file = omega arith in
      let start : header c.seq 0 0 ≡ header (origin u + o) 0 0 = ap (λ n. header n 0 0) s in
      let bytes : take 1024 (x ∷ xs) ≡ chunk_at u o = ap (take 1024) e in
      record {
        to = sending_at u o;
        is = sending o inside refl s (inl start) bytes (ap (drop 1024) e) refl;
        acked = omega arith;
        top = omega arith;
        grows = record { bound = omega arith; closing = λ h. absurd (cc (h, ongoing)) };
        sends = (
          chunk o inside (omega arith)
              (ap₂ (λ h d. record { header = h; payload = d }) start bytes),
          tt,
        );
      }

  pub naming_advances :
      (b : Bounds) (k : ℕ) (r : Option Header) (c : Client)
      → b ≡ record { acked = 0; top = 0; bound = 0; closing = false }
      → c.seq ≡ u.base
      → c.filename_len ≡ length (name_bytes u)
      → c.rest ≡ u.file
      → k ≤ b.top
      → IsAdvanced u b k (Client.step_in Client.naming r c)
  unfolding Client.step_in
  naming_advances b k r c e s n rest t =
      next_chunk_advances b 0 k (receive r c).rest
        (record (receive r c) { seq = add32 (receive r c).seq (receive r c).filename_len }) (kept r)
        (omega arith) (omega (arith, ap (λ (x : Bounds). x.top) e))
        (omega (arith, ap (λ (x : Bounds). x.bound) e)) (ap (λ (x : Bounds). x.closing) e) (next r)
    where
      kept : (r : Option Header) → (receive r c).rest ≡ u.file
      kept none = rest
      kept (some h) = rest

      total : add32 c.seq c.filename_len ≡ origin u + 0
      total = rw (s, n) (omega (arith, f.room))

      next : (r : Option Header) → add32 (receive r c).seq (receive r c).filename_len ≡ origin u + 0
      next none = total
      next (some h) = total

  -- An accepted ACK: the server has the whole chunk.
  pub acknowledged_advances :
      (o k e : ℕ) (h : Header) (c : Client)
      → o < length u.file
      → c.seq ≡ origin u + o
      → c.chunk ≡ chunk_at u o
      → c.rest ≡ drop 1024 (drop o u.file)
      → k ≤ o + length (chunk_at u o)
      → e ≤ origin u + k
      → h.ack_num ≤ e
      → h.ack_num ≡ add32 c.seq (length c.chunk)
      → IsAdvanced u (sending_at u o) k (Client.on_ack true (receive (some h) c))
  unfolding Client.on_ack
  acknowledged_advances o k e h c lt s ch rest t reach ack eq =
      let n = length (chunk_at u o) in
      let some_bytes : 1 ≤ n = omega (arith, length-chunk_at u o) in
      let inside : o + n ≤ length u.file = omega (arith, length-chunk_at u o) in
      let next : add32 c.seq (length c.chunk) ≡ origin u + (o + n) =
        rw (s, ch) (omega (arith, f.room, inside)) in
      next_chunk_advances (sending_at u o) (o + n) k c.rest
        (record (receive (some h) c) { seq = add32 c.seq (length c.chunk) })
        (rest ∙ sym (drop-length-take 1024 (drop o u.file)) ∙ drop-drop n o u.file) inside
        (omega (arith, next)) (omega arith) refl next
