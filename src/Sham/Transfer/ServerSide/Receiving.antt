-- ===== src/Sham/Transfer/ServerSide/Receiving.antt =====
-- A packet in the server's loop.
use Prim.Native.Nat.{bit_and}
use c_shell_and_networking.Base.{
  ℕ, ◌+◌, ◌≤◌, ◌<◌, ◌≡◌, refl, ap, sym, ◌∙◌, ◌⊎◌, inl, inr, true, false, not, List, [], ◌∷◌, ◌++◌,
  length, take, All, arith, ◌==◌, append-nil, append_assoc, length-append, Bool-cases,
}
use c_shell_and_networking.Base.Bytes.{Bytes}
use c_shell_and_networking.Sham.Wire.{Header, Packet, header, has_flag, add32}
use c_shell_and_networking.Sham.Server.{Server, Sends, Phase}
use c_shell_and_networking.Sham.Server
use c_shell_and_networking.Sham.Transfer.Upload.{
  Upload, name_bytes, origin, Fits, chunk_at, Bounds, IsSent, filename, chunk, garbled, fin,
  last_ack, IsAck, ServerIs, before, missed, getting, IsLinked, take-append, length-chunk_at,
  name_bytes-pos,
}
use c_shell_and_networking.Sham.Transfer.ServerSide.First.{IsMoved}

module _ (u : Upload) (b : Bounds) (f : Fits u) (l : IsLinked u b) where
  -- The server as it is, after an ACK of what it expects or after nothing.
  pub kept :
      (s : Server) (k : ℕ) (hs : List Header)
      → ServerIs u s k
      → b.acked ≤ k
      → k ≤ b.top
      → All (IsAck s.expected_seq) hs
      → IsMoved u b s (s, hs)
  kept s k hs is a t acks = record {
    k = k;
    is = is;
    acked = a;
    top = t;
    grows = omega arith;
    counted = λ h. refl;
    acks = λ h. acks;
    done = λ h. inl h;
  }

  -- The server after it has taken a packet as the next one.
  abbrev taken : Server → Packet → Server
  taken s p = record s {
    written = s.written ++ p.payload;
    expected_seq = add32 s.expected_seq (length p.payload);
  }

  abbrev Taken : Server → Packet → Type 0
  Taken s p = IsMoved u b s (taken s p, header 0 (taken s p).expected_seq 2 ∷ [])

  took :
      (s : Server) (p : Packet) (k : ℕ)
      → s.phase ≡ Server.receiving
      → ServerIs u (taken s p) k
      → b.acked ≤ k
      → k ≤ b.top
      → s.expected_seq ≤ (taken s p).expected_seq
      → (origin u ≤ s.expected_seq → (taken s p).expected_seq ≡ s.expected_seq + length p.payload)
      → Taken s p
  took s p k ph is a t g next = record {
    k = k;
    is = is;
    acked = a;
    top = t;
    grows = g;
    counted = λ h. omega (arith, length-append s.written p.payload, next h);
    acks = λ h. (record { zero_seq = refl; only_ack = refl; not_ahead = omega arith }, tt);
    done = λ h. inl h;
  }

  -- The filename packet as the next one: the name goes into the file.
  take_filename :
      (s : Server) (p : Packet)
      → s.phase ≡ Server.receiving
      → s.expected_seq ≡ u.base
      → s.written ≡ []
      → b.acked ≤ 0
      → p.payload ≡ name_bytes u
      → Taken s p
  take_filename s p ph e w a y =
      let o : add32 s.expected_seq (length p.payload) ≡ origin u =
        rw (e, y) (omega (arith, f.room)) in
      took s p 0 ph
        (getting (name_bytes u) (inr refl) (λ h. cc (h, ph)) (o ∙ omega arith)
          (rw (w, y, append-nil) refl) (omega arith))
        a (omega arith) (omega (arith, o, e)) (λ h. absurd (omega (arith, name_bytes-pos u)))

  -- The expected chunk.
  take_chunk :
      (s : Server) (p : Packet) (k : ℕ) (prefix : Bytes)
      → s.phase ≡ Server.receiving
      → (prefix ≡ []) ⊎ (prefix ≡ name_bytes u)
      → s.expected_seq ≡ origin u + k
      → s.written ≡ prefix ++ take k u.file
      → b.acked ≤ k
      → k < b.bound
      → k < length u.file
      → p.payload ≡ chunk_at u k
      → Taken s p
  take_chunk s p k prefix ph pre e w a below in_file y =
      let n = length (chunk_at u k) in
      let inside : k + n ≤ length u.file = omega (arith, length-chunk_at u k) in
      let o : add32 s.expected_seq (length p.payload) ≡ origin u + (k + n) =
        rw (e, y) (omega (arith, f.room, inside)) in
      took s p (k + n) ph
        (getting prefix pre (λ h. cc (h, ph)) o
          (rw (w, y)
            (append_assoc prefix (take k u.file) (chunk_at u k)
              ∙ ap (λ r. prefix ++ r) (take-append k 1024 u.file)))
          inside)
        (omega arith) (omega (arith, l.link k below a in_file)) (omega (arith, o, e))
        (λ h. omega (arith, o, e, ap (λ (d : Bytes). length d) y))

  -- A packet whose number is the expected one is the filename packet, if the server has missed it,
  -- or the chunk at the length of what was written.
  accepted :
      (s : Server) (p : Packet) (k : ℕ)
      → s.phase ≡ Server.receiving
      → has_flag p.header 4 ≡ false
      → p.header.seq_num ≡ s.expected_seq
      → b.acked ≤ k
      → ServerIs u s k
      → IsSent u b p
      → Taken s p
  accepted s p k ph nf eq a (before h e w z) sent = absurd (cc (h, ph))
  accepted s p k ph nf eq a (missed h e w z) (filename x) =
      take_filename s p ph e w (omega (arith, z)) (rw x)
  accepted s p k ph nf eq a (missed h e w z) (chunk o lt below x) =
      absurd (omega (arith, ap (λ (q : Packet). q.header.seq_num) x, name_bytes-pos u))
  accepted s p k ph nf eq a (missed h e w z) (garbled zero_seq fl) =
      absurd (omega (arith, f.positive))
  accepted s p k ph nf eq a (missed h e w z) (last_ack n fl) =
      absurd (omega (arith, name_bytes-pos u))
  accepted s p k ph nf eq a (getting prefix pre h e w i) (filename x) =
      absurd (omega (arith, ap (λ (q : Packet). q.header.seq_num) x, name_bytes-pos u))
  accepted s p k ph nf eq a (getting prefix pre h e w i) (chunk o lt below x) =
      let same : o ≡ k = omega (arith, ap (λ (q : Packet). q.header.seq_num) x) in
      take_chunk s p k prefix ph pre e w a (omega arith) (omega arith)
        (ap (λ (q : Packet). q.payload) x ∙ ap (chunk_at u) same)
  accepted s p k ph nf eq a (getting prefix pre h e w i) (garbled zero_seq fl) =
      absurd (omega (arith, f.positive))
  accepted s p k ph nf eq a (getting prefix pre h e w i) (last_ack n fl) = absurd (omega arith)
  accepted s p k ph nf eq a is (fin c fl) = absurd (four p.header.flags fl nf)
    where
      four : (n : ℕ) → n ≡ 4 → not (bit_and n 4 == 0) ≡ false → ⊥
      four n e h = cc (ap (λ m. not (bit_and m 4 == 0)) (sym e) ∙ h)

  pub data_moves :
      (s : Server) (p : Packet) (k : ℕ)
      → s.phase ≡ Server.receiving
      → has_flag p.header 4 ≡ false
      → b.acked ≤ k
      → k ≤ b.top
      → ServerIs u s k
      → IsSent u b p
      → IsMoved u b s (Server.on_data p s)
  unfolding Server.on_data
  data_moves s p k ph nf a t is sent = elim (Bool-cases (p.header.seq_num == s.expected_seq)) [
    | inl e ↦ rw e (accepted s p k ph nf (ground arith) a is sent)
    | inr e ↦ rw e (
        kept s k (header 0 s.expected_seq 2 ∷ []) is a t
          (record { zero_seq = refl; only_ack = refl; not_ahead = omega arith }, tt))
  ]

  -- FIN, which the client sends when every byte is acknowledged.
  pub fin_moves :
      (s : Server) (p : Packet) (k : ℕ)
      → s.phase ≡ Server.receiving
      → has_flag p.header 4 ≡ true
      → b.acked ≤ k
      → k ≤ b.top
      → ServerIs u s k
      → IsSent u b p
      → IsMoved u b s (Server.on_fin p s)
  unfolding Server.on_fin
  fin_moves s p k ph ff a t is sent = record {
    k = k;
    is = ended is;
    acked = a;
    top = t;
    grows = omega arith;
    counted = λ h. refl;
    acks = λ h. absurd (cc);
    done = λ h. inr (closing sent);
  }
    where
      ended : ServerIs u s k → ServerIs u (Server.on_fin p s).0 k
      ended (before h e w z) = absurd (cc (h, ph))
      ended (missed h e w z) = missed (λ x. cc) e w z
      ended (getting prefix pre h e w i) = getting prefix pre (λ x. cc) e w i

      not_fin : (fl : ℕ) → p.header.flags ≡ fl → not (bit_and fl 4 == 0) ≡ false → b.closing ≡ true
      not_fin fl e h = cc (ap (λ m. not (bit_and m 4 == 0)) (sym e) ∙ ff, h)

      closing : IsSent u b p → b.closing ≡ true
      closing (filename x) = not_fin 8 (rw x) refl
      closing (chunk o lt below x) = not_fin 0 (rw x) refl
      closing (garbled z fl) = not_fin 2 fl refl
      closing (fin c fl) = c
      closing (last_ack n fl) = not_fin 2 fl refl
