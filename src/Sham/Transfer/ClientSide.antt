-- ===== src/Sham/Transfer/ClientSide.antt =====
-- One return of recvfrom at the client, in any phase.
pub mod Chunk
use Prim.Native.Nat.{bit_and}
use c_shell_and_networking.Base.{
  ℕ, zero, suc, ◌+◌, ◌-◌, ◌^◌, ◌%◌, ◌≤◌, ◌<◌, ◌≡◌, refl, ap, sym, ◌∙◌, ◌⊎◌, inl, inr, ap₂, Bool,
  true, false, not, ◌&&◌, List, [], ◌∷◌, ◌++◌, length, take, drop, All, Option, some, none, arith,
  min, ◌==◌, if◌then◌else◌, length-take, length-drop, Bool-cases,
}
use mathlib.Core.Path.{subst}
use c_shell_and_networking.Base.Bytes.{Bytes}
use c_shell_and_networking.Sham.Wire.{Header, Packet, header, has_flag, add32}
use c_shell_and_networking.Sham.Client.{Client, Sends, Phase, receive, acknowledges, packet_of}
use c_shell_and_networking.Sham.Client
use c_shell_and_networking.Sham.Transfer.Upload.{
  Upload, name_bytes, origin, Fits, chunk_at, Bounds, IsSent, filename, chunk, garbled, fin,
  last_ack, IsAck, ClientIs, naming, sending, closing, length-chunk_at, drop-drop, name_bytes-pos,
  drop-length-take,
}
use c_shell_and_networking.Sham.Transfer.ClientSide.Chunk.{
  Grows, IsAdvanced, sending_at, at_end, IsReply, next_chunk_advances, naming_advances,
  acknowledged_advances,
}

module _ (u : Upload) (f : Fits u) where
  -- Nothing but the register has changed, and nothing new is sent.
  Grows-refl : (b : Bounds) → Grows b b
  Grows-refl b = record { bound = omega arith; closing = λ h. h }

  -- The header that a retransmission carries.
  abbrev Sendable : ℕ → Header → Type 0
  Sendable o h = (h ≡ header (origin u + o) 0 0) ⊎ ((h.seq_num ≡ 0) × (h.flags ≡ 2))

  resent :
      (o : ℕ) (c : Client)
      → o < length u.file
      → Sendable o c.packet_header
      → c.chunk ≡ chunk_at u o
      → IsSent u (sending_at u o) (packet_of c)
  resent o c lt (inl h) ch =
      chunk o lt (omega arith) (ap₂ (λ h d. record { header = h; payload = d }) h ch)
  resent o c lt (inr (z, fl)) ch = garbled z fl

  repeat_advances :
      (o k : ℕ) (c : Client)
      → o < length u.file
      → c.phase ≡ Client.sending
      → c.seq ≡ origin u + o
      → Sendable o c.packet_header
      → c.chunk ≡ chunk_at u o
      → c.rest ≡ drop 1024 (drop o u.file)
      → o ≤ k
      → k ≤ o + length (chunk_at u o)
      → IsAdvanced u (sending_at u o) k (Client.on_ack false c)
  unfolding Client.on_ack
  repeat_advances o k c lt ph s h ch rest a t = record {
    to = sending_at u o;
    is = sending o lt ph s h ch rest refl;
    acked = a;
    top = t;
    grows = Grows-refl (sending_at u o);
    sends = (resent o c lt h ch, tt);
  }

  -- Waiting for a chunk's ACK.
  sending_advances :
      (o k e : ℕ) (r : Option Header) (c : Client)
      → o < length u.file
      → c.phase ≡ Client.sending
      → c.seq ≡ origin u + o
      → Sendable o c.packet_header
      → c.chunk ≡ chunk_at u o
      → c.rest ≡ drop 1024 (drop o u.file)
      → o ≤ k
      → k ≤ o + length (chunk_at u o)
      → e ≤ origin u + k
      → IsReply e r
      → IsAdvanced u (sending_at u o) k (Client.step_in Client.sending r c)
  unfolding Client.step_in
  sending_advances o k e none c lt ph s h ch rest a t reach ok =
      repeat_advances o k c lt ph s h ch rest a t
  sending_advances o k e (some x) c lt ph s h ch rest a t reach ok =
      elim (Bool-cases (acknowledges (some x) c)) [
        | inl yes_ack ↦
            rw yes_ack
              (acknowledged_advances u f o k e x c lt s ch rest t reach ok.not_ahead (ground arith))
        | inr no_ack ↦ rw no_ack (
            repeat_advances o k (receive (some x) c) lt ph s (inr (ok.zero_seq, ok.only_ack)) ch
              rest a t)
      ]

  -- The teardown.
  abbrev IsClosing : Phase → Type 0
  IsClosing ph = (ph ≡ Client.fin_sent) ⊎ (ph ≡ Client.ack_seen) ⊎ (ph ≡ Client.closed)

  ended :
      (k : ℕ) (out : Sends)
      → k ≡ length u.file
      → IsClosing out.0.phase
      → out.0.seq ≡ origin u + length u.file
      → All (IsSent u (at_end u)) out.1
      → IsAdvanced u (at_end u) k out
  ended k out same ph s sends = record {
    to = at_end u;
    is = closing ph s refl;
    acked = omega arith;
    top = omega arith;
    grows = Grows-refl (at_end u);
    sends = sends;
  }

  seq-receive : (r : Option Header) (c : Client) → (receive r c).seq ≡ c.seq
  seq-receive none c = refl
  seq-receive (some h) c = refl

  closing_advances :
      (k : ℕ) (r : Option Header) (c : Client) (ph : Phase)
      → IsClosing ph
      → c.phase ≡ ph
      → c.seq ≡ origin u + length u.file
      → k ≡ length u.file
      → IsAdvanced u (at_end u) k (Client.step_in ph r c)
  unfolding Client.step_in Client.last_ack
  closing_advances k r c Client.naming h e s same = absurd (ground arith)
  closing_advances k r c Client.sending h e s same = absurd (ground arith)
  closing_advances k r c Client.fin_sent h e s same =
      ended k _ same (inr (inl refl)) (seq-receive r c ∙ s) tt
  closing_advances k r c Client.ack_seen h e s same =
      ended k _ same (inr (inr refl)) (seq-receive r c ∙ s)
        (last_ack (rw (seq-receive r c, s) (omega (arith, f.room))) refl, tt)
  closing_advances k r c Client.closed h e s same = ended k _ same (inr (inr e)) s tt

  phase_advances :
      (k e : ℕ) (r : Option Header) (c : Client) (b : Bounds) (ph : Phase)
      → c.phase ≡ ph
      → ClientIs u c b
      → b.acked ≤ k
      → k ≤ b.top
      → e ≤ origin u + k
      → (b.closing ≡ false → IsReply e r)
      → IsAdvanced u b k (Client.step_in ph r c)
  phase_advances k e r c b ph at (naming p s n rest eq) a t reach ok =
      rw (sym at ∙ p) (naming_advances u f b k r c eq s n rest t)
  phase_advances k e r c b ph at (sending o lt p s h ch rest eq) a t reach ok =
      let top : b.top ≡ o + length (chunk_at u o) = ap (λ (x : Bounds). x.top) eq in
      let acked : b.acked ≡ o = ap (λ (x : Bounds). x.acked) eq in
      rw (sym at ∙ p) (
        subst (λ x. IsAdvanced u x k (Client.step_in Client.sending r c)) (sym eq)
          (sending_advances o k e r c lt p s h ch rest (omega arith) (omega arith) reach
            (ok (ap (λ (x : Bounds). x.closing) eq))))
  phase_advances k e r c b ph at (closing p s eq) a t reach ok =
      let top : b.top ≡ length u.file = ap (λ (x : Bounds). x.top) eq in
      let acked : b.acked ≡ length u.file = ap (λ (x : Bounds). x.acked) eq in
      subst (λ x. IsAdvanced u x k (Client.step_in ph r c)) (sym eq)
        (closing_advances k r c ph (subst IsClosing at p) at s (omega arith))

  -- Whatever recvfrom returns, the client stays in step with the server.
  pub client_moves :
      (k e : ℕ) (r : Option Header) (c : Client) (b : Bounds)
      → ClientIs u c b
      → b.acked ≤ k
      → k ≤ b.top
      → e ≤ origin u + k
      → (b.closing ≡ false → IsReply e r)
      → IsAdvanced u b k (Client.step r c)
  unfolding Client.step
  client_moves k e r c b is a t reach ok = phase_advances k e r c b c.phase refl is a t reach ok
