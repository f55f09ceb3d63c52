-- ===== src/Sham/Transfer/Level.antt =====
-- What the server expects while the client waits for the ACK of a chunk: that chunk, or what comes
-- after it.
pub mod Steps
use Prim.Native.Nat.{bit_and}
use mathlib.Core.Path.{subst}
use c_shell_and_networking.Base.{
  ℕ, zero, suc, ◌+◌, ◌-◌, ◌^◌, ◌%◌, ◌≤◌, ◌<◌, ◌≡◌, refl, ap, sym, ◌∙◌, ◌⊎◌, inl, inr, Bool, true,
  false, not, ◌&&◌, List, [], ◌∷◌, ◌++◌, length, take, drop, All, Option, some, none, arith, ◌==◌,
  if◌then◌else◌, Bool-cases,
}
use c_shell_and_networking.Base.Bytes.{Bytes}
use c_shell_and_networking.Sham.Wire.{Header, Packet, header, has_flag, add32}
use c_shell_and_networking.Sham.Client
use c_shell_and_networking.Sham.Client.{Client, acknowledges, receive}
use c_shell_and_networking.Sham.Server
use c_shell_and_networking.Sham.Server.{Server}
use c_shell_and_networking.Sham.Transfer.{
  System, Step, hear_ack, time_out, hear_packet, lose_ack, lose_packet, Reach, here, next,
  client_turn, server_turn,
}
use c_shell_and_networking.Sham.Transfer.Upload.{
  Upload, name_bytes, origin, Fits, chunk_at, Bounds, IsSent, filename, chunk, garbled, fin,
  last_ack, ServerIs, before, missed, getting, IsAck, ClientIs, naming, sending, closing, All-get,
  is_done, name_bytes-pos, length-chunk_at,
}
use c_shell_and_networking.Sham.Transfer.Safety.{Consistent, Reach-Consistent, initial}
use c_shell_and_networking.Sham.Transfer.Named.{
  named, IsCounted, Reach-IsCounted, append-Reach, named-Reach,
}

-- The number after the one that the client's chunk has.
abbrev pub after_chunk : Client → ℕ
after_chunk c = c.seq + length c.chunk

-- Where the server can stand, by the client's phase.
pub record IsLevel (u : Upload) (c : Client) (expected : ℕ) : Type 0 where
  pub at_origin : c.phase ≡ Client.naming → expected ≡ origin u
  pub at_chunk : c.phase ≡ Client.sending → (expected ≡ c.seq) ⊎ (expected ≡ after_chunk c)

-- A packet of a client that has not sent FIN has no FIN flag.
no_fin :
    (u : Upload) (b : Bounds) (p : Packet)
    → b.closing ≡ false
    → IsSent u b p
    → has_flag p.header 4 ≡ false
no_fin u b p live (filename e) = rw e refl
no_fin u b p live (chunk o lt below e) = rw e refl
no_fin u b p live (garbled z fl) = ap (λ n. not (bit_and n 4 == 0)) fl
no_fin u b p live (fin c fl) = absurd (cc)
no_fin u b p live (last_ack s fl) = ap (λ n. not (bit_and n 4 == 0)) fl

-- The number that a packet takes the server to.
abbrev advanced : ℕ → Packet → ℕ
advanced expected p =
    if p.header.seq_num == expected then add32 expected (length p.payload) else expected

module _ (u : Upload) (f : Fits u) where
  -- A packet that the server takes as the next one is the chunk at the client's offset.
  advanced-level :
      (b : Bounds) (o k : ℕ) (p : Packet)
      → b.closing ≡ false
      → b.bound ≤ suc o
      → o ≤ k
      → k ≤ length u.file
      → IsSent u b p
      → (advanced (origin u + k) p ≡ origin u + k)
        ⊎ ((o < b.bound)
            × (k ≡ o)
            × (advanced (origin u + k) p ≡ origin u + (o + length (chunk_at u o))))
  advanced-level b o k p live bound ge in_file sent =
      elim (Bool-cases (p.header.seq_num == origin u + k)) [
        | inr e ↦ inl (rw e refl)
        | inl e ↦ taken sent (ground (arith, e))
      ]
    where
      taken :
          IsSent u b p
          → p.header.seq_num ≡ origin u + k
          → (advanced (origin u + k) p ≡ origin u + k)
            ⊎ ((o < b.bound)
                × (k ≡ o)
                × (advanced (origin u + k) p ≡ origin u + (o + length (chunk_at u o))))
      taken (filename q) e =
          absurd (omega (arith, ap (λ (x : Packet). x.header.seq_num) q, e, name_bytes-pos u))
      taken (chunk i lt below q) e =
          let ik : i ≡ k = omega (arith, ap (λ (x : Packet). x.header.seq_num) q, e) in
          let ko : k ≡ o = omega (arith, ik, below, bound, ge) in
          let test : (p.header.seq_num == origin u + k) ≡ true = ground (arith, e) in
          let payload : length p.payload ≡ length (chunk_at u o) =
            ap (λ (x : Packet). length x.payload) q ∙ ap (λ n. length (chunk_at u n)) (ik ∙ ko) in
          inr (
            omega (arith, ik, ko, below),
            ko,
            rw test (omega (arith, ko, payload, f.room, length-chunk_at u o, lt, ik)),
          )
      taken (garbled z fl) e = absurd (omega (arith, z, e, f.positive))
      taken (fin c fl) e = absurd (cc)
      taken (last_ack s fl) e = absurd (omega (arith, s, e, in_file))

on_packet-advanced :
    (dropped : Bool) (p : Packet) (s : Server)
    → has_flag p.header 4 ≡ false
    → ((Server.on_packet dropped p s).0.expected_seq ≡ s.expected_seq)
      ⊎ ((Server.on_packet dropped p s).0.expected_seq ≡ advanced s.expected_seq p)
unfolding Server.on_packet Server.on_data
on_packet-advanced true p s e = inl (rw (e, Server.on_packet) refl)
on_packet-advanced false p s e = elim (Bool-cases (p.header.seq_num == s.expected_seq)) [
  | inl q ↦ inr (rw (e, Server.on_packet, Server.on_data, q) refl)
  | inr q ↦ inl (rw (e, Server.on_packet, Server.on_data, q) refl)
]

-- The server in its loop, after a packet without a FIN flag.
server_step-advanced :
    (dropped : Bool) (p : Packet) (s : Server)
    → s.phase ≡ Server.receiving
    → has_flag p.header 4 ≡ false
    → ((Server.step dropped p s).0.expected_seq ≡ s.expected_seq)
      ⊎ ((Server.step dropped p s).0.expected_seq ≡ advanced s.expected_seq p)
unfolding Server.step Server.step_in
server_step-advanced dropped p s ph e =
    subst
      (λ x.
        ((Server.step_in x dropped p s).0.expected_seq ≡ s.expected_seq)
        ⊎ ((Server.step_in x dropped p s).0.expected_seq ≡ advanced s.expected_seq p))
      (sym ph) (on_packet-advanced dropped p s e)

-- A server that is neither before its first packet nor at its end is in its loop.
receiving_of :
    (ph : Server.Phase) → (ph ≡ Server.first → ⊥) → (is_done ph ≡ true → ⊥) → ph ≡ Server.receiving
receiving_of Server.first h d = absurd (h refl)
receiving_of Server.receiving h d = refl
receiving_of Server.teardown h d = absurd (d refl)
receiving_of Server.closed h d = absurd (d refl)

module _ (u : Upload) (f : Fits u) (s : System) (c : Consistent u s) (counted : IsCounted u s) where
  begun : s.server.phase ≡ Server.first → ⊥
  begun h = first_not c.k c.server h
    where
      first_not : (k : ℕ) → ServerIs u s.server k → s.server.phase ≡ Server.first → ⊥
      first_not k (before x e w z) q = omega (arith, counted, e, name_bytes-pos u)
      first_not k (missed x e w z) q = x q
      first_not k (getting pre is x e w i) q = x q

  pub server_receives : c.bounds.closing ≡ false → s.server.phase ≡ Server.receiving
  server_receives live = receiving_of s.server.phase begun λ d. not_both (c.done d) live
    where
      not_both : c.bounds.closing ≡ true → c.bounds.closing ≡ false → ⊥
      not_both a b = absurd (cc)

  -- A packet at the server of a client at the offset o.
  pub level_after :
      (o k : ℕ) (dropped : Bool) (p : Packet)
      → c.bounds.closing ≡ false
      → c.bounds.bound ≤ suc o
      → o ≤ k
      → k ≤ length u.file
      → s.server.expected_seq ≡ origin u + k
      → IsSent u c.bounds p
      → ((Server.step dropped p s.server).0.expected_seq ≡ s.server.expected_seq)
        ⊎ ((o < c.bounds.bound)
            × ((Server.step dropped p s.server).0.expected_seq
                ≡ origin u + (o + length (chunk_at u o))))
  level_after o k dropped p live bound ge in_file at sent =
      elim (server_step-advanced dropped p s.server (server_receives live)
        (no_fin u c.bounds p live sent)) [
          | inl e ↦ inl e
          | inr e ↦ elim (advanced-level u f c.bounds o k p live bound ge in_file sent) [
            | inl q ↦ inl (e ∙ ap (λ n. advanced n p) at ∙ q ∙ sym at)
            | inr q ↦ inr (q.0, e ∙ ap (λ n. advanced n p) at ∙ q.2)
          ]
        ]
