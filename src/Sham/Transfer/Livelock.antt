-- ===== src/Sham/Transfer/Livelock.antt =====
-- The transfers of networking/client.c and networking/server.c that never end. A retransmission
-- after a wrong ACK: recvfrom has written the ACK's header into the packet, so the chunk goes out
-- again under the number 0. A filename packet that is lost: it is not sent again.
use c_shell_and_networking.Base.{
  ap, take, ◌-◌, ℕ, ◌+◌, ◌^◌, ◌≤◌, ◌<◌, ◌≡◌, ◌∙◌, refl, [], length, All, ◌⊎◌, inl, inr, ◌==◌, false,
  arith,
}
use c_shell_and_networking.Sham.Wire.{Header, Packet, add32}
use c_shell_and_networking.Sham.Client
use c_shell_and_networking.Sham.Client.{packet_of}
use c_shell_and_networking.Sham.Server
use c_shell_and_networking.Sham.Transfer.{System, Reach}
use c_shell_and_networking.Sham.Transfer.Upload.{Upload, Fits}
use c_shell_and_networking.Sham.Transfer.Safety.{All-map}
use c_shell_and_networking.Sham.Transfer.Deaf.{IsForeign, IsRepeat, IsDeaf, Reach-IsDeaf}
use c_shell_and_networking.Sham.Transfer.Nameless.{nameless, Reach-IsNameless}

-- A header that recvfrom can have left in the register: that of an ACK.
pub record IsGarbled (h : Header) : Type 0 where
  pub zero_seq : h.seq_num ≡ 0
  pub only_ack : h.flags ≡ 2

-- The client retransmits a chunk under an ACK's header, the server still expects the chunk, and
-- its first transmission is lost.
pub record IsStuck (s : System) : Type 0 where
  pub sending : s.client.phase ≡ Client.sending
  pub receiving : s.server.phase ≡ Server.receiving
  pub expects : s.server.expected_seq ≡ s.client.seq
  pub positive : 1 ≤ s.client.seq
  pub small : s.client.seq < 2 ^ 32
  pub nonempty : 1 ≤ length s.client.chunk
  pub short : length s.client.chunk ≤ 1024
  pub register : IsGarbled s.client.packet_header
  pub packets : All (λ (p : Packet). IsGarbled p.header) s.to_server
  pub acks : All (IsRepeat s.client.seq) s.to_client

IsRepeat-IsGarbled : (e : ℕ) (h : Header) → IsRepeat e h → IsGarbled h
IsRepeat-IsGarbled e h r = record { zero_seq = r.zero_seq; only_ack = r.only_ack }

IsGarbled-IsForeign : (e : ℕ) (h : Header) → 1 ≤ e → IsGarbled h → IsForeign e h
IsGarbled-IsForeign e h positive g =
    let other : (h.seq_num == e) ≡ false = ground (arith, g.zero_seq, positive) in
    record { other = other; no_fin = rw g.only_ack refl; no_name = rw g.only_ack refl }

IsStuck-IsDeaf :
    (s : System)
    → IsStuck s
    → IsDeaf IsGarbled s.client.seq s.client.seq s.server.written s.client.chunk s
IsStuck-IsDeaf s i =
    let awaits : (s.client.seq == add32 s.client.seq (length s.client.chunk)) ≡ false =
      ground (arith, i.small, i.nonempty, i.short) in
    record {
      sending = i.sending;
      hearing = inr i.receiving;
      expects = i.expects;
      written = refl;
      awaits = awaits;
      seq_kept = refl;
      chunk_kept = refl;
      register = i.register;
      packets = i.packets;
      acks = i.acks;
    }

-- The client is still at its chunk, whose next retransmission carries the number 0 like everything
-- that is under way, and the server has written nothing more.
pub record IsResending (s t : System) : Type 0 where
  pub sending : t.client.phase ≡ Client.sending
  pub seq : t.client.seq ≡ s.client.seq
  pub chunk : (packet_of t.client).payload ≡ s.client.chunk
  pub number : (packet_of t.client).header.seq_num ≡ 0
  pub packets : All (λ (p : Packet). p.header.seq_num ≡ 0) t.to_server
  pub acks : All (λ (h : Header). h.ack_num ≡ s.client.seq) t.to_client
  pub expects : t.server.expected_seq ≡ s.client.seq
  pub written : t.server.written ≡ s.server.written

-- If the client waits for the ACK of a chunk of 1 to 1024 bytes, whose number is above 0 and below
-- 2^32, with an ACK's header in its register, while the server in its loop still expects that chunk
-- and only packets under an ACK's header and ACKs that repeat the chunk's number are under way, then
-- the transfer never goes on, whatever the network does: the client keeps to the same chunk, every
-- retransmission carries the number 0, every ACK repeats the chunk's number, and the server writes
-- nothing more.
pub garbled_livelock : {s t : System} → IsStuck s → Reach s t → IsResending s t
garbled_livelock {s} {t} i r =
    let e = s.client.seq in
    let d =
      Reach-IsDeaf IsGarbled e i.positive (λ h. IsGarbled-IsForeign e h i.positive)
        (IsRepeat-IsGarbled e) e s.server.written s.client.chunk r (IsStuck-IsDeaf s i) in
    record {
      sending = d.sending;
      seq = d.seq_kept;
      chunk = d.chunk_kept;
      number = d.register.zero_seq;
      packets = All-map t.to_server (λ (p : Packet) g. g.zero_seq) d.packets;
      acks = All-map t.to_client (λ (h : Header) g. g.repeats) d.acks;
      expects = d.expects;
      written = d.written;
    }

-- The client waits for the ACK of its first chunk, of at most 1024 bytes and under the number after
-- the name's bytes; the ACKs that are under way carry the number of the filename packet, which is
-- not the one that it waits for.
pub record IsAtFirstChunk (u : Upload) (t : System) : Type 0 where
  pub sending : t.client.phase ≡ Client.sending
  pub seq : t.client.seq ≡ add32 u.base (length u.name + 1)
  pub chunk : t.client.chunk ≡ take 1024 u.file
  pub awaits : (u.base == add32 t.client.seq (length t.client.chunk)) ≡ false
  pub acks : All (λ (h : Header). h.ack_num ≡ u.base) t.to_client

-- The file is not empty, and the numbers begin above 0 and do not wrap. If the filename packet is lost after the
-- handshake, or taken for the handshake's last ACK where that is lost, so that nothing is under way,
-- then the transfer never ends, whatever the network does: the client still waits for the filename's
-- ACK with nothing under way, or it waits for the ACK of its first chunk while every ACK under way
-- carries the number of the filename packet; the server still expects that number and has written
-- nothing.
pub name_lost_livelock :
    (u : Upload) (n : ℕ) {t : System}
    → Fits u
    → 1 ≤ length u.file
    → Reach (nameless u n) t
    → (((t.client.phase ≡ Client.naming) × (t.to_server ≡ []) × (t.to_client ≡ []))
        ⊎ IsAtFirstChunk u t)
      × (t.server.expected_seq ≡ u.base)
      × (t.server.written ≡ [])
name_lost_livelock u n {t} f some_byte r = elim (Reach-IsNameless u n f some_byte r) [
  | inl e ↦
      let wraps : add32 (u.base - 1) 1 ≡ u.base = omega (arith, f.room, f.positive) in
      (
        inl (
          ap (λ (x : System). x.client.phase) e,
          ap (λ (x : System). x.to_server) e,
          ap (λ (x : System). x.to_client) e,
        ),
        ap (λ (x : System). x.server.expected_seq) e ∙ wraps,
        ap (λ (x : System). x.server.written) e,
      )
  | inr d ↦ (
    inr record {
      sending = d.sending;
      seq = d.seq_kept;
      chunk = d.chunk_kept;
      awaits = d.awaits;
      acks = All-map t.to_client (λ (h : Header) g. g.repeats) d.acks;
    },
    d.expects,
    d.written,
  )
]
