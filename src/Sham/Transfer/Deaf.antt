-- ===== src/Sham/Transfer/Deaf.antt =====
-- A server that expects a number which no packet under way carries, and a client that waits for an
-- ACK which the server does not send.
use mathlib.Core.Path.{subst}
use c_shell_and_networking.Base.{
  sym, ℕ, ◌≤◌, ◌≡◌, refl, ap, ◌∙◌, Bool, true, false, ◌&&◌, [], ◌∷◌, ◌++◌, length, All, All-append,
  All-erase_at, Option, some, none, arith, ◌==◌, if◌then◌else◌, ◌⊎◌, inl, inr,
}
use c_shell_and_networking.Base.Bytes.{Bytes}
use c_shell_and_networking.Sham.Wire.{Header, Packet, header, add32, has_flag, fin_flag, name_flag}
use c_shell_and_networking.Sham.Client
use c_shell_and_networking.Sham.Client.{Client, receive, packet_of, acknowledges}
use c_shell_and_networking.Sham.Server
use c_shell_and_networking.Sham.Server.{Server}
use c_shell_and_networking.Sham.Transfer.{
  System, Step, hear_ack, time_out, hear_packet, lose_ack, lose_packet, Reach, here, next,
  client_turn, server_turn,
}
use c_shell_and_networking.Sham.Transfer.Upload.{All-get}

-- A header under which the server takes nothing while it expects e.
pub record IsForeign (e : ℕ) (h : Header) : Type 0 where
  pub other : (h.seq_num == e) ≡ false
  pub no_fin : has_flag h fin_flag ≡ false
  pub no_name : has_flag h name_flag ≡ false

-- An ACK that repeats e.
pub record IsRepeat (e : ℕ) (h : Header) : Type 0 where
  pub zero_seq : h.seq_num ≡ 0
  pub only_ack : h.flags ≡ 2
  pub repeats : h.ack_num ≡ e

-- The server expects e and has written w; the client is at the number q with the chunk b, sends it
-- under a header of P, and waits for another ACK than e.
pub record IsDeaf (P : Header → Type 0) (e q : ℕ) (w b : Bytes) (s : System) : Type 0 where
  pub sending : s.client.phase ≡ Client.sending
  pub hearing : (s.server.phase ≡ Server.first) ⊎ (s.server.phase ≡ Server.receiving)
  pub expects : s.server.expected_seq ≡ e
  pub written : s.server.written ≡ w
  pub awaits : (e == add32 s.client.seq (length s.client.chunk)) ≡ false
  pub seq_kept : s.client.seq ≡ q
  pub chunk_kept : s.client.chunk ≡ b
  pub register : P s.client.packet_header
  pub packets : All (λ (p : Packet). P p.header) s.to_server
  pub acks : All (IsRepeat e) s.to_client

module _ (e : ℕ) (positive : 1 ≤ e) where
  pub IsRepeat-IsForeign : (h : Header) → IsRepeat e h → IsForeign e h
  IsRepeat-IsForeign h r =
      let other : (h.seq_num == e) ≡ false = ground (arith, r.zero_seq, positive) in
      record { other = other; no_fin = rw r.only_ack refl; no_name = rw r.only_ack refl }

  on_packet_foreign :
      (dropped : Bool) (p : Packet) (s : Server)
      → s.expected_seq ≡ e
      → IsForeign e p.header
      → Server.on_packet dropped p s ≡ (if dropped then (s, []) else (s, header 0 e 2 ∷ []))
  unfolding Server.on_packet
  on_packet_foreign dropped p s at f =
      let other : (p.header.seq_num == s.expected_seq) ≡ false = rw at f.other in
      rw (f.no_fin, other, at) refl

  -- What the server makes of it: nothing, or an ACK that repeats e.
  record IsUnmoved (s : Server) (out : Server.Sends) : Type 0 where
    hearing : (out.0.phase ≡ Server.first) ⊎ (out.0.phase ≡ Server.receiving)
    expects : out.0.expected_seq ≡ s.expected_seq
    written : out.0.written ≡ s.written
    acks : All (IsRepeat e) out.1

  receiving-IsUnmoved :
      (dropped : Bool) (s : Server)
      → s.phase ≡ Server.receiving
      → IsUnmoved s (if dropped then (s, []) else (s, header 0 e 2 ∷ []))
  receiving-IsUnmoved true s ph = record {
    hearing = inr ph;
    expects = refl;
    written = refl;
    acks = tt;
  }
  receiving-IsUnmoved false s ph = record {
    hearing = inr ph;
    expects = refl;
    written = refl;
    acks = (record { zero_seq = refl; only_ack = refl; repeats = refl }, tt);
  }

  server_step-IsUnmoved :
      (dropped : Bool) (p : Packet) (s : Server)
      → (s.phase ≡ Server.first) ⊎ (s.phase ≡ Server.receiving)
      → s.expected_seq ≡ e
      → IsForeign e p.header
      → IsUnmoved s (Server.step dropped p s)
  unfolding Server.step Server.step_in Server.on_first
  server_step-IsUnmoved dropped p s (inl ph) at f =
      rw (ph, Server.step, Server.step_in, f.no_name)
        record { hearing = inr refl; expects = refl; written = refl; acks = tt }
  server_step-IsUnmoved dropped p s (inr ph) at f =
      let answer : Server.step dropped p s ≡ (if dropped then (s, []) else (s, header 0 e 2 ∷ [])) =
        ap (λ x. Server.step_in x dropped p s) ph ∙ on_packet_foreign dropped p s at f in
      subst (IsUnmoved s) (sym answer) (receiving-IsUnmoved dropped s ph)

module _ (P : Header → Type 0) (e : ℕ) (positive : 1 ≤ e)
    (foreign : (h : Header) → P h → IsForeign e h) (repeated : (h : Header) → IsRepeat e h → P h)
    (q : ℕ) (w b : Bytes) where
  server_turn-IsDeaf :
      (dropped : Bool) (p : Packet) (s : System)
      → IsDeaf P e q w b s
      → P p.header
      → IsDeaf P e q w b (server_turn dropped p s)
  unfolding server_turn
  server_turn-IsDeaf dropped p s d f =
      let u =
        server_step-IsUnmoved e positive dropped p s.server d.hearing d.expects
          (foreign p.header f) in
      record {
        sending = d.sending;
        hearing = u.hearing;
        expects = u.expects ∙ d.expects;
        written = u.written ∙ d.written;
        awaits = d.awaits;
        seq_kept = d.seq_kept;
        chunk_kept = d.chunk_kept;
        register = d.register;
        packets = d.packets;
        acks = All-append _ s.to_client _ d.acks u.acks;
      }

  -- A repeated ACK, or a timeout, leads to another retransmission.
  and_false : (b : Bool) → (b && false) ≡ false
  and_false true = refl
  and_false false = refl

  not_acknowledged :
      (r : Option Header) (c : Client)
      → (e == add32 c.seq (length c.chunk)) ≡ false
      → ((h : Header) → r ≡ some h → IsRepeat e h)
      → acknowledges r c ≡ false
  not_acknowledged none c a ok = refl
  not_acknowledged (some h) c a ok =
      let ne : (h.ack_num == add32 c.seq (length c.chunk)) ≡ false = rw (ok h refl).repeats a in
      rw ne (and_false (has_flag h 2))

  client_step_stuck :
      (r : Option Header) (c : Client)
      → c.phase ≡ Client.sending
      → acknowledges r c ≡ false
      → Client.step r c ≡ (receive r c, packet_of (receive r c) ∷ [])
  unfolding Client.step Client.step_in Client.on_ack
  client_step_stuck r c ph a =
      ap (λ x. Client.step_in x r c) ph ∙ ap (λ b. Client.on_ack b (receive r c)) a

  resent-IsDeaf :
      (c : Client) (s : System)
      → IsDeaf P e q w b s
      → c.phase ≡ Client.sending
      → (e == add32 c.seq (length c.chunk)) ≡ false
      → c.seq ≡ q
      → c.chunk ≡ b
      → P c.packet_header
      → IsDeaf P e q w b (record s { client = c; to_server = s.to_server ++ packet_of c ∷ [] })
  resent-IsDeaf c s d ph a at same f = record {
    sending = ph;
    hearing = d.hearing;
    expects = d.expects;
    written = d.written;
    awaits = a;
    seq_kept = at;
    chunk_kept = same;
    register = f;
    packets = All-append _ s.to_server _ d.packets (f, tt);
    acks = d.acks;
  }

  register_after :
      (r : Option Header) (s : System)
      → IsDeaf P e q w b s
      → ((h : Header) → r ≡ some h → IsRepeat e h)
      → IsDeaf P e q w b (record s {
        client = receive r s.client;
        to_server = s.to_server ++ packet_of (receive r s.client) ∷ [];
      })
  register_after none s d ok =
      resent-IsDeaf s.client s d d.sending d.awaits d.seq_kept d.chunk_kept d.register
  register_after (some h) s d ok =
      resent-IsDeaf (receive (some h) s.client) s d d.sending d.awaits d.seq_kept d.chunk_kept
        (repeated h (ok h refl))

  client_turn-IsDeaf :
      (r : Option Header) (s : System)
      → IsDeaf P e q w b s
      → ((h : Header) → r ≡ some h → IsRepeat e h)
      → IsDeaf P e q w b (client_turn r s)
  unfolding client_turn
  client_turn-IsDeaf r s d ok =
      rw (client_step_stuck r s.client d.sending (not_acknowledged r s.client d.awaits ok))
        (register_after r s d ok)

  pub Step-IsDeaf : {s t : System} → Step s t → IsDeaf P e q w b s → IsDeaf P e q w b t
  Step-IsDeaf {s} (hear_ack j h at) d =
      client_turn-IsDeaf (some h) s d λ x q. All-get (IsRepeat e) s.to_client j x d.acks (at ∙ q)
  Step-IsDeaf {s} time_out d = client_turn-IsDeaf none s d λ x q. absurd (cc)
  Step-IsDeaf {s} (hear_packet j p dropped at) d =
      server_turn-IsDeaf dropped p s d
        (All-get (λ (p : Packet). P p.header) s.to_server j p d.packets at)
  Step-IsDeaf {s} (lose_ack j) d = record {
    sending = d.sending;
    hearing = d.hearing;
    expects = d.expects;
    written = d.written;
    awaits = d.awaits;
    seq_kept = d.seq_kept;
    chunk_kept = d.chunk_kept;
    register = d.register;
    packets = d.packets;
    acks = All-erase_at (IsRepeat e) j s.to_client d.acks;
  }
  Step-IsDeaf {s} (lose_packet j) d = record {
    sending = d.sending;
    hearing = d.hearing;
    expects = d.expects;
    written = d.written;
    awaits = d.awaits;
    seq_kept = d.seq_kept;
    chunk_kept = d.chunk_kept;
    register = d.register;
    packets = All-erase_at (λ (p : Packet). P p.header) j s.to_server d.packets;
    acks = d.acks;
  }

  pub Reach-IsDeaf : {s t : System} → Reach s t → IsDeaf P e q w b s → IsDeaf P e q w b t
  Reach-IsDeaf here d = d
  Reach-IsDeaf (next r st) d = Step-IsDeaf st (Reach-IsDeaf r d)
