-- ===== src/Sham/Transfer/Safety.antt =====
-- The invariant of the two programs and the network between them.
use c_shell_and_networking.Base.{
  ℕ, ◌+◌, ◌-◌, ◌≤◌, ◌≡◌, refl, ◌⊎◌, inl, inr, Bool, true, false, List, [], ◌∷◌, length,
  length-append, All, All-append, All-erase_at, Option, some, none, arith,
}
use c_shell_and_networking.Sham.Wire.{Header, Packet, header}
use c_shell_and_networking.Sham.Client
use c_shell_and_networking.Sham.Client.{Client}
use c_shell_and_networking.Sham.Server
use c_shell_and_networking.Sham.Server.{Server}
use c_shell_and_networking.Sham.Transfer.{
  System, hear_ack, time_out, hear_packet, lose_ack, lose_packet, Reach, here, next, client_turn,
  server_turn,
}
use c_shell_and_networking.Sham.Transfer.Upload.{
  Upload, name_bytes, origin, Fits, Bounds, IsSent, filename, IsAck, is_done, ClientIs, naming,
  ServerIs, before, missed, getting, All-get, ClientIs-IsLinked,
}
use c_shell_and_networking.Sham.Transfer.ServerSide.{server_moves}
use c_shell_and_networking.Sham.Transfer.ClientSide.{client_moves}
use c_shell_and_networking.Sham.Transfer.ClientSide.Chunk.{IsSent-grows, IsReply}

-- Both programs after the handshake; the client's first sequence number was base - 1.
abbrev pub initial : Upload → ℕ → System
initial u server_seq = record {
  client = record {
    phase = Client.naming;
    seq = u.base;
    filename_len = length u.name + 1;
    packet_header = header u.base 0 8;
    chunk = name_bytes u;
    rest = u.file;
  };
  server = Server.start (u.base - 1) server_seq;
  to_server = record { header = header u.base 0 8; payload = name_bytes u } ∷ [];
  to_client = [];
}

-- The invariant of the two programs and the network.
pub record Consistent (u : Upload) (s : System) : Type 0 where
  pub bounds : Bounds
  pub k : ℕ
  pub client : ClientIs u s.client bounds
  pub server : ServerIs u s.server k
  pub acked : bounds.acked ≤ k
  pub top : k ≤ bounds.top
  pub packets : All (IsSent u bounds) s.to_server
  pub acks : bounds.closing ≡ false → All (IsAck s.server.expected_seq) s.to_client
  pub done : is_done s.server.phase ≡ true → bounds.closing ≡ true

pub All-map {ℓ κ} :
    {A : Type ℓ} {P Q : A → Type κ} (xs : List A) → ((x : A) → P x → Q x) → All P xs → All Q xs
All-map [] f a = tt
All-map (x ∷ xs) f a = (f x a.0, All-map xs f a.1)

reach_of_server : (u : Upload) (s : Server) (k : ℕ) → ServerIs u s k → s.expected_seq ≤ origin u + k
reach_of_server u s k (before h e w z) = omega arith
reach_of_server u s k (missed h e w z) = omega arith
reach_of_server u s k (getting prefix pre h e w i) = omega arith

IsAck-grows : {e e' : ℕ} (h : Header) → e ≤ e' → IsAck e h → IsAck e' h
IsAck-grows h g a = record {
  zero_seq = a.zero_seq;
  only_ack = a.only_ack;
  not_ahead = omega (arith, a.not_ahead);
}

was_open : (b b' : Bool) → (b ≡ true → b' ≡ true) → b' ≡ false → b ≡ false
was_open b b' g h = ground arith

not_done : (b d : Bool) → b ≡ false → (d ≡ true → b ≡ true) → d ≡ false
not_done b d h g = ground arith

module _ (u : Upload) (f : Fits u) where
  initial-Consistent : (n : ℕ) → Consistent u (initial u n)
  initial-Consistent n = record {
    bounds = record { acked = 0; top = 0; bound = 0; closing = false };
    k = 0;
    client = naming refl refl (omega (arith, length-append u.name (0 ∷ []))) refl refl;
    server = before refl (omega (arith, f.positive, f.room)) refl refl;
    acked = omega arith;
    top = omega arith;
    packets = (filename refl, tt);
    acks = λ h. tt;
    done = λ h. absurd (cc);
  }

  client_turn-Consistent :
      (r : Option Header) (s : System) (c : Consistent u s)
      → (c.bounds.closing ≡ false → IsReply s.server.expected_seq r)
      → Consistent u (client_turn r s)
  unfolding client_turn
  client_turn-Consistent r s c ok =
      let m =
        client_moves u f c.k s.server.expected_seq r s.client c.bounds c.client c.acked c.top
          (reach_of_server u s.server c.k c.server) ok in
      record {
        bounds = m.to;
        k = c.k;
        client = m.is;
        server = c.server;
        acked = m.acked;
        top = m.top;
        packets =
            All-append (IsSent u m.to) s.to_server (Client.step r s.client).1
              (All-map s.to_server (λ p. IsSent-grows u c.bounds m.to p m.grows) c.packets) m.sends;
        acks = λ h. c.acks (was_open c.bounds.closing m.to.closing m.grows.closing h);
        done = λ h. m.grows.closing (c.done h);
      }

  server_turn-Consistent :
      (dropped : Bool) (p : Packet) (s : System) (c : Consistent u s)
      → IsSent u c.bounds p
      → Consistent u (server_turn dropped p s)
  unfolding server_turn
  server_turn-Consistent dropped p s c sent =
      let m =
        server_moves u c.bounds f (ClientIs-IsLinked u s.client c.bounds c.client) dropped s.server
          p c.k c.acked c.top c.server sent in
      record {
        bounds = c.bounds;
        k = m.k;
        client = c.client;
        server = m.is;
        acked = m.acked;
        top = m.top;
        packets = c.packets;
        acks = λ h.
            All-append (IsAck (Server.step dropped p s.server).0.expected_seq) s.to_client
              (Server.step dropped p s.server).1
              (All-map s.to_client (λ x a. IsAck-grows x m.grows a) (c.acks h))
              (m.acks
                (not_done c.bounds.closing _ h (finished (is_done s.server.phase) c.done m.done)));
        done = finished (is_done s.server.phase) c.done m.done;
      }
    where
      finished :
          {d : Bool} (old : Bool)
          → (old ≡ true → c.bounds.closing ≡ true)
          → (d ≡ true → (old ≡ true) ⊎ (c.bounds.closing ≡ true))
          → d ≡ true
          → c.bounds.closing ≡ true
      finished old keep new h = either (new h)
        where
          either : (old ≡ true) ⊎ (c.bounds.closing ≡ true) → c.bounds.closing ≡ true
          either (inl x) = keep x
          either (inr x) = x

  -- Every reachable state is consistent.
  pub Reach-Consistent : (n : ℕ) {s : System} → Reach (initial u n) s → Consistent u s
  Reach-Consistent n here = initial-Consistent n
  Reach-Consistent n (next r (hear_ack i h at)) =
      let c = Reach-Consistent n r in
      client_turn-Consistent (some h) _ c λ o. All-get (IsAck _) _ i h (c.acks o) at
  Reach-Consistent n (next r time_out) =
      client_turn-Consistent none _ (Reach-Consistent n r) λ o. tt
  Reach-Consistent n (next r (hear_packet i p dropped at)) =
      let c = Reach-Consistent n r in
      server_turn-Consistent dropped p _ c (All-get (IsSent u c.bounds) _ i p c.packets at)
  Reach-Consistent n {s} (next r (lose_ack i)) =
      let c = Reach-Consistent n r in
      record {
        bounds = c.bounds;
        k = c.k;
        client = c.client;
        server = c.server;
        acked = c.acked;
        top = c.top;
        packets = c.packets;
        acks = λ h. All-erase_at (IsAck s.server.expected_seq) i _ (c.acks h);
        done = c.done;
      }
  Reach-Consistent n (next r (lose_packet i)) =
      let c = Reach-Consistent n r in
      record {
        bounds = c.bounds;
        k = c.k;
        client = c.client;
        server = c.server;
        acked = c.acked;
        top = c.top;
        packets = All-erase_at (IsSent u c.bounds) i _ c.packets;
        acks = c.acks;
        done = c.done;
      }
