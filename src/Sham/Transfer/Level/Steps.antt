-- ===== src/Sham/Transfer/Level/Steps.antt =====
-- What the server expects, after one step and after any number of them.
use mathlib.Core.Path.{subst}
use c_shell_and_networking.Base.{
  ℕ, suc, ◌+◌, ◌≤◌, ◌<◌, ◌≡◌, refl, ap, sym, ◌∙◌, ◌⊎◌, inl, inr, Bool, true, false, [], ◌∷◌, length,
  Option, some, none, arith, Bool-cases,
}
use c_shell_and_networking.Base.Bytes.{Bytes}
use c_shell_and_networking.Sham.Wire.{Header, Packet, add32}
use c_shell_and_networking.Sham.Client
use c_shell_and_networking.Sham.Client.{Client, acknowledges, receive}
use c_shell_and_networking.Sham.Server
use c_shell_and_networking.Sham.Server.{Server}
use c_shell_and_networking.Sham.Transfer.{
  System, Step, hear_ack, time_out, hear_packet, lose_ack, lose_packet, Reach, here, next,
  client_turn, server_turn,
}
use c_shell_and_networking.Sham.Transfer.Upload.{
  Upload, origin, Fits, chunk_at, Bounds, IsSent, IsAck, ClientIs, naming, sending, closing,
  All-get, length-chunk_at,
}
use c_shell_and_networking.Sham.Transfer.ClientSide.Chunk.{IsReply}
use c_shell_and_networking.Sham.Transfer.Safety.{Consistent, Reach-Consistent}
use c_shell_and_networking.Sham.Transfer.Named.{
  named, IsCounted, Reach-IsCounted, append-Reach, named-Reach,
}
use c_shell_and_networking.Sham.Transfer.Level.{IsLevel, after_chunk, level_after}

vacuous :
    (u : Upload) (c : Client) (e : ℕ)
    → (c.phase ≡ Client.fin_sent) ⊎ (c.phase ≡ Client.ack_seen) ⊎ (c.phase ≡ Client.closed)
    → IsLevel u c e
vacuous u c e (inl p) = record {
  at_origin = λ h. absurd (cc (h, p));
  at_chunk = λ h. absurd (cc (h, p));
}
vacuous u c e (inr (inl p)) = record {
  at_origin = λ h. absurd (cc (h, p));
  at_chunk = λ h. absurd (cc (h, p));
}
vacuous u c e (inr (inr p)) = record {
  at_origin = λ h. absurd (cc (h, p));
  at_chunk = λ h. absurd (cc (h, p));
}

-- A client that has just sent a chunk under the number that the server expects, or FIN.
next_chunk-IsLevel :
    (u : Upload) (rest : Bytes) (c : Client) (e : ℕ)
    → e ≡ c.seq
    → IsLevel u (Client.next_chunk rest c).0 e
unfolding Client.next_chunk Client.send_fin
next_chunk-IsLevel u [] c e q = vacuous u _ e (inl refl)
next_chunk-IsLevel u (b ∷ bs) c e q = record { at_origin = λ h. absurd (cc); at_chunk = λ h. inl q }

module _ (u : Upload) (f : Fits u) where
  server-IsLevel :
      (s : System) (c : Consistent u s) (counted : IsCounted u s) (dropped : Bool) (p : Packet)
      → IsSent u c.bounds p
      → IsLevel u s.client s.server.expected_seq
      → IsLevel u s.client (Server.step dropped p s.server).0.expected_seq
  server-IsLevel s c counted dropped p sent v = by_client c.client
    where
      by_client :
          ClientIs u s.client c.bounds
          → IsLevel u s.client (Server.step dropped p s.server).0.expected_seq
      by_client (naming ph sq fl r e) =
          let live : c.bounds.closing ≡ false = ap (λ (b : Bounds). b.closing) e in
          let bound : c.bounds.bound ≡ 0 = ap (λ (b : Bounds). b.bound) e in
          let at : s.server.expected_seq ≡ origin u + 0 = omega (arith, v.at_origin ph) in
          elim (level_after u f s c counted 0 0 dropped p live (omega (arith, bound)) (omega arith)
            (omega arith) at sent) [
              | inl q ↦ record {
                at_origin = λ h. q ∙ v.at_origin ph;
                at_chunk = λ h. absurd (cc (h, ph));
              }
              | inr q ↦ absurd (omega (arith, q.0, bound))
            ]
      by_client (sending o lt ph sq hd ch r e) =
          let live : c.bounds.closing ≡ false = ap (λ (b : Bounds). b.closing) e in
          let bound : c.bounds.bound ≡ suc o = ap (λ (b : Bounds). b.bound) e in
          let len : length s.client.chunk ≡ length (chunk_at u o) =
            ap (λ (x : Bytes). length x) ch in
          elim (v.at_chunk ph) [
            | inl q ↦
                moved o ph live bound (omega arith) (omega (arith, lt)) (q ∙ sq)
                  (omega (arith, sq, len)) (inl q)
            | inr q ↦
                moved (o + length (chunk_at u o)) ph live bound (omega arith)
                  (omega (arith, lt, length-chunk_at u o)) (omega (arith, q, sq, len))
                  (omega (arith, sq, len)) (inr q)
          ]
        where
          moved :
              (k : ℕ)
              → s.client.phase ≡ Client.sending
              → c.bounds.closing ≡ false
              → c.bounds.bound ≡ suc o
              → o ≤ k
              → k ≤ length u.file
              → s.server.expected_seq ≡ origin u + k
              → origin u + (o + length (chunk_at u o)) ≡ after_chunk s.client
              → (s.server.expected_seq ≡ s.client.seq)
                ⊎ (s.server.expected_seq ≡ after_chunk s.client)
              → IsLevel u s.client (Server.step dropped p s.server).0.expected_seq
          moved k ph live bound ge in_file at top old =
              elim (level_after u f s c counted o k dropped p live (omega (arith, bound)) ge in_file
                at sent) [
                  | inl q ↦ record {
                    at_origin = λ h. absurd (cc (h, ph));
                    at_chunk = λ h.
                        subst (λ n. (n ≡ s.client.seq) ⊎ (n ≡ after_chunk s.client)) (sym q) old;
                  }
                  | inr q ↦ record {
                    at_origin = λ h. absurd (cc (h, ph));
                    at_chunk = λ h. inr (q.1 ∙ top);
                  }
                ]
      by_client (closing ph sq e) = vacuous u s.client _ ph

  -- The ACK that the client takes is for what the server has.
  acked_level :
      (c : Client) (r : Option Header) (e o : ℕ)
      → o < length u.file
      → c.seq ≡ origin u + o
      → length c.chunk ≡ length (chunk_at u o)
      → IsReply e r
      → acknowledges r c ≡ true
      → (e ≡ c.seq) ⊎ (e ≡ after_chunk c)
      → e ≡ add32 c.seq (length c.chunk)
  acked_level c none e o lt sq len ok a v = absurd (cc)
  acked_level c (some h) e o lt sq len ok a v =
      let number : h.ack_num ≡ add32 c.seq (length c.chunk) = ground (arith, a) in
      elim v [
        | inl q ↦
            absurd
              (omega (arith, q, number, ok.not_ahead, sq, len, f.room, length-chunk_at u o, lt))
        | inr q ↦ omega (arith, q, sq, len, f.room, length-chunk_at u o, lt)
      ]

  received-IsLevel :
      (c : Client) (r : Option Header) (e : ℕ) → IsLevel u c e → IsLevel u (receive r c) e
  received-IsLevel c none e v = v
  received-IsLevel c (some h) e v = record { at_origin = v.at_origin; at_chunk = v.at_chunk }

  on_ack-IsLevel :
      (c : Client) (r : Option Header) (e : ℕ)
      → (acknowledges r c ≡ true → e ≡ add32 c.seq (length c.chunk))
      → IsLevel u c e
      → IsLevel u (Client.on_ack (acknowledges r c) (receive r c)).0 e
  unfolding Client.on_ack
  on_ack-IsLevel c r e ok v = elim (Bool-cases (acknowledges r c)) [
    | inl a ↦ rw (a, Client.on_ack) (go_on r (ok a))
    | inr a ↦ rw (a, Client.on_ack) (received-IsLevel c r e v)
  ]
    where
      go_on :
          (r : Option Header)
          → e ≡ add32 c.seq (length c.chunk)
          → IsLevel u
              (Client.next_chunk (receive r c).rest (record (receive r c) {
                seq = add32 (receive r c).seq (length (receive r c).chunk);
              })).0
              e
      go_on none q = next_chunk-IsLevel u _ _ e q
      go_on (some h) q = next_chunk-IsLevel u _ _ e q

  named_on :
      (c : Client) (r : Option Header) (e : ℕ)
      → e ≡ add32 c.seq c.filename_len
      → IsLevel u (Client.step_in Client.naming r c).0 e
  unfolding Client.step_in
  named_on c none e q = next_chunk-IsLevel u _ _ e q
  named_on c (some h) e q = next_chunk-IsLevel u _ _ e q

  ended_on :
      (ph : Client.Phase) (c : Client) (r : Option Header) (e : ℕ)
      → c.phase ≡ ph
      → (ph ≡ Client.fin_sent) ⊎ (ph ≡ Client.ack_seen) ⊎ (ph ≡ Client.closed)
      → IsLevel u (Client.step_in ph r c).0 e
  unfolding Client.step_in Client.last_ack
  ended_on Client.naming c r e p (inl q) = absurd (cc)
  ended_on Client.naming c r e p (inr (inl q)) = absurd (cc)
  ended_on Client.naming c r e p (inr (inr q)) = absurd (cc)
  ended_on Client.sending c r e p (inl q) = absurd (cc)
  ended_on Client.sending c r e p (inr (inl q)) = absurd (cc)
  ended_on Client.sending c r e p (inr (inr q)) = absurd (cc)
  ended_on Client.fin_sent c r e p q = vacuous u _ e (inr (inl refl))
  ended_on Client.ack_seen c r e p q = vacuous u _ e (inr (inr refl))
  ended_on Client.closed c r e p q = vacuous u c e (inr (inr p))

  client-IsLevel :
      (c : Client) (b : Bounds) (r : Option Header) (e : ℕ)
      → ClientIs u c b
      → (b.closing ≡ false → IsReply e r)
      → IsLevel u c e
      → IsLevel u (Client.step r c).0 e
  unfolding Client.step
  client-IsLevel c b r e (naming ph sq fl rest q) ok v =
      let number : e ≡ add32 c.seq c.filename_len = omega (arith, v.at_origin ph, sq, fl, f.room) in
      subst (λ x. IsLevel u (Client.step_in x r c).0 e) (sym ph) (named_on c r e number)
  client-IsLevel c b r e (sending o lt ph sq hd ch rest q) ok v =
      let live : b.closing ≡ false = ap (λ (x : Bounds). x.closing) q in
      let len : length c.chunk ≡ length (chunk_at u o) = ap (λ (x : Bytes). length x) ch in
      subst (λ x. IsLevel u (Client.step_in x r c).0 e) (sym ph)
        (unfold Client.step_in in
          on_ack-IsLevel c r e (λ a. acked_level c r e o lt sq len (ok live) a (v.at_chunk ph)) v)
  client-IsLevel c b r e (closing ph sq q) ok v = ended_on c.phase c r e refl ph

  Step-IsLevel :
      {s t : System} (c : Consistent u s)
      → IsCounted u s
      → Step s t
      → IsLevel u s.client s.server.expected_seq
      → IsLevel u t.client t.server.expected_seq
  unfolding client_turn server_turn
  Step-IsLevel {s} c counted (hear_ack i h at) v =
      client-IsLevel s.client c.bounds (some h) s.server.expected_seq c.client
        (λ live. All-get (IsAck s.server.expected_seq) s.to_client i h (c.acks live) at) v
  Step-IsLevel {s} c counted time_out v =
      client-IsLevel s.client c.bounds none s.server.expected_seq c.client (λ live. tt) v
  Step-IsLevel {s} c counted (hear_packet i p dropped at) v =
      server-IsLevel s c counted dropped p
        (All-get (IsSent u c.bounds) s.to_server i p c.packets at) v
  Step-IsLevel c counted (lose_ack i) v = v
  Step-IsLevel c counted (lose_packet i) v = v

  pub Reach-IsLevel :
      (n : ℕ) {s : System} → Reach (named u n) s → IsLevel u s.client s.server.expected_seq
  unfolding server_turn Server.step Server.step_in Server.on_first
  Reach-IsLevel n here = record {
    at_origin = λ h. omega (arith, f.room, f.positive);
    at_chunk = λ h. absurd (cc);
  }
  Reach-IsLevel n (next r st) =
      Step-IsLevel (Reach-Consistent u f n (append-Reach (named-Reach u n) r))
        (Reach-IsCounted u n f r) st (Reach-IsLevel n r)
