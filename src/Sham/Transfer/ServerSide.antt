-- ===== src/Sham/Transfer/ServerSide.antt =====
-- One datagram at the server, in any phase.
pub mod First
pub mod Receiving
use Prim.Native.Nat.{bit_and}
use c_shell_and_networking.Base.{
  ℕ, zero, suc, ◌+◌, ◌-◌, ◌^◌, ◌%◌, ◌≤◌, ◌<◌, ◌≡◌, refl, ap, sym, ◌∙◌, ◌⊎◌, inl, inr, Bool, true,
  false, not, List, [], ◌∷◌, ◌++◌, length, take, drop, get_elem?, All, some, arith, min, ◌==◌,
  append-nil, append_assoc, if◌then◌else◌, length-take, length-drop, Bool-cases,
}
use c_shell_and_networking.Base.Bytes.{Bytes}
use c_shell_and_networking.Sham.Wire.{Header, Packet, header, has_flag, add32}
use c_shell_and_networking.Sham.Server.{Server, Sends, Phase}
use c_shell_and_networking.Sham.Server
use c_shell_and_networking.Sham.Transfer.Upload.{
  Upload, name_bytes, origin, Fits, chunk_at, Bounds, IsSent, filename, chunk, garbled, fin,
  last_ack, IsAck, is_done, ServerIs, before, missed, getting, IsLinked, take-append,
  length-chunk_at, name_bytes-pos,
}
use c_shell_and_networking.Sham.Transfer.ServerSide.First.{IsMoved, first_moves}
use c_shell_and_networking.Sham.Transfer.ServerSide.Receiving.{kept, data_moves, fin_moves}

module _ (u : Upload) (b : Bounds) (f : Fits u) (l : IsLinked u b) where
  receiving_moves :
      (dropped : Bool) (s : Server) (p : Packet) (k : ℕ)
      → s.phase ≡ Server.receiving
      → b.acked ≤ k
      → k ≤ b.top
      → ServerIs u s k
      → IsSent u b p
      → IsMoved u b s (Server.on_packet dropped p s)
  receiving_moves dropped s p k ph a t is sent = elim (Bool-cases (has_flag p.header 4)) [
    | inl e ↦ unfold Server.on_packet in rw e (fin_moves u b f l s p k ph e a t is sent)
    | inr e ↦ unfold Server.on_packet in rw e (lossy dropped e)
  ]
    where
      lossy :
          (d : Bool)
          → has_flag p.header 4 ≡ false
          → IsMoved u b s (if d then (s, []) else Server.on_data p s)
      lossy true e = kept u b f l s k [] is a t tt
      lossy false e = data_moves u b f l s p k ph e a t is sent

  ended_moves :
      (s : Server) (k : ℕ)
      → s.phase ≡ Server.teardown
      → b.acked ≤ k
      → k ≤ b.top
      → ServerIs u s k
      → IsMoved u b s (record s { phase = Server.closed }, [])
  ended_moves s k ph a t is = record {
    k = k;
    is = ended is;
    acked = a;
    top = t;
    grows = omega arith;
    counted = λ h. refl;
    acks = λ h. tt;
    done = λ h. inl (rw ph);
  }
    where
      ended : ServerIs u s k → ServerIs u (record s { phase = Server.closed }) k
      ended (before h e w z) = absurd (cc (h, ph))
      ended (missed h e w z) = missed (λ x. cc) e w z
      ended (getting prefix pre h e w i) = getting prefix pre (λ x. cc) e w i

  phase_moves :
      (ph : Phase) (dropped : Bool) (s : Server) (p : Packet) (k : ℕ)
      → s.phase ≡ ph
      → b.acked ≤ k
      → k ≤ b.top
      → ServerIs u s k
      → IsSent u b p
      → IsMoved u b s (Server.step_in ph dropped p s)
  unfolding Server.step_in
  phase_moves Server.first dropped s p k e a t (before h x w z) sent =
      first_moves u b f l s p x w (omega (arith, z)) sent
  phase_moves Server.first dropped s p k e a t (missed h x w z) sent = absurd (h e)
  phase_moves Server.first dropped s p k e a t (getting prefix pre h x w i) sent = absurd (h e)
  phase_moves Server.receiving dropped s p k e a t is sent =
      receiving_moves dropped s p k e a t is sent
  phase_moves Server.teardown dropped s p k e a t is sent = ended_moves s k e a t is
  phase_moves Server.closed dropped s p k e a t is sent = kept u b f l s k [] is a t tt

  -- A packet that the client can have sent leaves the server in step with the client.
  pub server_moves :
      (dropped : Bool) (s : Server) (p : Packet) (k : ℕ)
      → b.acked ≤ k
      → k ≤ b.top
      → ServerIs u s k
      → IsSent u b p
      → IsMoved u b s (Server.step dropped p s)
  server_moves dropped s p k a t is sent =
      unfold Server.step in phase_moves s.phase dropped s p k refl a t is sent
