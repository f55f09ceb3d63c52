-- ===== src/Sham/Transfer/ServerSide/First.antt =====
-- The packet before the server's loop.
use Prim.Native.Nat.{bit_and}
use c_shell_and_networking.Base.{
  ℕ, ◌+◌, ◌≤◌, ◌≡◌, refl, ◌∙◌, ◌⊎◌, inl, true, false, not, [], length, All, arith, ◌==◌,
}
use c_shell_and_networking.Sham.Wire.{Packet, header, add32}
use c_shell_and_networking.Sham.Server.{Server, Sends, Phase}
use c_shell_and_networking.Sham.Server
use c_shell_and_networking.Sham.Transfer.Upload.{
  Upload, name_bytes, origin, Fits, Bounds, IsSent, filename, chunk, garbled, fin, last_ack, IsAck,
  is_done, ServerIs, missed, getting, IsLinked, name_bytes-pos,
}

-- What a packet leaves of the server's knowledge.
pub record IsMoved (u : Upload) (b : Bounds) (s : Server) (out : Sends) : Type 0 where
  pub k : ℕ
  pub is : ServerIs u out.0 k
  pub acked : b.acked ≤ k
  pub top : k ≤ b.top
  pub grows : s.expected_seq ≤ out.0.expected_seq
  pub counted :
      origin u ≤ s.expected_seq
      → length out.0.written + s.expected_seq ≡ length s.written + out.0.expected_seq
  pub acks : is_done out.0.phase ≡ false → All (IsAck out.0.expected_seq) out.1
  pub done : is_done out.0.phase ≡ true → (is_done s.phase ≡ true) ⊎ (b.closing ≡ true)

module _ (u : Upload) (b : Bounds) (f : Fits u) (l : IsLinked u b) where
  -- Nothing was written, and nothing is acknowledged.
  first_missed :
      (s : Server)
      → s.expected_seq ≡ u.base
      → s.written ≡ []
      → b.acked ≤ 0
      → IsMoved u b s (record s { phase = Server.receiving }, [])
  first_missed s e w a = record {
    k = 0;
    is = missed (λ h. cc) e w refl;
    acked = a;
    top = omega arith;
    grows = omega arith;
    counted = λ h. absurd (omega (arith, name_bytes-pos u));
    acks = λ h. tt;
    done = λ h. absurd (cc);
  }

  first_filename :
      (s : Server)
      → s.expected_seq ≡ u.base
      → s.written ≡ []
      → b.acked ≤ 0
      → IsMoved u b s
          (Server.on_first (record { header = header u.base 0 8; payload = name_bytes u }) s)
  unfolding Server.on_first
  first_filename s e w a =
      let o : add32 s.expected_seq (length (name_bytes u)) ≡ origin u =
        rw e (omega (arith, f.room)) in
      record {
        k = 0;
        is = getting [] (inl refl) (λ h. cc) (o ∙ omega arith) w (omega arith);
        acked = a;
        top = omega arith;
        grows = omega (arith, o, e);
        counted = λ h. absurd (omega (arith, name_bytes-pos u));
        acks = λ h. (record { zero_seq = refl; only_ack = refl; not_ahead = omega arith }, tt);
        done = λ h. absurd (cc);
      }

  -- A packet without the filename's flag is dropped.
  first_other :
      (s : Server) (p : Packet) (fl : ℕ)
      → s.expected_seq ≡ u.base
      → s.written ≡ []
      → b.acked ≤ 0
      → p.header.flags ≡ fl
      → not (bit_and fl 8 == 0) ≡ false
      → IsMoved u b s (Server.on_first p s)
  unfolding Server.on_first
  first_other s p fl e w a h z = rw (h, z) (first_missed s e w a)

  pub first_moves :
      (s : Server) (p : Packet)
      → s.expected_seq ≡ u.base
      → s.written ≡ []
      → b.acked ≤ 0
      → IsSent u b p
      → IsMoved u b s (Server.on_first p s)
  first_moves s p e w a (filename h) = rw h (first_filename s e w a)
  first_moves s p e w a (chunk o lt below h) = first_other s p 0 e w a (rw h) refl
  first_moves s p e w a (garbled z h) = first_other s p 2 e w a h refl
  first_moves s p e w a (fin c h) = first_other s p 4 e w a h refl
  first_moves s p e w a (last_ack n h) = first_other s p 2 e w a h refl
