-- ===== src/Sham/Transfer/Nameless.antt =====
-- The transfer after the filename packet is lost, in networking/client.c and networking/server.c:
-- the client goes on to its first chunk, and the server expects the number of the filename.
use mathlib.Core.Path.{subst}
use c_shell_and_networking.Base.{
  take, ◌-◌, erase_at, ◌≢◌, suc, ℕ, ◌+◌, ◌^◌, ◌≤◌, ◌<◌, ◌≡◌, refl, [], ◌∷◌, length, length-take,
  length-append, ◌⊎◌, inl, inr, ◌==◌, false, none, arith,
}
use c_shell_and_networking.Base.Bytes.{Bytes}
use c_shell_and_networking.Sham.Wire.{header, add32}
use c_shell_and_networking.Sham.Client
use c_shell_and_networking.Sham.Client.{packet_of}
use c_shell_and_networking.Sham.Transfer.{
  System, Step, hear_ack, time_out, hear_packet, lose_ack, lose_packet, Reach, here, next,
  client_turn,
}
use c_shell_and_networking.Sham.Transfer.Upload.{Upload, Fits}
use c_shell_and_networking.Sham.Transfer.Safety.{initial}
use c_shell_and_networking.Sham.Transfer.Deaf.{IsForeign, IsDeaf, IsRepeat-IsForeign, Step-IsDeaf}

-- The state after the filename packet is lost, or taken for the handshake's last ACK where that
-- ACK is lost: nothing is under way.
abbrev pub nameless : Upload → ℕ → System
nameless u n = record (initial u n) { to_server = [] }

pub differs : (a b : ℕ) → a ≢ b → (a == b) ≡ false
differs a b ne = ground (arith, ne)

-- A number moved by d and then by k, neither of them a whole turn.
add32-moves :
    (a d k : ℕ)
    → 1 ≤ d
    → a + d < 2 ^ 32
    → 1 ≤ k
    → k ≤ 1024
    → d + k < 2 ^ 32
    → a ≢ add32 (add32 a d) k
add32-moves a d k hd room hk short turn e = absurd (omega (arith, e))

-- The client gives up waiting for the name's ACK, and sends the first chunk.
gave_up-IsDeaf :
    (base : ℕ) (name file : Bytes) (n : ℕ)
    → Fits (record { base = base; name = name; file = file })
    → 1 ≤ length file
    → IsDeaf
        (IsForeign base)
        base
        (add32 base (length name + 1))
        []
        (take 1024 file)
        (client_turn none (nameless (record { base = base; name = name; file = file }) n))
unfolding client_turn Client.step Client.step_in Client.next_chunk
gave_up-IsDeaf base name [] n f some_byte = absurd (omega (arith, some_byte))
gave_up-IsDeaf base name (b ∷ bs) n f some_byte =
    let short : length (take 1023 bs) ≤ 1023 = omega (arith, length-take 1023 bs) in
    let room : base + length name + 1 < 2 ^ 32 =
      omega (arith, f.room, length-append name (0 ∷ [])) in
    let wraps : add32 (base - 1) 1 ≡ base = omega (arith, room, f.positive) in
    let other : (add32 base (length name + 1) == base) ≡ false = ground (arith, room, f.positive) in
    let awaits : (base == add32 (add32 base (length name + 1)) (suc (length (take 1023 bs))))
        ≡ false =
      differs _ _ (
        add32-moves base (length name + 1) (suc (length (take 1023 bs))) (omega arith)
          (omega (arith, room)) (omega arith) (omega (arith, short))
          (omega (arith, length-take 1023 bs, f.room, length-append name (0 ∷ [])))) in
    let foreign : IsForeign base (header (add32 base (length name + 1)) 0 0) = record {
      other = other;
      no_fin = refl;
      no_name = refl;
    } in
    record {
      sending = refl;
      hearing = inl refl;
      expects = wraps;
      written = refl;
      awaits = awaits;
      seq_kept = refl;
      chunk_kept = refl;
      register = foreign;
      packets = (foreign, tt);
      acks = tt;
    }

abbrev pub IsUnheard : Upload → System → Type 0
IsUnheard u =
    IsDeaf (IsForeign u.base) u.base (add32 u.base (length u.name + 1)) [] (take 1024 u.file)

abbrev pub IsNameless : Upload → ℕ → System → Type 0
IsNameless u n t = (t ≡ nameless u n) ⊎ IsUnheard u t

Step-IsNameless :
    (u : Upload) (n : ℕ) {t : System}
    → Fits u
    → 1 ≤ length u.file
    → Step (nameless u n) t
    → IsNameless u n t
unfolding erase_at
Step-IsNameless u n f some_byte (hear_ack i h at) = absurd (cc)
Step-IsNameless u n f some_byte time_out = inr (gave_up-IsDeaf u.base u.name u.file n f some_byte)
Step-IsNameless u n f some_byte (hear_packet i p dropped at) = absurd (cc)
Step-IsNameless u n f some_byte (lose_ack i) = inl refl
Step-IsNameless u n f some_byte (lose_packet i) = inl refl

pub Reach-IsNameless :
    (u : Upload) (n : ℕ) {t : System}
    → Fits u
    → 1 ≤ length u.file
    → Reach (nameless u n) t
    → IsNameless u n t
Reach-IsNameless u n f some_byte here = inl refl
Reach-IsNameless u n f some_byte (next {t} {u = v} r st) =
    elim (Reach-IsNameless u n f some_byte r) [
      | inl e ↦ Step-IsNameless u n f some_byte (subst (λ x. Step x v) e st)
      | inr d ↦ inr (
          Step-IsDeaf (IsForeign u.base) u.base f.positive (λ h g. g)
            (IsRepeat-IsForeign u.base f.positive) (add32 u.base (length u.name + 1)) []
            (take 1024 u.file) st d)
    ]
