-- ===== src/Sham/Transfer/Named.antt =====
-- A transfer whose filename packet is the first to arrive.
use c_shell_and_networking.Base.{
  ℕ, ◌+◌, ◌≤◌, ◌≡◌, refl, ap, inl, inr, true, false, length, length-append, arith,
}
use c_shell_and_networking.Base.Bytes.{Bytes}
use c_shell_and_networking.Sham.Wire.{header}
use c_shell_and_networking.Sham.Server
use c_shell_and_networking.Sham.Transfer.{
  System, Step, hear_ack, time_out, hear_packet, lose_ack, lose_packet, Reach, here, next,
  client_turn, server_turn,
}
use c_shell_and_networking.Sham.Transfer.Upload.{
  Upload, name_bytes, origin, Fits, is_done, ServerIs, before, missed, getting, All-get,
  ClientIs-IsLinked, name_bytes-pos, IsSent,
}
use c_shell_and_networking.Sham.Transfer.ServerSide.{server_moves}
use c_shell_and_networking.Sham.Transfer.Safety.{initial, Consistent, Reach-Consistent}
use c_shell_and_networking.Sham.Transfer.Outcome.{IsWhole, closing-acked, server_done-IsWhole}

-- The state after the filename packet has come first.
abbrev pub named : Upload → ℕ → System
named u n =
    server_turn false (record { header = header u.base 0 8; payload = name_bytes u }) (initial u n)

-- From there on the server has written as many bytes as its number has advanced.
abbrev pub IsCounted : Upload → System → Type 0
IsCounted u s = origin u + length s.server.written ≡ s.server.expected_seq

pub append-Reach : {s t v : System} → Reach s t → Reach t v → Reach s v
append-Reach r here = r
append-Reach r (next q st) = next (append-Reach r q) st

pub named-Reach : (u : Upload) (n : ℕ) → Reach (initial u n) (named u n)
named-Reach u n = next here (hear_packet 0 _ false refl)

named-IsCounted : (u : Upload) (n : ℕ) → Fits u → IsCounted u (named u n)
unfolding server_turn Server.step Server.step_in Server.on_first
named-IsCounted u n f = omega (arith, f.room, f.positive)

Step-IsCounted :
    (u : Upload) (f : Fits u) {s t : System}
    → Consistent u s
    → Step s t
    → IsCounted u s
    → IsCounted u t
unfolding server_turn client_turn
Step-IsCounted u f c (hear_ack i h at) e = e
Step-IsCounted u f c time_out e = e
Step-IsCounted u f c (lose_ack i) e = e
Step-IsCounted u f c (lose_packet i) e = e
Step-IsCounted u f {s} c (hear_packet i p dropped at) e =
    let m =
      server_moves u c.bounds f (ClientIs-IsLinked u s.client c.bounds c.client) dropped s.server p
        c.k c.acked c.top c.server (All-get (IsSent u c.bounds) s.to_server i p c.packets at) in
    omega (arith, m.counted (omega (arith, e)), e)

pub Reach-IsCounted :
    (u : Upload) (n : ℕ) {s : System} → Fits u → Reach (named u n) s → IsCounted u s
Reach-IsCounted u n f here = named-IsCounted u n f
Reach-IsCounted u n f (next r st) =
    Step-IsCounted u f (Reach-Consistent u f n (append-Reach (named-Reach u n) r)) st
      (Reach-IsCounted u n f r)

not_name : (u : Upload) (w : Bytes) → length w ≡ length u.file → IsWhole u w → w ≡ u.file
not_name u w l (inl e) = e
not_name u w l (inr e) = absurd (
    omega (
      arith,
      ap (λ (x : Bytes). length x) e,
      length-append (name_bytes u) u.file,
      name_bytes-pos u,
    ))

expected_of :
    (u : Upload) (s : Server.Server) (k : ℕ)
    → ServerIs u s k
    → origin u ≤ s.expected_seq
    → s.expected_seq ≡ origin u + k
expected_of u s k (before h e w z) o = absurd (omega (arith, name_bytes-pos u))
expected_of u s k (missed h e w z) o = absurd (omega (arith, name_bytes-pos u))
expected_of u s k (getting prefix pre h e w i) o = e

length-named :
    (u : Upload) (s : System) (c : Consistent u s)
    → IsCounted u s
    → c.bounds.closing ≡ true
    → length s.server.written ≡ length u.file
length-named u s c e h = omega (
  arith,
  expected_of u s.server c.k c.server (omega (arith, e)),
  closing-acked u s.client c.bounds h c.client,
  (ClientIs-IsLinked u s.client c.bounds c.client).top_in,
  c.acked,
  c.top,
  e,
)

-- If the filename packet is the first to arrive, then, whatever the network does afterwards, the
-- file that the server closes is exactly the client's.
pub named_transfer_exact :
    (u : Upload) (n : ℕ) {s : System}
    → Fits u
    → Reach (named u n) s
    → is_done s.server.phase ≡ true
    → s.server.written ≡ u.file
named_transfer_exact u n {s} f r over =
    let q = append-Reach (named-Reach u n) r in
    let c = Reach-Consistent u f n q in
    not_name u s.server.written (length-named u s c (Reach-IsCounted u n f r) (c.done over))
      (server_done-IsWhole u n f q over)
