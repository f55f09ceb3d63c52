-- ===== src/Sham/Transfer/Upload.antt =====
-- What the two sides of a transfer know of one another: the packets and ACKs that can be under
-- way, and where each side stands.
use c_shell_and_networking.Base.{
  ℕ, zero, suc, ◌+◌, ◌-◌, ◌^◌, ◌≤◌, ◌<◌, ◌≡◌, refl, ap, ◌∙◌, ◌⊎◌, Bool, true, false, List, [], ◌∷◌,
  ◌++◌, length, take, drop, get_elem?, All, some, arith, min, sym, length-take, length-drop,
  length-append,
}
use mathlib.Core.Path.{subst}
use c_shell_and_networking.Base.Bytes.{Bytes}
use c_shell_and_networking.Sham.Wire.{Header, Packet, header}
use c_shell_and_networking.Sham.Client.{Client}
use c_shell_and_networking.Sham.Client
use c_shell_and_networking.Sham.Server.{Server}
use c_shell_and_networking.Sham.Server

-- One file to transfer: the client's number after the handshake, the name and the contents.
pub record Upload : Type 0 where
  pub base : ℕ
  pub name : Bytes
  pub file : Bytes

-- The payload of the filename packet, and the number of the file's first byte.
abbrev pub name_bytes : Upload → Bytes
name_bytes u = u.name ++ 0 ∷ []

abbrev pub origin : Upload → ℕ
origin u = u.base + length (name_bytes u)

-- The numbers of the transfer do not wrap at 2^32, and zero is not one of them.
pub record Fits (u : Upload) : Type 0 where
  pub positive : 1 ≤ u.base
  pub room : origin u + length u.file + 1 < 2 ^ 32

abbrev pub chunk_at : Upload → ℕ → Bytes
chunk_at u o = take 1024 (drop o u.file)

-- Where the client stands: the bytes that it knows to be written, those that it has sent, a bound
-- on the offsets of the chunks that it has sent, and whether it has sent FIN.
pub record Bounds : Type 0 where
  pub acked : ℕ
  pub top : ℕ
  pub bound : ℕ
  pub closing : Bool

-- The packets that the client can have sent. `garbled` is a retransmission with the header of an
-- ACK.
pub data IsSent (u : Upload) (b : Bounds) (p : Packet) : Type 0 where
  filename : p ≡ record { header = header u.base 0 8; payload = name_bytes u } → IsSent u b p
  chunk :
      (o : ℕ)
      → o < length u.file
      → o < b.bound
      → p ≡ record { header = header (origin u + o) 0 0; payload = chunk_at u o }
      → IsSent u b p
  garbled : p.header.seq_num ≡ 0 → p.header.flags ≡ 2 → IsSent u b p
  fin : b.closing ≡ true → p.header.flags ≡ 4 → IsSent u b p
  last_ack : p.header.seq_num ≡ origin u + length u.file + 1 → p.header.flags ≡ 2 → IsSent u b p

-- An ACK of the server's loop, for a number that it has reached.
pub record IsAck (reached : ℕ) (h : Header) : Type 0 where
  pub zero_seq : h.seq_num ≡ 0
  pub only_ack : h.flags ≡ 2
  pub not_ahead : h.ack_num ≤ reached

-- The client waits for the ACK of the filename, for that of the chunk at an offset, or has sent FIN.
pub data ClientIs (u : Upload) (c : Client) (b : Bounds) : Type 0 where
  naming :
      c.phase ≡ Client.naming
      → c.seq ≡ u.base
      → c.filename_len ≡ length (name_bytes u)
      → c.rest ≡ u.file
      → b ≡ record { acked = 0; top = 0; bound = 0; closing = false }
      → ClientIs u c b
  sending :
      (o : ℕ)
      → o < length u.file
      → c.phase ≡ Client.sending
      → c.seq ≡ origin u + o
      → (c.packet_header ≡ header (origin u + o) 0 0)
        ⊎ ((c.packet_header.seq_num ≡ 0) × (c.packet_header.flags ≡ 2))
      → c.chunk ≡ chunk_at u o
      → c.rest ≡ drop 1024 (drop o u.file)
      → b ≡ record { acked = o; top = o + length (chunk_at u o); bound = suc o; closing = false }
      → ClientIs u c b
  closing :
      (c.phase ≡ Client.fin_sent) ⊎ (c.phase ≡ Client.ack_seen) ⊎ (c.phase ≡ Client.closed)
      → c.seq ≡ origin u + length u.file
      → b ≡ record {
        acked = length u.file;
        top = length u.file;
        bound = length u.file;
        closing = true;
      }
      → ClientIs u c b

abbrev pub is_done : Server.Phase → Bool
is_done Server.first = false
is_done Server.receiving = false
is_done Server.teardown = true
is_done Server.closed = true

-- What the server has written, k bytes of the file: the filename packet was taken as the name of
-- the file; or it was not the first packet to arrive, and is missing, or was written into the file.
pub data ServerIs (u : Upload) (s : Server) (k : ℕ) : Type 0 where
  before :
      s.phase ≡ Server.first → s.expected_seq ≡ u.base → s.written ≡ [] → k ≡ 0 → ServerIs u s k
  missed :
      (s.phase ≡ Server.first → ⊥)
      → s.expected_seq ≡ u.base
      → s.written ≡ []
      → k ≡ 0
      → ServerIs u s k
  getting :
      (prefix : Bytes)
      → (prefix ≡ []) ⊎ (prefix ≡ name_bytes u)
      → (s.phase ≡ Server.first → ⊥)
      → s.expected_seq ≡ origin u + k
      → s.written ≡ prefix ++ take k u.file
      → k ≤ length u.file
      → ServerIs u s k

-- What both sides use of the client's bounds.
pub record IsLinked (u : Upload) (b : Bounds) : Type 0 where
  pub top_in : b.top ≤ length u.file
  pub link :
      (o : ℕ) → o < b.bound → b.acked ≤ o → o < length u.file → b.top ≡ o + length (chunk_at u o)

pub take-append {ℓ} :
    {A : Type ℓ} (k n : ℕ) (xs : List A)
    → take k xs ++ take n (drop k xs) ≡ take (k + length (take n (drop k xs))) xs
take-append {A} zero n xs = take-length n xs
  where
    take-length : (m : ℕ) (ys : List A) → take m ys ≡ take (0 + length (take m ys)) ys
    take-length zero ys = refl
    take-length (suc m) [] = refl
    take-length (suc m) (y ∷ ys) =
        let e : 0 + suc (length (take m ys)) ≡ suc (0 + length (take m ys)) = omega arith in
        ap (λ r. y ∷ r) (take-length m ys) ∙ ap (λ j. take j (y ∷ ys)) (sym e)
take-append {A} (suc k) n [] = nothing n
  where
    nothing : (m : ℕ) → take m [] ≡ take {A = A} (suc k + length {A = A} (take m [])) []
    nothing zero = ap (λ j. take {A = A} j []) {x = suc (k + 0)} (omega arith)
    nothing (suc m) = ap (λ j. take {A = A} j []) {x = suc (k + 0)} (omega arith)
take-append {A} (suc k) n (x ∷ xs) =
    let e : suc k + length (take n (drop k xs)) ≡ suc (k + length (take n (drop k xs))) =
      omega arith in
    ap (λ r. x ∷ r) (take-append k n xs) ∙ ap (λ j. take j (x ∷ xs)) (sym e)

pub drop-drop {ℓ} : {A : Type ℓ} (n k : ℕ) (xs : List A) → drop n (drop k xs) ≡ drop (k + n) xs
drop-drop n zero xs = ap (λ j. drop j xs) (omega arith)
drop-drop zero (suc k) [] = ap (λ j. drop j []) {x = suc (k + 0)} (omega arith)
drop-drop (suc n) (suc k) [] = ap (λ j. drop j []) {x = suc (k + suc n)} (omega arith)
drop-drop n (suc k) (x ∷ xs) =
    let e : suc k + n ≡ suc (k + n) = omega arith in
    drop-drop n k xs ∙ ap (λ j. drop j (x ∷ xs)) (sym e)

pub All-get {ℓ κ} :
    {A : Type ℓ} (P : A → Type κ) (xs : List A) (i : ℕ) (x : A)
    → All P xs
    → get_elem? xs i ≡ some x
    → P x
All-get P [] i x a e = absurd (cc)
All-get P (y ∷ xs) zero x a e = subst P (cc) a.0
All-get P (y ∷ xs) (suc i) x a e = All-get P xs i x a.1 e

pub length-chunk_at : (u : Upload) (o : ℕ) → length (chunk_at u o) ≡ min 1024 (length u.file - o)
length-chunk_at u o = omega (arith, length-take 1024 (drop o u.file), length-drop o u.file)

-- The sides use the client's position only through this.
pub ClientIs-IsLinked : (u : Upload) (c : Client) (b : Bounds) → ClientIs u c b → IsLinked u b
ClientIs-IsLinked u c b (naming p s f r e) =
    rw e (record { top_in = omega arith; link = λ o lt ge in_file. absurd (omega arith) })
ClientIs-IsLinked u c b (sending o lt p s h ch r e) = rw e (record {
  top_in = omega (arith, length-chunk_at u o);
  link = λ j below from in_file. ap (λ i. i + length (chunk_at u i)) {x = o} {y = j} (omega arith);
})
ClientIs-IsLinked u c b (closing p s e) =
    rw e (record { top_in = omega arith; link = λ o lt ge in_file. absurd (omega arith) })

pub name_bytes-pos : (u : Upload) → 1 ≤ length (name_bytes u)
name_bytes-pos u = omega (arith, length-append u.name (0 ∷ []))

pub drop-length-take {ℓ} :
    {A : Type ℓ} (n : ℕ) (xs : List A) → drop (length (take n xs)) xs ≡ drop n xs
drop-length-take zero xs = refl
drop-length-take (suc n) [] = refl
drop-length-take (suc n) (x ∷ xs) = drop-length-take n xs
