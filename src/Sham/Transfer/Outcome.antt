-- ===== src/Sham/Transfer/Outcome.antt =====
-- What the server's file holds, during a transfer and at its end.
use c_shell_and_networking.Base.{
  ℕ, ◌≤◌, ◌≡◌, refl, ap, sym, ◌∙◌, ◌⊎◌, inl, inr, ap₂, Bool, true, false, List, [], ◌∷◌, ◌++◌,
  length, take, arith,
}
use c_shell_and_networking.Base.Bytes.{Bytes}
use c_shell_and_networking.Sham.Client
use c_shell_and_networking.Sham.Server
use c_shell_and_networking.Sham.Transfer.{System, Reach}
use c_shell_and_networking.Sham.Transfer.Upload.{
  Upload, name_bytes, Fits, Bounds, is_done, ClientIs, naming, sending, closing, ServerIs, before,
  missed, getting,
}
use c_shell_and_networking.Sham.Transfer.Safety.{initial, Reach-Consistent}

-- Some bytes of the file from its start, after nothing or after the name.
abbrev pub IsPartOf : Upload → Bytes → Type 0
IsPartOf u written =
    (prefix : Bytes) × (k : ℕ) × ((prefix ≡ []) ⊎ (prefix ≡ name_bytes u))
    × (k ≤ length u.file)
    × (written ≡ prefix ++ take k u.file)

ServerIs-IsPartOf : (u : Upload) (s : Server.Server) (k : ℕ) → ServerIs u s k → IsPartOf u s.written
ServerIs-IsPartOf u s k (before h e w z) = ([], 0, inl refl, omega arith, w)
ServerIs-IsPartOf u s k (missed h e w z) = ([], 0, inl refl, omega arith, w)
ServerIs-IsPartOf u s k (getting prefix pre h e w i) = (prefix, k, pre, i, w)

-- Whatever datagrams are lost, repeated, delayed or reordered: at any time the server has written
-- the first bytes of the file, in order and without gaps or repetitions, and before them either
-- nothing or, where the filename packet came after another packet, the name. The transfer's
-- numbers must not wrap.
pub transfer_safety :
    (u : Upload) (n : ℕ) {s : System} → Fits u → Reach (initial u n) s → IsPartOf u s.server.written
transfer_safety u n {s} f r =
    let c = Reach-Consistent u f n r in ServerIs-IsPartOf u s.server c.k c.server

-- The client has left file_transfer_mode.
abbrev pub is_over : Client.Phase → Bool
is_over Client.naming = false
is_over Client.sending = false
is_over Client.fin_sent = true
is_over Client.ack_seen = true
is_over Client.closed = true

take-length {ℓ} : {A : Type ℓ} (xs : List A) → take (length xs) xs ≡ xs
take-length [] = refl
take-length (x ∷ xs) = ap (λ r. x ∷ r) (take-length xs)

pub over-acked :
    (u : Upload) (c : Client.Client) (b : Bounds)
    → is_over c.phase ≡ true
    → ClientIs u c b
    → b.acked ≡ length u.file
over-acked u c b h (naming p s n r e) = absurd (cc (ap is_over p, h))
over-acked u c b h (sending o lt p s hd ch r e) = absurd (cc (ap is_over p, h))
over-acked u c b h (closing p s e) = ap (λ (x : Bounds). x.acked) e

pub closing-acked :
    (u : Upload) (c : Client.Client) (b : Bounds)
    → b.closing ≡ true
    → ClientIs u c b
    → b.acked ≡ length u.file
closing-acked u c b h (naming p s n r e) = absurd (cc (ap (λ (x : Bounds). x.closing) e, h))
closing-acked u c b h (sending o lt p s hd ch r e) =
    absurd (cc (ap (λ (x : Bounds). x.closing) e, h))
closing-acked u c b h (closing p s e) = ap (λ (x : Bounds). x.acked) e

-- The whole file, after nothing or after the name.
abbrev pub IsWhole : Upload → Bytes → Type 0
IsWhole u written = (written ≡ u.file) ⊎ (written ≡ name_bytes u ++ u.file)

nil_of_length {ℓ} : {A : Type ℓ} (xs : List A) → length xs ≡ 0 → xs ≡ []
nil_of_length [] h = refl
nil_of_length (x ∷ xs) h = absurd (omega (arith, h))

ServerIs-IsWhole :
    (u : Upload) (s : Server.Server) (k : ℕ)
    → length u.file ≤ k
    → ServerIs u s k
    → IsWhole u s.written
ServerIs-IsWhole u s k all (before h e w z) = inl (w ∙ sym (nil_of_length u.file (omega arith)))
ServerIs-IsWhole u s k all (missed h e w z) = inl (w ∙ sym (nil_of_length u.file (omega arith)))
ServerIs-IsWhole u s k all (getting prefix pre h e w i) = whole pre
  where
    bytes : take k u.file ≡ u.file
    bytes = ap (λ n. take n u.file) {x = k} {y = length u.file} (omega arith) ∙ take-length u.file

    whole : (prefix ≡ []) ⊎ (prefix ≡ name_bytes u) → IsWhole u s.written
    whole (inl none_before) = inl (w ∙ ap₂ ◌++◌ none_before bytes)
    whole (inr name_before) = inr (w ∙ ap₂ ◌++◌ name_before bytes)

-- When the client has left file_transfer_mode, the server has written the whole file: exactly the
-- file, or the name followed by the file.
pub transfer_complete :
    (u : Upload) (n : ℕ) {s : System}
    → Fits u
    → Reach (initial u n) s
    → is_over s.client.phase ≡ true
    → IsWhole u s.server.written
transfer_complete u n {s} f r over =
    let c = Reach-Consistent u f n r in
    let all = over-acked u s.client c.bounds over c.client in
    ServerIs-IsWhole u s.server c.k (omega (arith, all, c.acked)) c.server

-- When the server has left its loop and closes the file, the file is whole: exactly the client's,
-- or the name followed by the client's.
pub server_done-IsWhole :
    (u : Upload) (n : ℕ) {s : System}
    → Fits u
    → Reach (initial u n) s
    → is_done s.server.phase ≡ true
    → IsWhole u s.server.written
server_done-IsWhole u n {s} f r over =
    let c = Reach-Consistent u f n r in
    let all = closing-acked u s.client c.bounds (c.done over) c.client in
    ServerIs-IsWhole u s.server c.k (omega (arith, all, c.acked)) c.server
