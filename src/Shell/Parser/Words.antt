-- ===== src/Shell/Parser/Words.antt =====
-- The inner loop of tokenize and the removal of quotes, on a word as a user writes it.
use c_shell_and_networking.Base.{
  ℕ, suc, ◌-◌, ◌≡◌, refl, ap, true, false, [], ◌∷◌, ◌++◌, arith, length, get_or, take, ◌==◌, All,
  ==_refl, length-append,
}
use c_shell_and_networking.Base.Bytes.{Bytes}
use c_shell_and_networking.Shell.Parser.{
  is_blank, is_separator, is_quote, Quotes, unquoted, scan_word, strip_quotes,
}

-- A byte that is no blank, no separator and no quote.
pub record IsPlain (c : ℕ) : Type 0 where
  pub no_blank : is_blank c ≡ false
  pub no_separator : is_separator c ≡ false
  pub no_quote : is_quote c ≡ false

abbrev pub Differs : ℕ → ℕ → Type 0
Differs q c = (c == q) ≡ false

abbrev pub inside : ℕ → Quotes
inside q = record { in_quotes = true; quote_char = q }

pub scan_word_plain : (w s : Bytes) → All IsPlain w → scan_word unquoted (w ++ 32 ∷ s) ≡ (w, 32 ∷ s)
unfolding scan_word
scan_word_plain [] s a = refl
scan_word_plain (c ∷ w) s a =
    rw (a.0.no_blank, a.0.no_separator, a.0.no_quote, scan_word_plain w s a.1)

pub scan_word_quoted :
    (q : ℕ) (w s : Bytes)
    → All (Differs q) w
    → scan_word (inside q) (w ++ q ∷ 32 ∷ s) ≡ (w ++ q ∷ [], 32 ∷ s)
unfolding scan_word
scan_word_quoted q [] s a = rw (==_refl q)
scan_word_quoted q (c ∷ w) s a = rw (a.0, scan_word_quoted q w s a.1)

get_or-last : (w : Bytes) (q : ℕ) → get_or (w ++ q ∷ []) (length w) 0 ≡ q
get_or-last [] q = refl
get_or-last (c ∷ w) q = get_or-last w q

take-init : (w : Bytes) (q : ℕ) → take (length w) (w ++ q ∷ []) ≡ w
take-init [] q = refl
take-init (c ∷ w) q = ap (λ l. c ∷ l) (take-init w q)

pub strip_quotes_plain : (c : ℕ) (w : Bytes) → is_quote c ≡ false → strip_quotes (c ∷ w) ≡ c ∷ w
unfolding strip_quotes
strip_quotes_plain c w h = ground arith

pub strip_quotes_quoted :
    (q : ℕ) (w : Bytes) → is_quote q ≡ true → strip_quotes (q ∷ w ++ q ∷ []) ≡ w
unfolding strip_quotes
strip_quotes_quoted q w h =
    let n : length (w ++ q ∷ []) ≡ suc (length w) = omega (arith, length-append w (q ∷ [])) in
    let one : suc (suc (length w)) - 1 ≡ suc (length w) = omega arith in
    let two : suc (suc (length w)) - 2 ≡ length w = omega arith in
    rw (n, one, two, get_or-last w q, take-init w q) ground arith
