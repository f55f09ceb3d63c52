-- ===== src/Shell/Parser/Lexing.antt =====
-- What tokenize makes of a line that is written as separators, plain words and quoted words.
use c_shell_and_networking.Base.{
  ℕ, zero, suc, ◌+◌, ◌≤◌, ◌≡◌, ◌∙◌, refl, ap, true, false, List, [], ◌∷◌, ◌++◌, map, arith, length,
  All, append_assoc,
}
use c_shell_and_networking.Base.Bytes.{Bytes}
use c_shell_and_networking.Shell.Parser.{
  is_blank, is_separator, is_quote, skip_blanks, next_token, tokens_within, tokenize,
  max_num_tokens, scan_word, unquoted, strip_quotes,
}
use c_shell_and_networking.Shell.Parser.Words.{
  IsPlain, Differs, inside, scan_word_plain, scan_word_quoted, strip_quotes_plain,
  strip_quotes_quoted,
}

pub data Item : Type 0 where
  separator : ℕ → Item
  word : ℕ → Bytes → Item
  quoted : ℕ → Bytes → Item

-- What stands in the line.
unfoldable pub render : Item → Bytes
render (separator c) = c ∷ []
render (word c w) = c ∷ w
render (quoted q w) = q ∷ w ++ q ∷ []

-- The token it stands for.
unfoldable pub value : Item → Bytes
value (separator c) = c ∷ []
value (word c w) = c ∷ w
value (quoted q w) = w

-- Separators are ; | and &, plain words have no blank, separator or quote, and a quoted word has
-- not its own quote.
abbrev pub IsItem : Item → Type 0
IsItem (separator c) = is_separator c ≡ true
IsItem (word c w) = IsPlain c × All IsPlain w
IsItem (quoted q w) = (is_quote q ≡ true) × All (Differs q) w

-- The line, with a blank after each item.
unfoldable pub print : List Item → Bytes
print [] = []
print (i ∷ is) = render i ++ 32 ∷ print is

separator_no_blank : (c : ℕ) → is_separator c ≡ true → is_blank c ≡ false
separator_no_blank c h = ground arith

quote_plain : (c : ℕ) → is_quote c ≡ true → (is_blank c ≡ false) × (is_separator c ≡ false)
quote_plain c h = ground arith

skip_blanks_solid : (c : ℕ) (s : Bytes) → is_blank c ≡ false → skip_blanks (c ∷ s) ≡ c ∷ s
unfolding skip_blanks
skip_blanks_solid c s h = rw h refl

tokens_within_step :
    (n c : ℕ) (s : Bytes) (t : Bytes × Bytes)
    → is_blank c ≡ false
    → next_token c s ≡ t
    → tokens_within (suc n) (c ∷ s) ≡ t.0 ∷ tokens_within n t.1
unfolding tokens_within
tokens_within_step n c s t h e = rw (skip_blanks_solid c s h, tokens_within, e) refl

next_token_word :
    (c : ℕ) (s : Bytes) (w rest v : Bytes)
    → is_separator c ≡ false
    → scan_word unquoted (c ∷ s) ≡ (w, rest)
    → strip_quotes w ≡ v
    → next_token c s ≡ (v, rest)
unfolding next_token
next_token_word c s w rest v h e k = rw (h, next_token, e, k)

scan_word_quote :
    (q : ℕ) (s : Bytes) (r : Bytes × Bytes)
    → is_quote q ≡ true
    → scan_word (inside q) s ≡ r
    → scan_word unquoted (q ∷ s) ≡ (q ∷ r.0, r.1)
unfolding scan_word
scan_word_quote q s r h e = rw ((quote_plain q h).0, (quote_plain q h).1, h, e)

next_token_separator : (c : ℕ) (s : Bytes) → is_separator c ≡ true → next_token c s ≡ (c ∷ [], s)
unfolding next_token
next_token_separator c s h = rw h

tokens_within_item :
    (n : ℕ) (i : Item) (s : Bytes)
    → IsItem i
    → tokens_within (suc n) (render i ++ 32 ∷ s) ≡ value i ∷ tokens_within n (32 ∷ s)
unfolding render value
tokens_within_item n (separator c) s h =
    tokens_within_step n c (32 ∷ s) (c ∷ [], 32 ∷ s) (separator_no_blank c h)
      (next_token_separator c (32 ∷ s) h)
tokens_within_item n (word c w) s h =
    tokens_within_step n c (w ++ 32 ∷ s) (c ∷ w, 32 ∷ s) h.0.no_blank
      (next_token_word c _ (c ∷ w) (32 ∷ s) (c ∷ w) h.0.no_separator (scan_word_plain (c ∷ w) s h)
        (strip_quotes_plain c w h.0.no_quote))
tokens_within_item n (quoted q w) s h =
    let e = append_assoc w (q ∷ []) (32 ∷ s) in
    tokens_within_step n q ((w ++ q ∷ []) ++ 32 ∷ s) (w, 32 ∷ s) (quote_plain q h.0).0
      (next_token_word q _ (q ∷ w ++ q ∷ []) (32 ∷ s) w (quote_plain q h.0).1
        (scan_word_quote q _ (w ++ q ∷ [], 32 ∷ s) h.0
          (ap (scan_word (inside q)) e ∙ scan_word_quoted q w s h.1))
        (strip_quotes_quoted q w h.0))

tokens_within_blank : (n : ℕ) (s : Bytes) → tokens_within n (32 ∷ s) ≡ tokens_within n s
unfolding tokens_within skip_blanks
tokens_within_blank zero s = refl
tokens_within_blank (suc n) s = refl

tokens_within-print :
    (n : ℕ) (is : List Item)
    → All IsItem is
    → length is ≤ n
    → tokens_within n (print is) ≡ map value is
unfolding print tokens_within skip_blanks
tokens_within-print zero [] a h = refl
tokens_within-print (suc n) [] a h = refl
tokens_within-print zero (i ∷ is) a h = absurd (omega (arith, h))
tokens_within-print (suc n) (i ∷ is) a h =
    tokens_within_item n i (print is) a.0
    ∙ ap (λ ts. value i ∷ ts)
        (tokens_within_blank n (print is) ∙ tokens_within-print n is a.1 (omega (arith, h)))

-- A line of at most 255 separators, plain words and quoted words, each with a blank after it, has
-- them as its tokens, the quoted words without their quotes.
pub tokenize-print :
    (is : List Item) → All IsItem is → length is ≤ 255 → tokenize (print is) ≡ map value is
unfolding tokenize
tokenize-print is a h = tokens_within-print 255 is a h

length-tokens_within : (n : ℕ) (s : Bytes) → length (tokens_within n s) ≤ n
unfolding tokens_within
length-tokens_within zero s = omega arith
length-tokens_within (suc n) s = go (λ r. length-tokens_within n r) (skip_blanks s)
  where
    go :
        ((r : Bytes) → length (tokens_within n r) ≤ n)
        → (r : Bytes)
        → length
            (elim r [ [] ↦ [] | c ∷ s' ↦ let t = next_token c s' in t.0 ∷ tokens_within n t.1 ])
          ≤ suc n
    go short [] = omega arith
    go short (c ∷ s') = omega (arith, short (next_token c s').1)

-- On every line the tokens and the NULL after them fit the 256 places of the array.
pub length-tokenize : (line : Bytes) → length (tokenize line) + 1 ≤ max_num_tokens
unfolding tokenize
length-tokenize line = omega (arith, length-tokens_within 255 line)
