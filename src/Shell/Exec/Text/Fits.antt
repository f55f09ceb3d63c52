-- ===== src/Shell/Exec/Text/Fits.antt =====
-- The buffer of pipeline_text on words of at most 254 bytes.
use c_shell_and_networking.Base.{
  ℕ, ◌+◌, ◌≤◌, ◌<◌, ◌≡◌, ◌∙◌, refl, sym, ap, true, false, Option, some, List, [], ◌∷◌, ◌++◌, ltb,
  leb, length, length-append, append_assoc, append-nil, arith, All, Bool-cases, inl, inr, lt→ltb,
}
use c_shell_and_networking.Base.Bytes.{Bytes, codes}
use c_shell_and_networking.Shell.Exec.Text.{
  Buffer, empty_buffer, grow, put, put_word, put_words, put_end, put_stages, pipeline_text,
}

-- The text and its terminator are inside a buffer of at least 256 bytes.
record IsRoomy (b : Buffer) : Type 0 where
  large : 256 ≤ b.cap
  inside : length b.text < b.cap

abbrev pub IsShort : Bytes → Type 0
IsShort w = length w ≤ 254

-- A write succeeds and appends.
record Puts (s : Bytes) (b : Buffer) (o : Option Buffer) : Type 0 where
  buffer : Buffer
  outcome : o ≡ some buffer
  roomy : IsRoomy buffer
  text : buffer.text ≡ b.text ++ s

-- A grown buffer has room for n more bytes and the terminator.
record HasRoom (n : ℕ) (b g : Buffer) : Type 0 where
  large : 256 ≤ g.cap
  room : length b.text + n < g.cap
  kept : g.text ≡ b.text

grow-HasRoom : (n : ℕ) (b : Buffer) → n ≤ 256 → IsRoomy b → HasRoom n b (grow n b)
unfolding grow
grow-HasRoom n b k r = elim (Bool-cases (leb b.cap (length b.text + n))) [
  | inl e ↦ rw e record {
    large = omega (arith, r.large);
    room = omega (arith, r.large, r.inside);
    kept = refl;
  }
  | inr e ↦ rw e record { large = r.large; room = ground arith; kept = refl }
]

put-Puts : (s : Bytes) (n : ℕ) (b g : Buffer) → length s ≤ n → HasRoom n b g → Puts s b (put s g)
unfolding put
put-Puts s n b g h r =
    let l : length g.text ≡ length b.text = ap length r.kept in
    let fits : ltb (length g.text + length s) g.cap ≡ true = lt→ltb _ _ (omega (arith, r.room)) in
    rw fits record {
      buffer = record g { text = g.text ++ s };
      outcome = refl;
      roomy = record { large = r.large; inside = omega (arith, r.room, length-append g.text s) };
      text = ap (λ t. t ++ s) r.kept;
    }

put-grow :
    (s : Bytes) (n : ℕ) (b : Buffer)
    → length s ≤ n
    → n ≤ 256
    → IsRoomy b
    → Puts s b (put s (grow n b))
put-grow s n b h k r = put-Puts s n b (grow n b) h (grow-HasRoom n b k r)

-- The words with a blank before each.
abbrev pub spaced : List Bytes → Bytes
spaced [] = []
spaced (w ∷ ws) = 32 ∷ w ++ spaced ws

-- The words with a blank between them.
abbrev pub joined : List Bytes → Bytes
joined [] = []
joined (w ∷ ws) = w ++ spaced ws

put_words-rest :
    (ws : List Bytes) (b : Buffer)
    → All IsShort ws
    → IsRoomy b
    → Puts (spaced ws) b (put_words false ws b)
unfolding put_words put_word
put_words-rest [] b a r = record {
  buffer = b;
  outcome = refl;
  roomy = r;
  text = sym (append-nil b.text);
}
put_words-rest (w ∷ ws) b a r =
    let p = put-grow (32 ∷ w) (length w + 2) b (omega arith) (omega (arith, a.0)) r in
    let q = put_words-rest ws p.buffer a.1 p.roomy in
    rw (p.outcome, put_words)
      record {
        buffer = q.buffer;
        outcome = q.outcome;
        roomy = q.roomy;
        text = q.text ∙ ap (λ t. t ++ spaced ws) p.text ∙ append_assoc b.text (32 ∷ w) (spaced ws);
      }

put_words-first :
    (ws : List Bytes) (b : Buffer)
    → All IsShort ws
    → IsRoomy b
    → Puts (joined ws) b (put_words true ws b)
unfolding put_words put_word
put_words-first [] b a r = record {
  buffer = b;
  outcome = refl;
  roomy = r;
  text = sym (append-nil b.text);
}
put_words-first (w ∷ ws) b a r =
    let p = put-grow w (length w + 2) b (omega arith) (omega (arith, a.0)) r in
    let q = put_words-rest ws p.buffer a.1 p.roomy in
    rw (p.outcome, put_words)
      record {
        buffer = q.buffer;
        outcome = q.outcome;
        roomy = q.roomy;
        text = q.text ∙ ap (λ t. t ++ spaced ws) p.text ∙ append_assoc b.text w (spaced ws);
      }

-- The stages after the first, each with its bar.
abbrev pub barred : List (List Bytes) → Bytes
barred [] = []
barred (ws ∷ stages) = codes " | " ++ joined ws ++ barred stages

put_stages-Puts :
    (stages : List (List Bytes)) (b : Buffer)
    → All (All IsShort) stages
    → IsRoomy b
    → Puts (barred stages) b (put_stages stages (some b))
unfolding put_stages
put_stages-Puts [] b a r = record {
  buffer = b;
  outcome = refl;
  roomy = r;
  text = sym (append-nil b.text);
}
put_stages-Puts (ws ∷ stages) b a r =
    let p = put-grow (codes " | ") 3 b (omega arith) (omega arith) r in
    let q = put_words-first ws p.buffer a.0 p.roomy in
    let s = put_stages-Puts stages q.buffer a.1 q.roomy in
    rw (p.outcome, put_stages, q.outcome)
      record {
        buffer = s.buffer;
        outcome = s.outcome;
        roomy = s.roomy;
        text =
            s.text
            ∙ ap (λ t. t ++ barred stages) (q.text ∙ ap (λ t. t ++ joined ws) p.text)
            ∙ append_assoc (b.text ++ codes " | ") (joined ws) (barred stages)
            ∙ append_assoc b.text (codes " | ") (joined ws ++ barred stages);
      }

empty_buffer-IsRoomy : IsRoomy empty_buffer
empty_buffer-IsRoomy = record { large = omega arith; inside = omega arith }

put_end-text : (b : Buffer) → IsRoomy b → put_end (some b) ≡ some (b.text ++ codes " &")
unfolding put_end
put_end-text b r =
    let p = put-grow (codes " &") 3 b (omega arith) (omega arith) r in
    rw (p.outcome, put_end) (ap some p.text)

-- For words of at most 254 bytes, in any number of stages of any length, the buffer never
-- overflows, and the text is the words with a blank between them, the stages with " | " between
-- them, and " &" at the end.
pub pipeline_text_lem :
    (ws : List Bytes) (stages : List (List Bytes))
    → All IsShort ws
    → All (All IsShort) stages
    → pipeline_text (ws ∷ stages) ≡ some ((joined ws ++ barred stages) ++ codes " &")
unfolding pipeline_text
pipeline_text_lem ws stages a b =
    let q = put_words-first ws empty_buffer a empty_buffer-IsRoomy in
    let s = put_stages-Puts stages q.buffer b q.roomy in
    rw (q.outcome, s.outcome)
      (put_end-text s.buffer s.roomy
        ∙ ap (λ t. some (t ++ codes " &")) (s.text ∙ ap (λ t. t ++ barred stages) q.text))
