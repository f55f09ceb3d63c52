-- ===== src/Shell/Exec/Text.antt =====
-- The text of a background command, as execute_pipeline of shell/src/pipes.c writes it into a buffer
-- that starts with 256 bytes and is doubled at most once for each word.
pub mod Fits
use c_shell_and_networking.Base.{
  ℕ, ◌+◌, ◌*◌, Bool, true, false, Option, none, some, List, [], ◌∷◌, ◌++◌, ltb, leb, if◌then◌else◌,
  length,
}
use c_shell_and_networking.Base.Bytes.{Bytes, codes}

-- `cap` and the text in cmd_str, whose length is `len`.
pub record Buffer : Type 0 where
  pub cap : ℕ
  pub text : Bytes

abbrev pub empty_buffer : Buffer
empty_buffer = record { cap = 256; text = [] }

-- `if (len + n >= cap) cap *= 2`
unfoldable pub grow : ℕ → Buffer → Buffer
grow n b = if leb b.cap (length b.text + n) then record b { cap = b.cap * 2 } else b

-- strcpy to the end of the text; `none` where it goes beyond the buffer.
unfoldable pub put : Bytes → Buffer → Option Buffer
put s b =
    if ltb (length b.text + length s) b.cap then some (record b { text = b.text ++ s }) else none

-- One round of the loop over the arguments, with a blank before each but the first.
unfoldable pub put_word : Bool → Bytes → Buffer → Option Buffer
put_word true w b = put w (grow (length w + 2) b)
put_word false w b = put (32 ∷ w) (grow (length w + 2) b)

unfoldable pub put_words : Bool → List Bytes → Buffer → Option Buffer
put_words first [] b = some b
put_words first (w ∷ ws) b = elim (put_word first w b) [
  | none ↦ none
  | some b' ↦ put_words false ws b'
]

-- The " &" at the end.
unfoldable pub put_end : Option Buffer → Option Bytes
put_end none = none
put_end (some b) = elim (put (codes " &") (grow 3 b)) [ none ↦ none | some b' ↦ some b'.text ]

-- The text of a command of one stage.
unfoldable pub command_text : List Bytes → Option Bytes
command_text args = put_end (put_words true args empty_buffer)

-- A " | ", then the words of the next stage.
unfoldable pub put_stages : List (List Bytes) → Option Buffer → Option Buffer
put_stages stages none = none
put_stages [] (some b) = some b
put_stages (args ∷ stages) (some b) = elim (put (codes " | ") (grow 3 b)) [
  | none ↦ none
  | some b' ↦ put_stages stages (put_words true args b')
]

-- The text of a pipeline.
unfoldable pub pipeline_text : List (List Bytes) → Option Bytes
pipeline_text [] = put_end (some empty_buffer)
pipeline_text (args ∷ stages) = put_end (put_stages stages (put_words true args empty_buffer))
