-- ===== src/Sham/Chat/Tests.antt =====
-- A conversation of two lines, and the end of the input after one.
use c_shell_and_networking.Base.{◌≡◌, refl, some, none, List, [], ◌∷◌, false, arith, replicate}
use c_shell_and_networking.Base.Bytes.{Bytes, codes, str_eq}
use c_shell_and_networking.Sham.Wire.{header}
use c_shell_and_networking.Sham.Chat.{Chat, goes_on, leaves}
use c_shell_and_networking.Sham.Chat.Conversation.{
  IsSaid, type_lines, hear_all, packets, chat_delivers, chat_end_repeats,
}

abbrev two_lines : List Bytes
two_lines = codes "hi" ∷ codes "bye" ∷ []

abbrev speaker : Chat
speaker = record { buffer = none; stdin = codes "hi\nbye\n/quit\n"; sent = []; shown = [] }

abbrev listener : Chat
listener = record { buffer = none; stdin = []; sent = []; shown = [] }

hi-IsSaid : IsSaid (codes "hi")
unfolding str_eq
hi-IsSaid = record {
  fits = omega arith;
  one_line = (refl, (refl, tt));
  text = (refl, (refl, tt));
  stays = refl;
}

bye-IsSaid : IsSaid (codes "bye")
unfolding str_eq
bye-IsSaid = record {
  fits = omega arith;
  one_line = (refl, (refl, (refl, tt)));
  text = (refl, (refl, (refl, tt)));
  stays = refl;
}

chat_delivers_example :
    (type_lines 7 3 speaker
      ≡ leaves 0 (record {
        buffer = some (codes "/quit");
        stdin = [];
        sent = packets 7 two_lines;
        shown = [];
      }))
    × (hear_all (packets 7 two_lines) listener
        ≡ goes_on (record listener { shown = codes "Received: hi\nReceived: bye\n" }))
chat_delivers_example =
    chat_delivers 7 two_lines speaker listener (hi-IsSaid, (bye-IsSaid, tt)) refl

abbrev ended : Chat
ended = record { buffer = some (codes "hi"); stdin = []; sent = []; shown = [] }

not_quit : str_eq (codes "hi") (codes "/quit") ≡ false
unfolding str_eq
not_quit = refl

chat_end_repeats_example :
    type_lines 7 50 ended
    ≡ goes_on (record ended {
      sent = replicate 50 record { header = header 7 0 0; payload = codes "hi" };
    })
chat_end_repeats_example = chat_end_repeats 7 50 (codes "hi") ended refl refl not_quit (omega arith)
