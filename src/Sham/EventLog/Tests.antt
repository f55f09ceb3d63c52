-- ===== src/Sham/EventLog/Tests.antt =====
-- Two events of a server.
use c_shell_and_networking.Base.{◌≡◌, refl, true, ◌≢◌, none, some, [], ◌∷◌, map, All, arith}
use c_shell_and_networking.Base.Bytes.{codes}
use c_shell_and_networking.Sham.EventLog.{LogFile, Event, event_line, digits, setup_logging}
use c_shell_and_networking.Sham.EventLog.Reading.{log_all, IsPlain, messages, log_messages}

abbrev syn_event : Event
syn_event = record {
  time = codes "2025-10-01 12:00:00";
  usec = 4096;
  message = codes "RCV SYN SEQ=7";
}

abbrev fin_event : Event
fin_event = record { time = codes "2025-10-01 12:00:03"; usec = 7; message = codes "RCV FIN SEQ=9" }

syn_line : event_line syn_event ≡ codes "[2025-10-01 12:00:00.004096] [LOG] RCV SYN SEQ=7\n"
unfolding digits
syn_line = refl

both-IsPlain : All IsPlain (syn_event ∷ fin_event ∷ [])
both-IsPlain = (
  record { stamp = refl; time = ground arith; message = ground arith },
  (record { stamp = refl; time = ground arith; message = ground arith }, tt),
)

log_messages_example :
    ((g : LogFile) × (log_all
          (syn_event ∷ fin_event ∷ [])
          (setup_logging (some (codes "1")) (λ name. true) (codes "server"))
        ≡ some g)
      × (codes "server" ≡ codes "client" → g.name ≡ codes "client_log.txt")
      × (codes "server" ≢ codes "client" → g.name ≡ codes "server_log.txt")
      × (messages g.contents ≡ map (λ (e : Event). e.message) (syn_event ∷ fin_event ∷ [])))
    × (log_all (syn_event ∷ fin_event ∷ []) (setup_logging none (λ name. true) (codes "server"))
        ≡ none)
log_messages_example =
    log_messages (codes "1") (λ name. true) (codes "server") (syn_event ∷ fin_event ∷ [])
      (λ e. refl) (λ ne. refl) both-IsPlain
