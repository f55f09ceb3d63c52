-- ===== src/Sham/EventLog/Reading.antt =====
-- The log file read back.
use c_shell_and_networking.Base.{
  ℕ, zero, suc, ◌+◌, ◌/◌, ◌%◌, ◌≡◌, refl, ap, ◌∙◌, sym, false, true, Bool, Option, none, some, List,
  [], ◌∷◌, ◌++◌, map, append-nil, append_assoc, length, length-append, drop, All, All-append, ◌==◌,
  if◌then◌else◌, arith, ◌≢◌, Bool-cases, inl, inr,
}
use c_shell_and_networking.Base.Bytes.{Bytes, codes, str_eq, eq_of_str_eq, str_eq_iff}
use c_shell_and_networking.Base.Lines.{NotNewline}
use c_shell_and_networking.Sham.EventLog.{
  LogFile, Event, digits, event_line, log_event, log_name, setup_logging,
}

-- A byte before the first newline.
abbrev in_front : ℕ → List Bytes → List Bytes
in_front c [] = (c ∷ []) ∷ []
in_front c (l ∷ ls) = (c ∷ l) ∷ ls

unfoldable pub split_lines : Bytes → List Bytes
split_lines [] = []
split_lines (c ∷ s) = let rest = split_lines s in if c == 10 then [] ∷ rest else in_front c rest

split_lines-line : (e s : Bytes) → All NotNewline e → split_lines (e ++ 10 ∷ s) ≡ e ∷ split_lines s
unfolding split_lines
split_lines-line [] s a = refl
split_lines-line (c ∷ e) s a = rw (a.0, split_lines, split_lines-line e s a.1) refl

-- The calls of log_event, one after the other.
abbrev pub log_all : List Event → Option LogFile → Option LogFile
log_all [] file = file
log_all (e ∷ events) file = log_all events (log_event e file)

-- "%Y-%m-%d %H:%M:%S" has 19 bytes, and neither text has a newline in it.
pub record IsPlain (e : Event) : Type 0 where
  pub stamp : length e.time ≡ 19
  pub time : All NotNewline e.time
  pub message : All NotNewline e.message

-- The messages in the lines of a log file: what comes after "[", the time, ".", six digits and
-- "] [LOG] ".
abbrev pub messages : Bytes → List Bytes
messages text = map (drop 35) (split_lines text)

length-digits : (k n : ℕ) → length (digits k n) ≡ k
unfolding digits
length-digits zero n = refl
length-digits (suc k) n =
    omega (arith, length-append (digits k (n / 10)) ((48 + n % 10) ∷ []), length-digits k (n / 10))

digits-NotNewline : (k n : ℕ) → All NotNewline (digits k n)
unfolding digits
digits-NotNewline zero n = tt
digits-NotNewline (suc k) n =
    let digit : ((48 + n % 10) == 10) ≡ false = ground arith in
    All-append NotNewline (digits k (n / 10)) _ (digits-NotNewline k (n / 10)) (digit, tt)

-- The part of the line before the message.
abbrev prefix : Event → Bytes
prefix e = 91 ∷ (e.time ++ 46 ∷ (digits 6 e.usec ++ codes "] [LOG] "))

length-prefix : (e : Event) → IsPlain e → length (prefix e) ≡ 35
length-prefix e p = omega (
  arith,
  p.stamp,
  length-append e.time (46 ∷ (digits 6 e.usec ++ codes "] [LOG] ")),
  length-append (digits 6 e.usec) (codes "] [LOG] "),
  length-digits 6 e.usec,
)

prefix-NotNewline : (e : Event) → IsPlain e → All NotNewline (prefix e)
prefix-NotNewline e p = (
  refl,
  All-append NotNewline e.time _ p.time
      (refl, All-append NotNewline (digits 6 e.usec) _ (digits-NotNewline 6 e.usec) (ground arith)),
)

event_line-prefix :
    (e : Event) (rest : Bytes) → event_line e ++ rest ≡ (prefix e ++ e.message) ++ 10 ∷ rest
event_line-prefix e rest = simp append_assoc

drop-append : (xs ys : Bytes) (n : ℕ) → length xs ≡ n → drop n (xs ++ ys) ≡ ys
drop-append [] ys zero h = refl
drop-append [] ys (suc n) h = absurd (omega arith)
drop-append (x ∷ xs) ys zero h = absurd (omega arith)
drop-append (x ∷ xs) ys (suc n) h = drop-append xs ys n (omega (arith, h))

messages-line :
    (e : Event) (rest : Bytes)
    → IsPlain e
    → messages (event_line e ++ rest) ≡ e.message ∷ messages rest
messages-line e rest p =
    ap messages (event_line-prefix e rest)
    ∙ ap (map (drop 35)) (
        split_lines-line (prefix e ++ e.message) rest
          (All-append NotNewline (prefix e) e.message (prefix-NotNewline e p) p.message))
    ∙ ap (λ m. m ∷ messages rest) (drop-append (prefix e) e.message 35 (length-prefix e p))

-- What the events write.
abbrev text_of : List Event → Bytes
text_of [] = []
text_of (e ∷ events) = event_line e ++ text_of events

log_all-text :
    (events : List Event) (file : LogFile)
    → log_all events (some file) ≡ some (record file { contents = file.contents ++ text_of events })
unfolding log_event
log_all-text [] file =
    ap (λ c. some (record file { contents = c })) (sym (append-nil file.contents))
log_all-text (e ∷ events) file =
    log_all-text events (record file { contents = file.contents ++ event_line e })
    ∙ ap (λ c. some (record file { contents = c }))
        (append_assoc file.contents (event_line e) (text_of events))

log_all-none : (events : List Event) → log_all events none ≡ none
unfolding log_event
log_all-none [] = refl
log_all-none (e ∷ events) = log_all-none events

messages-text :
    (events : List Event)
    → All IsPlain events
    → messages (text_of events) ≡ map (λ (e : Event). e.message) events
unfolding split_lines
messages-text [] a = refl
messages-text (e ∷ events) a =
    messages-line e (text_of events) a.0 ∙ ap (λ l. e.message ∷ l) (messages-text events a.1)

str_eq-false : (s t : Bytes) → str_eq s t ≡ false → s ≢ t
str_eq-false s t n e = let y = (str_eq_iff s t).1 e in absurd (cc)

log_name_lem :
    (role : Bytes)
    → (role ≡ codes "client" → log_name role ≡ codes "client_log.txt")
      × (role ≢ codes "client" → log_name role ≡ codes "server_log.txt")
log_name_lem role = elim (Bool-cases (str_eq role (codes "client"))) [
  | inl y ↦ (λ e. rw y refl, λ ne. absurd (ne (eq_of_str_eq role (codes "client") y)))
  | inr n ↦ (λ e. absurd (str_eq-false role (codes "client") n e), λ ne. rw n refl)
]

log_name-can_open :
    (can_open : Bytes → Bool) (role : Bytes)
    → (role ≡ codes "client" → can_open (codes "client_log.txt") ≡ true)
    → (role ≢ codes "client" → can_open (codes "server_log.txt") ≡ true)
    → can_open (log_name role) ≡ true
log_name-can_open can_open role client server = elim (Bool-cases (str_eq role (codes "client"))) [
  | inl y ↦ rw y (client (eq_of_str_eq role (codes "client") y))
  | inr n ↦ rw n (server λ e. str_eq-false role (codes "client") n e)
]

-- If RUDP_LOG is set, the role's log file can be opened, and the events have times of 19 bytes and no
-- newline in them, then the file is client_log.txt for the role "client" and server_log.txt for any
-- other; every event is one line of it, and what is read back are the messages, in order. Without
-- RUDP_LOG nothing is written.
pub log_messages :
    (value : Bytes) (can_open : Bytes → Bool) (role : Bytes) (events : List Event)
    → (role ≡ codes "client" → can_open (codes "client_log.txt") ≡ true)
    → (role ≢ codes "client" → can_open (codes "server_log.txt") ≡ true)
    → All IsPlain events
    → ((g : LogFile) × (log_all events (setup_logging (some value) can_open role) ≡ some g)
        × (role ≡ codes "client" → g.name ≡ codes "client_log.txt")
        × (role ≢ codes "client" → g.name ≡ codes "server_log.txt")
        × (messages g.contents ≡ map (λ (e : Event). e.message) events))
      × (log_all events (setup_logging none can_open role) ≡ none)
unfolding setup_logging
log_messages value can_open role events client_opens server_opens plain =
    let (client, server) = log_name_lem role in
    let file : LogFile = record { name = log_name role; contents = [] } in
    let g : LogFile = record { name = log_name role; contents = text_of events } in
    (
      (
        g,
        rw (log_name-can_open can_open role client_opens server_opens, setup_logging)
            (log_all-text events file),
        client,
        server,
        messages-text events plain,
      ),
      log_all-none events,
    )
