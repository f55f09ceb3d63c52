-- ===== src/Shell/Log/History.antt =====
-- What log.c promises: the last fifteen commands, oldest first, without `log` commands and without
-- immediate repetitions.
use c_shell_and_networking.Base.{
  ◌≡◌, ◌++◌, ◌≤◌, Bool, false, Option, none, some, List, [], ◌∷◌, ltb, if◌then◌else◌, length,
  get_last?, length-append, All, All-append, arith,
}
use c_shell_and_networking.Base.Bytes.{Bytes, str_eq}
use c_shell_and_networking.Shell.Log.{is_log_command}

abbrev pub History : Type 0
History = List Bytes

unfoldable pub is_newest : Bytes → Option Bytes → Bool
is_newest command none = false
is_newest command (some e) = str_eq e command

unfoldable pub without_oldest : History → History
without_oldest [] = []
without_oldest (e ∷ h) = h

-- Append, and forget the oldest of fifteen.
unfoldable pub push : Bytes → History → History
unfolding without_oldest
push command h = if ltb (length h) 15 then h ++ command ∷ [] else without_oldest h ++ command ∷ []

-- Adding a command, as a user of the history sees it.
unfoldable pub add : Bytes → History → History
add command h =
    if is_log_command command
    then h
    else if is_newest command (get_last? h)
    then h
    else push command h

-- No two neighbours are equal.
abbrev pub NoRepeats : History → Type 0
NoRepeats [] = Unit
NoRepeats (e ∷ []) = Unit
NoRepeats (e ∷ f ∷ h) = (str_eq e f ≡ false) × NoRepeats (f ∷ h)

abbrev pub NotLog : Bytes → Type 0
NotLog e = is_log_command e ≡ false

-- What a history of one session satisfies.
pub record IsTidy (h : History) : Type 0 where
  pub bounded : length h ≤ 15
  pub no_repeats : NoRepeats h
  pub no_log : All NotLog h

NoRepeats-snoc :
    (h : History) (c : Bytes)
    → NoRepeats h
    → is_newest c (get_last? h) ≡ false
    → NoRepeats (h ++ c ∷ [])
unfolding is_newest
NoRepeats-snoc [] c n e = tt
NoRepeats-snoc (x ∷ []) c n e = (e, tt)
NoRepeats-snoc (x ∷ y ∷ h) c n e = (n.0, NoRepeats-snoc (y ∷ h) c n.1 e)

push-NoRepeats :
    (c : Bytes) (h : History)
    → NoRepeats h
    → is_newest c (get_last? h) ≡ false
    → NoRepeats (push c h)
unfolding push
push-NoRepeats c [] n e = tt
push-NoRepeats c (x ∷ []) n e = NoRepeats-snoc (x ∷ []) c n e
push-NoRepeats c (x ∷ y ∷ h) n e =
    ground (arith, NoRepeats-snoc (x ∷ y ∷ h) c, NoRepeats-snoc (y ∷ h) c)

push-NotLog : (c : Bytes) (h : History) → All NotLog h → NotLog c → All NotLog (push c h)
unfolding push
push-NotLog c [] a e = (e, tt)
push-NotLog c (x ∷ h) a e =
    ground (arith, All-append NotLog (x ∷ h) (c ∷ []), All-append NotLog h (c ∷ []))

length-push : (c : Bytes) (h : History) → length h ≤ 15 → length (push c h) ≤ 15
unfolding push
length-push c [] b = omega arith
length-push c (x ∷ h) b = ground (arith, length-append (x ∷ h) (c ∷ []), length-append h (c ∷ []))

-- Adding any command keeps a tidy history tidy.
pub add-IsTidy : (c : Bytes) (h : History) → IsTidy h → IsTidy (add c h)
unfolding add
add-IsTidy c h t =
    ground
      (arith, length-push c h t.bounded, push-NoRepeats c h t.no_repeats, push-NotLog c h t.no_log)
