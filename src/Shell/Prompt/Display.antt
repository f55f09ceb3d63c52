-- ===== src/Shell/Prompt/Display.antt =====
-- The directory in the prompt, against the reading of a leading `~` as the home.
use c_shell_and_networking.Base.{[], ◌∷◌, ◌++◌, ◌==◌, if◌then◌else◌, ◌&&◌}
use c_shell_and_networking.Base.Bytes.{Bytes}

-- A `~` that is the whole path, or its part before the first slash, stands for the home.
abbrev pub expand : Bytes → Bytes → Bytes
expand home [] = []
expand home (c ∷ []) = if c == 126 then home else c ∷ []
expand home (c ∷ d ∷ s) = if (c == 126) && (d == 47) then home ++ d ∷ s else c ∷ d ∷ s
