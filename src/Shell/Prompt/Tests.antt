-- ===== src/Shell/Prompt/Tests.antt =====
-- A directory below the home, and one beside it whose name begins as its name.
