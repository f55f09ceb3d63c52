-- ===== src/Sham/Handshake/Tests.antt =====
-- A handshake with small numbers.
use c_shell_and_networking.Base.{arith}
use c_shell_and_networking.Base.Bytes.{codes}
use c_shell_and_networking.Sham.Handshake.Connected.{IsAgreed, connected_lem}

connected_lem_example : IsAgreed 4 9 (codes "f") (codes "abc")
connected_lem_example = connected_lem 4 9 (codes "f") (codes "abc") (omega arith) (omega arith)
