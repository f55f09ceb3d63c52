-- ===== src/Sham/Wire.antt =====
-- networking/sham.h: headers and packets. Fields hold the values that ntohl and htonl convert, and
-- sequence numbers wrap at 2^32. A datagram is its header and its payload; one shorter than a
-- header is not modelled.
use Prim.Native.Nat.{bit_and}
use c_shell_and_networking.Base.{ℕ, ◌+◌, ◌%◌, ◌^◌, Bool, not, ◌==◌}
use c_shell_and_networking.Base.Bytes.{Bytes}

-- `sham_header_t`
pub record Header : Type 0 where
  pub seq_num : ℕ
  pub ack_num : ℕ
  pub flags : ℕ
  pub window_size : ℕ

-- `sham_packet_t`, with the bytes of `data` that are sent.
pub record Packet : Type 0 where
  pub header : Header
  pub payload : Bytes

-- SYN, ACK, FIN, and the 0x8 of a filename packet.
abbrev pub syn_flag : ℕ
syn_flag = 1

abbrev pub ack_flag : ℕ
ack_flag = 2

abbrev pub fin_flag : ℕ
fin_flag = 4

abbrev pub name_flag : ℕ
name_flag = 8

abbrev pub payload_size : ℕ
payload_size = 1024

-- `flags & bit`, as a condition.
abbrev pub has_flag : Header → ℕ → Bool
has_flag h bit = not (bit_and h.flags bit == 0)

-- uint32_t addition.
abbrev pub add32 : ℕ → ℕ → ℕ
add32 a b = (a + b) % 2 ^ 32

abbrev pub header : ℕ → ℕ → ℕ → Header
header seq ack flags = record { seq_num = seq; ack_num = ack; flags = flags; window_size = 0 }
