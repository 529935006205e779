-- ===== src/Encoding/Packet.antt =====
-- shared/encoding.ts: `parsePacket`; shared/index.ts: the packet that `create` writes.
use erase_to.Prelude.{
  ◌+◌, ◌-◌, ◌%◌, Bool, not, ◌||◌, Option, [], ◌∷◌, ltb, ◌==◌, list_eq, length, replicate, take,
  drop,
}
use erase_to.Types.{
  Text, Bytes, ParsedPacket, Result, ok, refuse_if, ◌>>=◌, ◌>>◌, invalid_package, max_header_bytes,
  max_packet_bytes,
}
use erase_to.Json.{Json}
use erase_to.Wire.{set_at, u32, get_u32}
use erase_to.Encoding.Header.{parse_header}

-- "ERS1".
abbrev pub packet_magic : Bytes
packet_magic = 69 ∷ 82 ∷ 83 ∷ 49 ∷ []

-- The allocation of a packet, and the four writes that fill it.
unfoldable pub write_packet : Bytes → Bytes → Result Bytes
write_packet header_bytes ciphertext = do
  p1 ← set_at (replicate (8 + length header_bytes + length ciphertext) 0) 0 packet_magic
  p2 ← set_at p1 4 (u32 (length header_bytes))
  p3 ← set_at p2 8 header_bytes
  set_at p3 (8 + length header_bytes) ciphertext

-- The checks on the length and the magic number.
unfoldable pub is_bad_packet : Bytes → Bool
is_bad_packet packet =
    ltb (length packet) 8
    || ltb max_packet_bytes (length packet)
    || not (list_eq (take 4 packet) packet_magic)

-- `parsePacket` from the header's bytes and the ciphertext on.
unfoldable pub parse_parts : (Text → Option Json) → Bytes → Bytes → Result ParsedPacket
parse_parts json header_bytes ciphertext = do
  refuse_if (not ((length ciphertext - 16) % 4096 == 0)) invalid_package
  header ← parse_header json header_bytes
  ok (record { header = header; header_bytes = header_bytes; ciphertext = ciphertext })

unfoldable pub parse_packet : (Text → Option Json) → Bytes → Result ParsedPacket
parse_packet json packet = do
  refuse_if (is_bad_packet packet) invalid_package
  size ← get_u32 packet 4
  refuse_if (ltb size 1 || ltb max_header_bytes size || ltb (length packet) (8 + size + 4112))
      invalid_package
  parse_parts json (take size (drop 8 packet)) (drop (8 + size) packet)
