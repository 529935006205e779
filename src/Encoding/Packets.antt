-- ===== src/Encoding/Packets.antt =====
-- shared/encoding.ts and shared/index.ts: packets as they are written and read.
use erase_to.Prelude.{
  ℕ, ◌+◌, ◌≤◌, ◌≡◌, refl, ◌∙◌, Option, [], ◌++◌, append_assoc, append-nil, arith, ge→ltb, length,
  replicate, length-replicate, length-drop, length-append, drop, take-append, drop-append,
  drop-append_add, drop-drop, drop_all,
}
use erase_to.Types.{Text, Bytes, ok, max_header_bytes, max_packet_bytes}
use erase_to.Json.{Json}
use erase_to.Wire.{u32, get_u32_at}
use erase_to.Content.Parts.{set_next}
use erase_to.Encoding.Packet.{packet_magic, write_packet, is_bad_packet, parse_parts, parse_packet}

-- A packet as one concatenation.
abbrev pub packet_of : Bytes → Bytes → Bytes
packet_of header_bytes ciphertext =
    packet_magic ++ (u32 (length header_bytes) ++ (header_bytes ++ ciphertext))

emptied : (room : Bytes) (n : ℕ) → length room ≡ n → drop n room ≡ []
emptied room n e = rw (← e) (drop_all room)

pub write_packet_lem :
    (header_bytes ciphertext : Bytes)
    → write_packet header_bytes ciphertext ≡ ok (packet_of header_bytes ciphertext)
unfolding write_packet
write_packet_lem header_bytes ciphertext =
    let m = length header_bytes in
    let n = length ciphertext in
    let room : Bytes = replicate (8 + m + n) 0 in
    let size = length-replicate {A = ℕ} (8 + m + n) 0 in
    let four = length-drop 4 room in
    let eight = length-drop 4 (drop 4 room) in
    let rest = length-drop m (drop 4 (drop 4 room)) in
    let front = packet_magic ++ u32 m in
    let a : 4 ≤ length room = omega (arith, size) in
    let b : 4 ≤ length (drop 4 room) = omega (arith, size, four) in
    let c : m ≤ length (drop 4 (drop 4 room)) = omega (arith, size, four, eight) in
    let d : n ≤ length (drop m (drop 4 (drop 4 room))) = omega (arith, size, four, eight, rest) in
    let e : 8 + m ≡ length (front ++ header_bytes) =
      omega (arith, length-append front header_bytes) in
    rw (
      set_next [] packet_magic room 0 refl a,
      set_next packet_magic (u32 m) (drop 4 room) 4 refl b,
      set_next front header_bytes (drop 4 (drop 4 room)) 8 refl c,
      set_next (front ++ header_bytes) ciphertext (drop m (drop 4 (drop 4 room))) (8 + m) e d,
      drop-drop 4 4 room,
      drop-drop m 8 room,
      drop-drop n (8 + m) room,
      emptied room (8 + m + n) size,
      append-nil ((front ++ header_bytes) ++ ciphertext),
      append_assoc front header_bytes ciphertext,
    )

pub length-packet_of :
    (header_bytes ciphertext : Bytes)
    → length (packet_of header_bytes ciphertext) ≡ 8 + length header_bytes + length ciphertext
length-packet_of header_bytes ciphertext = omega (arith, length-append header_bytes ciphertext)

behind_header :
    (header_bytes ciphertext : Bytes)
    → drop (8 + length header_bytes) (packet_of header_bytes ciphertext) ≡ ciphertext
behind_header header_bytes ciphertext =
    drop-append_add (packet_magic ++ u32 (length header_bytes)) (header_bytes ++ ciphertext)
      (8 + length header_bytes) (length header_bytes) refl
    ∙ drop-append header_bytes ciphertext

-- A packet with a header of 1 to 2048 bytes and whole blocks of ciphertext is taken apart again.
pub parse_packet-packet_of :
    (json : Text → Option Json) (header_bytes ciphertext : Bytes)
    → 1 ≤ length header_bytes
    → length header_bytes ≤ 2048
    → 4112 ≤ length ciphertext
    → length (packet_of header_bytes ciphertext) ≤ max_packet_bytes
    → parse_packet json (packet_of header_bytes ciphertext)
      ≡ parse_parts json header_bytes ciphertext
unfolding parse_packet is_bad_packet
parse_packet-packet_of json header_bytes ciphertext low high blocks fits =
    let m = length header_bytes in
    let whole = length-packet_of header_bytes ciphertext in
    let packet = packet_of header_bytes ciphertext in
    rw (
      ge→ltb (length packet) 8 (omega (arith, whole)),
      ge→ltb max_packet_bytes (length packet) fits,
      get_u32_at packet 4 m (header_bytes ++ ciphertext) refl (omega arith),
      ge→ltb m 1 low,
      ge→ltb max_header_bytes m high,
      ge→ltb (length packet) (8 + m + 4112) (omega (arith, whole)),
      take-append header_bytes ciphertext,
      behind_header header_bytes ciphertext,
    )
