-- ===== src/Wire/Packet.antt =====
-- AnnService/inc/Socket/Packet.h and src/Socket/Packet.cpp: packet headers, buffers and types.
-- An enumeration with a fixed underlying type holds any value of that type.
use Prim.Native.Nat.{bit_and, bit_or}
use mathlib.Core.List.{append_assoc}
use sptag.Base.{
  all_below, all_below_sound, ℕ, ◌+◌, ◌-◌, ◌%◌, ◌^◌, ◌≤◌, ◌<◌, ◌≡◌, ◌≢◌, refl, Bool, true, false,
  not, ◌&&◌, ◌||◌, ◌++◌, Option, none, some, arith, ltb, ◌==◌, if◌then◌else◌, length, length-append,
  ◌>>=◌,
}
use sptag.Wire.PacketType
use sptag.Wire.{Bytes, write_uint, read_uint, read_uint-write_uint, length-write_uint}

-- `PacketProcessStatus::Ok`
abbrev pub ok_status : ℕ
ok_status = 0x00

-- `c_bufferSize`
abbrev pub header_size : ℕ
header_size = 16

pub record PacketHeader : Type 0 where
  pub packet_type : ℕ
  pub process_status : ℕ
  pub body_length : ℕ
  pub connection_id : ℕ
  pub resource_id : ℕ

-- the default constructor; `c_invalidConnectionID` and `c_invalidResourceID` are 0
pub new_header : PacketHeader
new_header = record {
  packet_type = PacketType.undefined;
  process_status = ok_status;
  body_length = 0;
  connection_id = 0;
  resource_id = 0;
}

unfoldable pub header_bytes : PacketHeader → Bytes
header_bytes h =
    write_uint 1 h.packet_type
    ++ (write_uint 1 h.process_status
        ++ (write_uint 4 h.body_length
            ++ (write_uint 4 h.connection_id ++ write_uint 4 h.resource_id)))

-- `WriteBuffer`: the bytes, and its result `p_buffer - buff` as a `std::size_t` of 64 bits
unfoldable pub write_buffer : PacketHeader → Bytes × ℕ
write_buffer h = (header_bytes h, (2 ^ 64 - length (header_bytes h)) % 2 ^ 64)

pub read_buffer : Bytes → Option (PacketHeader × Bytes)
read_buffer bs = do
  (packet_type, b₁) ← read_uint 1 bs
  (process_status, b₂) ← read_uint 1 b₁
  (body_length, b₃) ← read_uint 4 b₂
  (connection_id, b₄) ← read_uint 4 b₃
  (resource_id, b₅) ← read_uint 4 b₄
  some (
    record {
      packet_type = packet_type;
      process_status = process_status;
      body_length = body_length;
      connection_id = connection_id;
      resource_id = resource_id;
    },
    b₅,
  )

-- `m_buffer` is `none` for a null pointer; the capacity is set with it
pub record Packet : Type 0 where
  pub header : PacketHeader
  pub buffer : Option Bytes
  pub buffer_capacity : ℕ

-- `Body`: the bytes behind the header, or `none` for a null pointer
pub body_offset : Packet → Option ℕ
body_offset p = elim p.buffer [
  | none ↦ none
  | some _ ↦ if ltb header_size p.buffer_capacity then some header_size else none
]

pub buffer_length : Packet → ℕ
buffer_length p = (header_size + p.header.body_length) % 2 ^ 32

-- `AllocateBuffer`; `fresh` is what the new memory holds
pub allocate_buffer : (ℕ → Bytes) → ℕ → Packet → Packet
allocate_buffer fresh body_capacity p =
    let capacity = (header_size + body_capacity) % 2 ^ 32 in
    record p { buffer = some (fresh capacity); buffer_capacity = capacity }

pub is_request_packet : ℕ → Bool
is_request_packet t =
    if t == PacketType.undefined || t == PacketType.response_mask
    then false
    else bit_and t PacketType.response_mask == 0

pub is_response_packet : ℕ → Bool
is_response_packet t =
    if t == PacketType.undefined || t == PacketType.response_mask
    then false
    else not (bit_and t PacketType.response_mask == 0)

pub response_type : ℕ → ℕ
response_type t =
    if t == PacketType.undefined || t == PacketType.response_mask
    then PacketType.undefined
    else bit_or t PacketType.response_mask

-- the fields fit their types
pub record Fits (h : PacketHeader) : Type 0 where
  pub packet_type : h.packet_type < 2 ^ 8
  pub process_status : h.process_status < 2 ^ 8
  pub body_length : h.body_length < 2 ^ 32
  pub connection_id : h.connection_id < 2 ^ 32
  pub resource_id : h.resource_id < 2 ^ 32

length-header_bytes : (h : PacketHeader) → length (header_bytes h) ≡ 14
unfolding header_bytes
length-header_bytes h = simp (length-append, length-write_uint)

-- ReadBuffer reads back the packet header that WriteBuffer wrote, whatever follows it, if the
-- fields fit their widths, and the bytes fit the header's share of the buffer.
pub read_buffer-write_buffer :
    (h : PacketHeader) (rest : Bytes)
    → Fits h
    → (read_buffer ((write_buffer h).0 ++ rest) ≡ some (h, rest))
      × (length (write_buffer h).0 ≤ header_size)
unfolding read_buffer write_buffer
read_buffer-write_buffer h rest f = (
  unfold header_bytes in
      simp (append_assoc) (
        rw (
          read_uint-write_uint 1 h.packet_type _ f.packet_type,
          read_uint-write_uint 1 h.process_status _ f.process_status,
          read_uint-write_uint 4 h.body_length _ f.body_length,
          read_uint-write_uint 4 h.connection_id _ f.connection_id,
          read_uint-write_uint 4 h.resource_id rest f.resource_id,
        )),
  omega (arith, length-header_bytes h),
)

-- WriteBuffer does not return how many bytes it wrote but 2^64 less that number.
pub write_buffer-returns :
    (h : PacketHeader) → (write_buffer h).1 + length (write_buffer h).0 ≡ 2 ^ 64
unfolding write_buffer
write_buffer-returns h = omega (arith, length-header_bytes h)

-- what the type helpers promise of a type, as a test
type_test : ℕ → Bool
type_test t =
    let r = response_type t in
    (not (is_request_packet t)
      || (not (is_response_packet t) && is_response_packet r && r == t + 128))
    && (not (is_response_packet t) || r == t)
    && (t == PacketType.undefined
        || t == PacketType.response_mask
        || is_request_packet t
        || is_response_packet t)

type_table : all_below 256 type_test ≡ true
unfolding type_test is_request_packet is_response_packet response_type
type_table = refl

-- Of the 256 values of a packet type, all but the undefined one and the bare mask are requests or
-- responses, and none is both; the response type of a request is a response 128 above it, and
-- that of a response is itself.
pub packet_types :
    (t : ℕ)
    → t < 2 ^ 8
    → (is_request_packet t ≡ true
        → (is_response_packet t ≡ false)
          × (is_response_packet (response_type t) ≡ true)
          × (response_type t ≡ t + 128))
      × (is_response_packet t ≡ true → response_type t ≡ t)
      × (t ≢ PacketType.undefined
          → t ≢ PacketType.response_mask
          → (is_request_packet t || is_response_packet t) ≡ true)
unfolding type_test
packet_types t h =
    let e = all_below_sound 256 type_test t type_table h in
    (λ q. ground arith, λ q. ground arith, λ n m. ground arith)
