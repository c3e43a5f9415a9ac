-- ===== src/Wire/PacketType.antt =====
-- The named values of `PacketType` that are no responses, and the mask of those that are.
use sptag.Base.{ℕ}

abbrev pub undefined : ℕ
undefined = 0x00

abbrev pub heartbeat_request : ℕ
heartbeat_request = 0x01

abbrev pub register_request : ℕ
register_request = 0x02

abbrev pub search_request : ℕ
search_request = 0x03

abbrev pub response_mask : ℕ
response_mask = 0x80
