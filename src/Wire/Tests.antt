-- ===== src/Wire/Tests.antt =====
-- Messages at concrete contents.
use sptag.Base.{◌≤◌, ◌≡◌, refl, true, [], ◌∷◌, ◌++◌, some, arith, length}
use sptag.Wire.{write_uint}
use sptag.Wire.PacketType
use sptag.Wire.Packet.{
  PacketHeader, header_bytes, write_buffer, read_buffer, header_size, Fits,
  read_buffer-write_buffer,
}
use sptag.Wire.Query.{RemoteQuery}
use sptag.Wire.Result.{
  IndexSearchResult, RemoteSearchResult, write_result, read_result, estimate_result, AllFit,
}
use sptag.Wire.Result.RoundTrip.{read_result-write_result}

abbrev search_header : PacketHeader
search_header = record {
  packet_type = PacketType.search_request;
  process_status = 0;
  body_length = 300;
  connection_id = 7;
  resource_id = 70000;
}

search_header-Fits : Fits search_header
search_header-Fits = record {
  packet_type = omega arith;
  process_status = omega arith;
  body_length = omega arith;
  connection_id = omega arith;
  resource_id = omega arith;
}

abbrev hello : RemoteQuery
hello = record { query_type = 0; query_string = b'h' ∷ b'i' ∷ [] }

abbrev one_index : IndexSearchResult
one_index = record {
  index_name = b'a' ∷ [];
  results = record { vid = 3; dist = 0x3f80_0000; meta = 1 ∷ 2 ∷ [] } ∷ [];
  with_meta = true;
}

abbrev one_result : RemoteSearchResult
one_result = record { status = 0; all_index_results = one_index ∷ [] }

one_result-AllFit : AllFit one_result.all_index_results
one_result-AllFit = (
  record {
    name = omega arith;
    num = omega arith;
    hits = (omega arith, omega arith, omega arith, (λ e. cc), tt);
  },
  tt,
)

read_buffer-write_buffer_example :
    (read_buffer ((write_buffer search_header).0 ++ 0 ∷ 0 ∷ []) ≡ some (search_header, 0 ∷ 0 ∷ []))
    × (length (write_buffer search_header).0 ≤ header_size)
read_buffer-write_buffer_example =
    read_buffer-write_buffer search_header (0 ∷ 0 ∷ []) search_header-Fits

read_result-write_result_example :
    (read_result (write_result one_result ++ 5 ∷ []) ≡ some (some (one_result, 5 ∷ [])))
    × (length (write_result one_result) ≡ estimate_result one_result)
read_result-write_result_example =
    read_result-write_result one_result (5 ∷ []) (omega arith) (omega arith) one_result-AllFit

test_header :
    (write_buffer search_header).0 ≡ 3 ∷ 0 ∷ 44 ∷ 1 ∷ 0 ∷ 0 ∷ 7 ∷ 0 ∷ 0 ∷ 0 ∷ 112 ∷ 17 ∷ 1 ∷ 0 ∷ []
unfolding write_buffer header_bytes write_uint
test_header = refl
