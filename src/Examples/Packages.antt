-- ===== src/Examples/Packages.antt =====
-- A protobuf message with a field of each wire type (internal/ops/package_archive.go).
use zcr521_ai_mcp.Packages.Varints.{varint_bytes}
use zcr521_ai_mcp.Packages.RoundTrip.{
  IsField, fields_bytes, of_varint, of_eight, parse_wire_round_trip, of_bytes, of_four, field_bytes,
  payload_bytes,
}
use zcr521_ai_mcp.Packages.Wire.{parse_wire, WireField, word32, ok}
use zcr521_ai_mcp.Common.{[], ◌∷◌, List, All, codes, ◌≡◌, arith, refl}

abbrev message : List WireField
message =
    record { number = 1; type = 0; varint = 300; bytes = [] }
    ∷ record { number = 2; type = 1; varint = 0; bytes = 1 ∷ 2 ∷ 3 ∷ 4 ∷ 5 ∷ 6 ∷ 7 ∷ 8 ∷ [] }
    ∷ record { number = 3; type = 2; varint = 0; bytes = codes "base.apk" }
    ∷ record { number = 1000; type = 5; varint = 0; bytes = 9 ∷ 8 ∷ 7 ∷ 6 ∷ [] }
    ∷ []

message_fields : All (IsField word32) message
message_fields = (
  of_varint 1 300 (omega arith) (omega arith) (omega arith),
  (
    of_eight 2 _ (omega arith) (omega arith) refl,
    (
      of_bytes 3 _ (omega arith) (omega arith) (omega arith),
      (of_four 1000 _ (omega arith) (omega arith) refl, tt),
    ),
  ),
)

parse_wire_round_trip_example : parse_wire word32 (fields_bytes message) ≡ ok message
unfolding fields_bytes field_bytes varint_bytes payload_bytes
parse_wire_round_trip_example =
    parse_wire_round_trip word32 message message_fields (omega arith) (omega arith)
