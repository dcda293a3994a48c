-- ===== src/Examples/Transfer.antt =====
-- An upload of five bytes (internal/frontend/transfer.go) and the texts around it, on which the
-- theorems about them say something.
use zcr521_ai_mcp.Transfer.Names.{is_separator, safe_filename_sound}
use zcr521_ai_mcp.Transfer.Log.{Holds, Appended}
use zcr521_ai_mcp.Transfer.Completion.{Completed, complete_upload_outcome}
use zcr521_ai_mcp.Transfer.Ranges.{
  content_range, content_range_round_trip, parse_content_range_sound,
}
use zcr521_ai_mcp.Common.{
  Text, some, lookup, List, codes, true, [], text_eq, all, insert, any, ◌++◌, ◌∷◌, erase, ◌≡◌,
  has_prefix, length, is_empty, arith, ◌⊎◌, refl, ◌≤◌, false, ◌<◌, contains_byte, max_int64,
}
use zcr521_ai_mcp.Transfer.Uploads.{
  Body, new_upload, write_chunk, open_upload, create_upload, cleanup_expired, cleanup_uploads,
  cleanup_artifacts, load_upload, append_chunk,
}
use zcr521_ai_mcp.Transfer.Chunks.{Progress, Attempt, attempts, write_chunk_appends}
use zcr521_ai_mcp.Transfer.Artifacts.{
  TransferArtifact, public_artifact, complete_upload, completed_artifact, publish_part, final_path,
}
use zcr521_ai_mcp.Transfer.Syntax.{
  parse_content_range, safe_filename, valid_transfer_id, normalize_sha256, split, byte_len,
  parse_int, trim_space, trim_runes, trim_left, trim_right, is_space, is_control, parse_unsigned,
  check_filename, parse_digits,
}
use zcr521_ai_mcp.Transfer.Sessions.{upload_published}
use zcr521_ai_mcp.Transfer.Data.{
  Env, TransferOptions, Store, UploadRecord, decoded, save_upload, save_artifact, write_at,
}

abbrev id_1 : Text
id_1 = codes "0123456789abcdef0123456789abcdef"

abbrev options : TransferOptions
options = record {
  directory = codes "/run/transfer";
  max_upload_bytes = 100;
  max_chunk_bytes = 10;
  upload_ttl = 50;
  artifact_ttl = 50;
}

abbrev calm : Env
calm = record {
  now = 7;
  random = some id_1;
  reads = true;
  opens = true;
  seeks = true;
  room = 1000;
  syncs = true;
  truncates = true;
  saves = true;
  renames = true;
  renames_back = true;
  removes = true;
}

-- No real hash: a text that is told from others by its length.
abbrev digest_stub : Text → Text
digest_stub d = codes "d" ++ d

abbrev empty_store : Store
empty_store = record { parts = []; metas = []; artifacts = []; files = [] }

abbrev record_1 : UploadRecord
record_1 = new_upload id_1 (codes "a.txt") 5 [] 7

abbrev made_store : Store
made_store = record empty_store { parts = (id_1, []) ∷ []; metas = (id_1, decoded record_1) ∷ [] }

made_store-Holds : Holds made_store record_1 []
unfolding lookup text_eq new_upload
made_store-Holds = record {
  meta = refl;
  part = [];
  stored = refl;
  holds = record { begins = refl; counted = refl; covered = omega arith; fits = omega arith };
}

abbrev body_1 : Body
body_1 = record { bytes = codes "hel"; clean = true }

abbrev body_2 : Body
body_2 = record { bytes = codes "lo"; clean = true }

write_chunk_appends_example :
    let (s', reply) = write_chunk options calm id_1 (codes "bytes 0-2/5") body_1 made_store in
    Appended record_1 [] body_1 s' reply
unfolding new_upload valid_transfer_id all
write_chunk_appends_example =
    write_chunk_appends options calm (codes "bytes 0-2/5") body_1 made_store record_1 [] refl refl
      made_store-Holds

abbrev full_record : UploadRecord
full_record = record record_1 { received = 5 }

abbrev full_store : Store
full_store = record empty_store {
  parts = (id_1, codes "hello") ∷ [];
  metas = (id_1, decoded full_record) ∷ [];
}

full_store-Holds : Holds full_store full_record (codes "hello")
unfolding lookup text_eq new_upload
full_store-Holds = record {
  meta = refl;
  part = codes "hello";
  stored = refl;
  holds = record { begins = refl; counted = refl; covered = omega arith; fits = omega arith };
}

complete_upload_outcome_example :
    let (s', reply) = complete_upload digest_stub options calm id_1 full_store in
    Completed digest_stub options full_record (codes "hello") s' reply
unfolding new_upload valid_transfer_id all
complete_upload_outcome_example =
    complete_upload_outcome digest_stub options calm full_store full_record (codes "hello") refl
      refl refl full_store-Holds

abbrev chunks : List Attempt
chunks =
    record { env = calm; content_range = codes "bytes 0-2/5"; body = body_1 }
    ∷ record { env = calm; content_range = codes "bytes 0-2/5"; body = body_1 }
    ∷ record { env = calm; content_range = codes "bytes 3-4/5"; body = body_2 }
    ∷ []

abbrev sent : Progress
sent =
    attempts options id_1 (record { store = made_store; current = record_1; accepted = [] }) chunks

abbrev published : TransferArtifact
published =
    public_artifact (completed_artifact options 7 full_record (digest_stub (codes "hello"))) true

abbrev end_store : Store
end_store = (complete_upload digest_stub options calm id_1 sent.store).0

upload_published_example :
    (length sent.accepted ≡ 5)
    × (lookup published.path end_store.files ≡ some sent.accepted)
    × (published.size ≡ length sent.accepted)
    × (published.sha256 ≡ digest_stub sent.accepted)
    × ((record_1.sha256 ≡ []) ⊎ (record_1.sha256 ≡ published.sha256))
    × (5 ≤ 100)
unfolding lookup insert erase text_eq new_upload open_upload create_upload cleanup_expired
    cleanup_uploads cleanup_artifacts save_upload save_artifact write_chunk write_at load_upload
    parse_content_range split parse_int has_prefix parse_unsigned parse_digits check_filename
    valid_transfer_id all any safe_filename normalize_sha256 trim_space trim_runes trim_left
    trim_right is_space byte_len complete_upload publish_part completed_artifact public_artifact
    final_path append_chunk attempts
upload_published_example =
    upload_published digest_stub options calm calm (codes "a.txt") (some 5) [] empty_store
      made_store end_store record_1 chunks published refl refl (refl, (refl, (refl, tt))) refl refl
      refl

content_range_round_trip_example : parse_content_range (content_range 3 4 5) ≡ some (3, 4, 5)
content_range_round_trip_example =
    content_range_round_trip 3 4 5 (omega arith) (omega arith) (omega arith)

parse_content_range_sound_example : (0 ≤ 2) × (2 < 5) × (5 ≤ max_int64)
unfolding parse_content_range split has_prefix parse_int parse_unsigned parse_digits
parse_content_range_sound_example = parse_content_range_sound (codes "bytes 0-2/5") 0 2 5 refl

safe_filename_sound_example :
    let name = codes "a.txt" in
    (any is_separator name ≡ false)
    × (any is_control name ≡ false)
    × (is_empty name ≡ false)
    × (text_eq name (codes ".") ≡ false)
    × (text_eq name (codes "..") ≡ false)
    × (byte_len name ≤ 255)
    × (safe_filename name ≡ some name)
unfolding safe_filename any text_eq byte_len trim_space trim_runes trim_left trim_right is_space
    contains_byte check_filename
safe_filename_sound_example = safe_filename_sound (codes " a.txt") (codes "a.txt") refl

-- A no-break space in UTF-8 is trimmed, a byte 0xa0 that begins no character is not.
trim_space_of_bytes : trim_space (194 ∷ 160 ∷ b'a' ∷ 160 ∷ 32 ∷ []) ≡ b'a' ∷ 160 ∷ []
unfolding trim_space
trim_space_of_bytes = refl
