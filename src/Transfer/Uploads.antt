-- ===== src/Transfer/Uploads.antt =====
-- The resumable uploads of internal/frontend/transfer.go: CreateUpload, UploadStatus, WriteChunk and
-- CancelUpload, with loadUpload and the loop of cleanupExpired over the uploads.
use zcr521_ai_mcp.Transfer.Syntax.{
  valid_transfer_id, safe_filename, parse_content_range, normalize_sha256,
}
use zcr521_ai_mcp.Transfer.Data.{
  TransferOptions, Json, Env, Store, UploadRecord, ArtifactRecord, Reply, decoded, err,
  upload_expired, artifact_expired, not_found, corrupt, io_error, bad_hash, bad_name, ok, bad_range,
  write_at, erase_if, bad_metadata, bad_size, save_upload, too_large, short_body, expired,
  long_body, offset_conflict,
}
use zcr521_ai_mcp.Common.{
  [], ◌∷◌, ℕ, Text, Map, Option, Bool, false, insert, if◌then◌else◌, ◌&&◌, min, not, erase, is_some,
  take, length, some, lookup, ◌==◌, ◌||◌, none, ◌+◌, ltb, text_eq, leb, ◌-◌,
}

-- A loaded record, and the store after loading: an expired upload is removed.
abbrev pub read_upload :
    TransferOptions → Env → Text → Store → Option (Json UploadRecord) → Store × Reply UploadRecord
read_upload o env id s none = (s, err not_found)
read_upload o env id s (some corrupt) = (s, err bad_metadata)
read_upload o env id s (some (decoded r)) =
    if not (text_eq r.id id)
    then (s, err bad_metadata)
    else if upload_expired o env.now r
    then (
      record s { parts = erase_if env.removes id s.parts; metas = erase_if env.removes id s.metas },
      err expired,
    )
    else (s, ok r)

unfoldable pub load_upload : TransferOptions → Env → Text → Store → Store × Reply UploadRecord
load_upload o env id s =
    if not (valid_transfer_id id)
    then (s, err not_found)
    else (let found = lookup id s.metas in
        if is_some found && not env.reads then (s, err io_error) else read_upload o env id s found)

unfoldable pub upload_status : TransferOptions → Env → Text → Store → Store × Reply UploadRecord
unfolding load_upload
upload_status o env id s = load_upload o env id s

-- The first loop of cleanupExpired, over the files of the uploads directory. A record is judged by
-- the time that it holds, whatever id it holds.
abbrev pub is_stale_upload : TransferOptions → ℕ → Json UploadRecord → Bool
is_stale_upload o now corrupt = false
is_stale_upload o now (decoded r) = upload_expired o now r

unfoldable pub cleanup_uploads : TransferOptions → Env → Map (Json UploadRecord) → Store → Store
cleanup_uploads o env [] s = s
cleanup_uploads o env ((id, meta) ∷ rest) s =
    let gone = valid_transfer_id id && env.reads && is_stale_upload o env.now meta && env.removes in
    cleanup_uploads o env rest
      (if gone then record s { parts = erase id s.parts; metas = erase id s.metas } else s)

abbrev pub is_stale_artifact : ℕ → Json ArtifactRecord → Bool
is_stale_artifact now corrupt = false
is_stale_artifact now (decoded r) = artifact_expired now r

-- os.Remove of an expired artifact's file, if the store owns it.
abbrev pub drop_file : Json ArtifactRecord → Map Text → Map Text
drop_file corrupt files = files
drop_file (decoded r) files = if r.owned then erase r.path files else files

unfoldable pub cleanup_artifacts : Env → Map (Json ArtifactRecord) → Store → Store
cleanup_artifacts env [] s = s
cleanup_artifacts env ((id, meta) ∷ rest) s =
    let gone = valid_transfer_id id && env.reads && is_stale_artifact env.now meta && env.removes in
    cleanup_artifacts env rest (
      if gone
      then record s { files = drop_file meta s.files; artifacts = erase id s.artifacts }
      else s)

unfoldable pub cleanup_expired : TransferOptions → Env → Store → Store
cleanup_expired o env s =
    let s' = cleanup_uploads o env s.metas s in cleanup_artifacts env s'.artifacts s'

unfoldable pub new_upload : Text → Text → ℕ → Text → ℕ → UploadRecord
new_upload id name size sha now = record {
  id = id;
  name = name;
  total = size;
  received = 0;
  sha256 = sha;
  created_at = now;
  updated_at = now;
}

-- From the random id on: the part file is made anew (O_EXCL), and removed if the record is not saved.
unfoldable pub open_upload : Env → UploadRecord → Store → Store × Reply UploadRecord
open_upload env r s =
    if is_some (lookup r.id s.parts) || not env.opens
    then (s, err io_error)
    else (let s' : Store = record s { parts = insert r.id [] s.parts } in
        let (saved, s'') = save_upload env r s' in
        if saved
        then (s'', ok r)
        else (record s'' { parts = erase_if env.removes r.id s''.parts }, err io_error))

abbrev pub create_with : Env → Text → ℕ → Text → Store → Option Text → Store × Reply UploadRecord
create_with env name size sha s none = (s, err io_error)
create_with env name size sha s (some id) = open_upload env (new_upload id name size sha env.now) s

abbrev pub create_hashed :
    TransferOptions → Env → Text → ℕ → Store → Option Text → Store × Reply UploadRecord
create_hashed o env name size s none = (s, err bad_hash)
create_hashed o env name size s (some sha) =
    create_with env name size sha (cleanup_expired o env s) env.random

abbrev pub create_named :
    TransferOptions → Env → Option ℕ → Text → Store → Option Text → Store × Reply UploadRecord
create_named o env size sha s none = (s, err bad_name)
create_named o env none sha s (some name) = (s, err bad_size)
create_named o env (some size) sha s (some name) =
    if ltb o.max_upload_bytes size
    then (s, err too_large)
    else create_hashed o env name size s (normalize_sha256 sha)

-- A negative size is `none`.
unfoldable pub create_upload :
    TransferOptions → Env → Text → Option ℕ → Text → Store → Store × Reply UploadRecord
create_upload o env name size sha s = create_named o env size sha s (safe_filename name)

-- The body of a request: the bytes that come, and whether they end cleanly (io.EOF).
pub record Body : Type 0 where
  pub bytes : Text
  pub clean : Bool

-- `file.Truncate(start)`, whose error is dropped.
abbrev pub cut_back : Env → Text → ℕ → Text → Store → Store
cut_back env id start file s = record s {
  parts = insert id (if env.truncates then take start file else file) s.parts;
}

-- From the open file on. io.CopyN writes what there is of `count` bytes as far as there is room.
unfoldable pub append_chunk :
    Env → UploadRecord → ℕ → ℕ → Body → Text → Store → Store × Reply UploadRecord
append_chunk env r start count body old s =
    let written = min (min count (length body.bytes)) env.room in
    let file = write_at start (take written body.bytes) old in
    let r' : UploadRecord = record r { received = r.received + written; updated_at = env.now } in
    if ltb written count
    then (cut_back env r.id start file s, err short_body)
    else if ltb count (length body.bytes) || not body.clean
    then (cut_back env r.id start file s, err long_body)
    else if not env.syncs
    then (cut_back env r.id start file s, err io_error)
    else (let (saved, s') = save_upload env r' (record s { parts = insert r.id file s.parts }) in
        if saved then (s', ok r') else (cut_back env r.id start file s', err io_error))

abbrev pub write_part :
    Env → UploadRecord → ℕ → ℕ → Body → Store → Option Text → Store × Reply UploadRecord
write_part env r start count body s none = (s, err io_error)
write_part env r start count body s (some old) =
    if env.opens && env.seeks then append_chunk env r start count body old s else (s, err io_error)

abbrev pub write_loaded :
    Env → ℕ → ℕ → ℕ → Body → Store × Reply UploadRecord → Store × Reply UploadRecord
write_loaded env start last total body (s, err e) = (s, err e)
write_loaded env start last total body (s, ok r) =
    if not (total == r.total) || not (start == r.received) || leb r.total last
    then (s, err offset_conflict)
    else write_part env r start (last + 1 - start) body s (lookup r.id s.parts)

abbrev pub write_range :
    TransferOptions → Env → Text → Body → Store → Option (ℕ × ℕ × ℕ) → Store × Reply UploadRecord
write_range o env id body s none = (s, err bad_range)
write_range o env id body s (some (start, last, total)) =
    if ltb o.max_chunk_bytes (last + 1 - start)
    then (s, err too_large)
    else write_loaded env start last total body (load_upload o env id s)

unfoldable pub write_chunk :
    TransferOptions → Env → Text → Text → Body → Store → Store × Reply UploadRecord
write_chunk o env id content_range body s =
    write_range o env id body s (parse_content_range content_range)

abbrev pub cancel_loaded : Env → Text → Store × Reply UploadRecord → Store × Reply (Unit {0})
cancel_loaded env id (s, err e) = (s, err e)
cancel_loaded env id (s, ok r) =
    let s' : Store = record s {
      parts = erase_if env.removes id s.parts;
      metas = erase_if env.removes id s.metas;
    } in
    if env.removes then (s', ok tt) else (s', err io_error)

unfoldable pub cancel_upload : TransferOptions → Env → Text → Store → Store × Reply (Unit {0})
cancel_upload o env id s = cancel_loaded env id (load_upload o env id s)
