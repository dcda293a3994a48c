-- ===== src/Transfer/Artifacts.antt =====
-- The published files of internal/frontend/transfer.go: CompleteUpload, PublishFile, ResolveArtifact
-- and loadArtifact. `digest` is fileSHA256's hash, hex-encoded, of a file's bytes.
use zcr521_ai_mcp.Transfer.Syntax.{valid_transfer_id, safe_filename, normalize_sha256}
use zcr521_ai_mcp.Transfer.Uploads.{load_upload, cleanup_expired}
use zcr521_ai_mcp.Transfer.Data.{
  ArtifactRecord, TransferOptions, Env, Store, UploadRecord, Reply, err, Json, save_artifact,
  io_error, ok, not_found, bad_hash, bad_name, incomplete, bad_metadata, erase_if, decoded,
  hash_mismatch, artifact_expired, expired, corrupt,
}
use zcr521_ai_mcp.Common.{
  [], ◌∷◌, Text, ℕ, Bool, Option, false, codes, ◌++◌, true, if◌then◌else◌, ◌+◌, not, ◌==◌, is_empty,
  erase, some, insert, ◌&&◌, lookup, none, text_eq, is_some,
}

pub record TransferArtifact : Type 0 where
  pub id : Text
  pub name : Text
  pub size : ℕ
  pub sha256 : Text
  pub download_url : Text
  pub device_path : Text
  pub expires_at : ℕ
  pub path : Text

unfoldable pub public_artifact : ArtifactRecord → Bool → TransferArtifact
public_artifact r expose = record {
  id = r.id;
  name = r.name;
  size = r.size;
  sha256 = r.sha256;
  download_url = codes "/transfer/download/" ++ r.id;
  device_path = if expose then r.path else [];
  expires_at = r.expires_at;
  path = r.path;
}

-- The place of a completed upload, artifacts/<id>-<name>, below the store's directory.
unfoldable pub final_path : TransferOptions → UploadRecord → Text
final_path o r = o.directory ++ (codes "/artifacts/" ++ (r.id ++ (b'-' ∷ r.name)))

unfoldable pub completed_artifact : TransferOptions → ℕ → UploadRecord → Text → ArtifactRecord
completed_artifact o now r actual = record {
  id = r.id;
  name = r.name;
  path = final_path o r;
  size = r.total;
  sha256 = actual;
  owned = true;
  created_at = now;
  expires_at = now + o.artifact_ttl;
}

-- From the verified part on: rename, save, and rename back if the save fails.
unfoldable pub publish_part :
    TransferOptions → Env → UploadRecord → Text → Text → Store → Store × Reply TransferArtifact
publish_part o env r part actual s =
    if not env.renames
    then (s, err io_error)
    else (let path = final_path o r in
        let moved : Store = record s {
          parts = erase r.id s.parts;
          files = insert path part s.files;
        } in
        let artifact = completed_artifact o env.now r actual in
        let (saved, s') = save_artifact env artifact moved in
        if saved
        then (
          record s' { metas = erase_if env.removes r.id s'.metas },
          ok (public_artifact artifact true),
        )
        else (
          if env.renames_back
              then record s' { parts = insert r.id part s'.parts; files = erase path s'.files }
              else s',
          err io_error,
        ))

abbrev pub complete_part :
    (Text → Text)
    → TransferOptions
    → Env
    → UploadRecord
    → Store
    → Option Text
    → Store × Reply TransferArtifact
complete_part digest o env r s none = (s, err io_error)
complete_part digest o env r s (some part) =
    if not env.opens
    then (s, err io_error)
    else if not (is_empty r.sha256) && not (text_eq r.sha256 (digest part))
    then (s, err hash_mismatch)
    else publish_part o env r part (digest part) s

abbrev pub complete_loaded :
    (Text → Text)
    → TransferOptions
    → Env
    → Store × Reply UploadRecord
    → Store × Reply TransferArtifact
complete_loaded digest o env (s, err e) = (s, err e)
complete_loaded digest o env (s, ok r) =
    if not (r.received == r.total)
    then (s, err incomplete)
    else complete_part digest o env r s (lookup r.id s.parts)

unfoldable pub complete_upload :
    (Text → Text) → TransferOptions → Env → Text → Store → Store × Reply TransferArtifact
complete_upload digest o env id s = complete_loaded digest o env (load_upload o env id s)

abbrev pub read_artifact :
    Env → Text → Store → Option (Json ArtifactRecord) → Store × Reply ArtifactRecord
read_artifact env id s none = (s, err not_found)
read_artifact env id s (some corrupt) = (s, err bad_metadata)
read_artifact env id s (some (decoded r)) =
    if not (text_eq r.id id)
    then (s, err bad_metadata)
    else if artifact_expired env.now r
    then (
      record s {
        files = if env.removes && r.owned then erase r.path s.files else s.files;
        artifacts = erase_if env.removes id s.artifacts;
      },
      err expired,
    )
    else (s, ok r)

unfoldable pub load_artifact : Env → Text → Store → Store × Reply ArtifactRecord
load_artifact env id s =
    if not (valid_transfer_id id)
    then (s, err not_found)
    else (let found = lookup id s.artifacts in
        if is_some found && not env.reads then (s, err io_error) else read_artifact env id s found)

abbrev pub resolved : Store × Reply ArtifactRecord → Store × Reply TransferArtifact
resolved (s, err e) = (s, err e)
resolved (s, ok r) = (s, ok (public_artifact r r.owned))

unfoldable pub resolve_artifact : Env → Text → Store → Store × Reply TransferArtifact
resolve_artifact env id s = resolved (load_artifact env id s)

-- What os.Stat says of the file to publish: nothing, not a regular file, or its size.
pub data FileInfo : Type 0 where
  missing irregular : FileInfo
  regular : ℕ → FileInfo

unfoldable pub published_record :
    TransferOptions → ℕ → Text → Text → Text → ℕ → Text → ℕ → ArtifactRecord
published_record o now id path name size sha ttl = record {
  id = id;
  name = name;
  path = path;
  size = size;
  sha256 = sha;
  owned = false;
  created_at = now;
  expires_at = now + (if ttl == 0 then o.artifact_ttl else ttl);
}

unfoldable pub publish_record : Env → ArtifactRecord → Store → Store × Reply TransferArtifact
publish_record env r s =
    let (saved, s') = save_artifact env r s in
    if saved then (s', ok (public_artifact r false)) else (s', err io_error)

abbrev pub publish_id :
    TransferOptions
    → Env
    → Text
    → Text
    → ℕ
    → Text
    → ℕ
    → Store
    → Option Text
    → Store × Reply TransferArtifact
publish_id o env path name size sha ttl s none = (s, err io_error)
publish_id o env path name size sha ttl s (some id) =
    publish_record env (published_record o env.now id path name size sha ttl) s

abbrev pub publish_hashed :
    TransferOptions
    → Env
    → Text
    → Text
    → ℕ
    → ℕ
    → Store
    → Option Text
    → Store × Reply TransferArtifact
publish_hashed o env path name size ttl s none = (s, err bad_hash)
publish_hashed o env path name size ttl s (some sha) =
    publish_id o env path name size sha ttl s env.random

abbrev pub publish_named :
    TransferOptions
    → Env
    → Text
    → ℕ
    → Text
    → ℕ
    → Store
    → Option Text
    → Store × Reply TransferArtifact
publish_named o env path size sha ttl s none = (s, err bad_name)
publish_named o env path size sha ttl s (some name) =
    publish_hashed o env path name size ttl s (normalize_sha256 sha)

abbrev pub publish_info :
    TransferOptions
    → Env
    → Text
    → Text
    → Text
    → ℕ
    → Store
    → FileInfo
    → Store × Reply TransferArtifact
publish_info o env path name sha ttl s missing = (s, err io_error)
publish_info o env path name sha ttl s irregular = (s, err io_error)
publish_info o env path name sha ttl s (regular size) =
    publish_named o env path size sha ttl s (safe_filename name)

-- PublishFile of an absolute path; `base` is its last element, which names the file if no name is
-- given. A time to live that is not positive is 0 and means the store's own.
unfoldable pub publish_file :
    TransferOptions
    → Env
    → Text
    → Text
    → FileInfo
    → Text
    → Text
    → ℕ
    → Store
    → Store × Reply TransferArtifact
publish_file o env path base info name sha ttl s =
    publish_info o env path (if is_empty name then base else name) sha ttl (cleanup_expired o env s)
      info
