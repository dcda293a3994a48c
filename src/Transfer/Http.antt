-- ===== src/Transfer/Http.antt =====
-- The request handlers of internal/frontend/transfer.go: what is called for a path and a method, and
-- the status that an error is answered with. Headers and bodies of the responses are left out.
use zcr521_ai_mcp.Transfer.Syntax.{trim_prefix, valid_transfer_id, split}
use zcr521_ai_mcp.Transfer.Artifacts.{FileInfo, regular, load_artifact, missing, irregular}
use zcr521_ai_mcp.Transfer.Data.{
  Error, ArtifactRecord, Env, not_found, Reply, Store, expired, err, too_large, ok, offset_conflict,
  hash_mismatch,
}
use zcr521_ai_mcp.Common.{
  [], ◌∷◌, Text, List, Option, Bool, codes, if◌then◌else◌, some, ℕ, true, text_eq, false, none, not,
  ◌==◌,
}

pub data Method : Type 0 where
  get put post delete head : Method
  other : Text → Method

-- What handleUpload calls.
pub data UploadCall : Type 0 where
  status write cancel complete : Text → UploadCall
  not_found_page : UploadCall
  not_allowed : Text → UploadCall

abbrev pub upload_method : Method → Text → UploadCall
upload_method get id = status id
upload_method put id = write id
upload_method delete id = cancel id
upload_method _ id = not_allowed (codes "GET, PUT, DELETE")

abbrev pub complete_method : Method → Text → UploadCall
complete_method post id = complete id
complete_method _ id = not_allowed (codes "POST")

abbrev pub upload_parts : Method → Text → List Text → UploadCall
upload_parts m id [] = upload_method m id
upload_parts m id (a ∷ []) =
    if text_eq a (codes "complete") then complete_method m id else not_found_page
upload_parts m id (_ ∷ _ ∷ _) = not_found_page

abbrev pub upload_segments : Method → List Text → UploadCall
upload_segments m [] = not_found_page
upload_segments m (id ∷ rest) =
    if valid_transfer_id id then upload_parts m id rest else not_found_page

abbrev pub upload_remainder : Method → Option Text → UploadCall
upload_remainder m none = not_found_page
upload_remainder m (some remainder) = upload_segments m (split b'/' remainder)

unfoldable pub route_upload : Method → Text → UploadCall
route_upload m path =
    upload_remainder m (trim_prefix path (codes "/transfer/upload/") (codes "/transfer/uploads/"))

-- transferLookupError
unfoldable pub lookup_error : Error → ℕ
lookup_error not_found = 404
lookup_error expired = 410
lookup_error _ = 500

-- transferWriteError; `over` says that the error is http.MaxBytesError.
unfoldable pub write_error : Bool → Error → ℕ
unfolding lookup_error
write_error over not_found = lookup_error not_found
write_error over expired = lookup_error expired
write_error over too_large = 413
write_error over offset_conflict = 409
write_error over hash_mismatch = 409
write_error over _ = if over then 413 else 400

-- handleDownload up to http.ServeContent: `none` where the file is served.
abbrev pub serve_file : ArtifactRecord → Bool → Option FileInfo → Option ℕ
serve_file r opens none = some 410
serve_file r opens (some missing) = some 410
serve_file r opens (some irregular) = some 410
serve_file r opens (some (regular size)) =
    if not opens then some 410 else if size == r.size then none else some 409

abbrev pub serve_loaded : Bool → (Text → Option FileInfo) → Reply ArtifactRecord → Option ℕ
serve_loaded opens stat (err e) = some (lookup_error e)
serve_loaded opens stat (ok r) = serve_file r opens (stat r.path)

abbrev pub serve_id : Env → (Text → Option FileInfo) → Store → Option Text → Store × Option ℕ
serve_id env stat s none = (s, some 404)
serve_id env stat s (some id) =
    if valid_transfer_id id
    then (let (s', reply) = load_artifact env id s in (s', serve_loaded env.opens stat reply))
    else (s, some 404)

abbrev pub is_read : Method → Bool
is_read get = true
is_read head = true
is_read _ = false

unfoldable pub handle_download :
    Env → (Text → Option FileInfo) → Method → Text → Store → Store × Option ℕ
unfolding lookup_error
handle_download env stat m path s =
    if is_read m
    then serve_id env stat s
        (trim_prefix path (codes "/transfer/download/") (codes "/transfer/files/"))
    else (s, some 405)
