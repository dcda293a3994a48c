-- ===== src/Transfer/Data.antt =====
-- The records and the state of internal/frontend/transfer.go. The files of the store are kept apart
-- by kind: `parts` is uploads/<id>.part, `metas` uploads/<id>.json, `artifacts` artifacts/<id>.json,
-- each by its id, and `files` has the published files by their path. A JSON file is the record that
-- it decodes to, or `corrupt`. `Env` is what a call meets: the clock, the random id, and which of
-- the file system's operations succeed; `room` is how many bytes a write can take.
use Prim.Native.Nat.{zero}
use zcr521_ai_mcp.Transfer.Syntax.{trim_space}
use zcr521_ai_mcp.Common.{
  Text, Map, ℕ, Bool, Option, not, ltb, if◌then◌else◌, ◌++◌, is_empty, ◌+◌, erase, drop, true,
  length, insert, ◌&&◌, suc, false, leb, ◌∷◌, [],
}

pub record TransferOptions : Type 0 where
  pub directory : Text
  pub max_upload_bytes : ℕ
  pub max_chunk_bytes : ℕ
  pub upload_ttl : ℕ
  pub artifact_ttl : ℕ

pub record UploadRecord : Type 0 where
  pub id : Text
  pub name : Text
  pub total : ℕ
  pub received : ℕ
  pub sha256 : Text
  pub created_at : ℕ
  pub updated_at : ℕ

pub record ArtifactRecord : Type 0 where
  pub id : Text
  pub name : Text
  pub path : Text
  pub size : ℕ
  pub sha256 : Text
  pub owned : Bool
  pub created_at : ℕ
  pub expires_at : ℕ

pub data Json {ℓ} (A : Type ℓ) : Type ℓ where
  decoded : A → Json A
  corrupt : Json A

pub record Store : Type 0 where
  pub parts : Map Text
  pub metas : Map (Json UploadRecord)
  pub artifacts : Map (Json ArtifactRecord)
  pub files : Map Text

pub record Env : Type 0 where
  pub now : ℕ
  pub random : Option Text
  pub reads : Bool
  pub opens : Bool
  pub seeks : Bool
  pub room : ℕ
  pub syncs : Bool
  pub truncates : Bool
  pub saves : Bool
  pub renames : Bool
  pub renames_back : Bool
  pub removes : Bool

pub data Error : Type 0 where
  not_found expired too_large offset_conflict hash_mismatch bad_metadata : Error
  bad_range bad_name bad_size bad_hash short_body long_body io_error incomplete : Error

pub data Reply {ℓ} (A : Type ℓ) : Type ℓ where
  ok : A → Reply A
  err : Error → Reply A

-- NewTransferManager: the options that it takes.
unfoldable pub valid_options : TransferOptions → Bool
valid_options o =
    not (is_empty (trim_space o.directory))
    && ltb 0 o.max_upload_bytes
    && ltb 0 o.max_chunk_bytes
    && leb o.max_chunk_bytes o.max_upload_bytes
    && ltb 0 o.upload_ttl
    && ltb 0 o.artifact_ttl

abbrev pub upload_expired : TransferOptions → ℕ → UploadRecord → Bool
upload_expired o now r = ltb (r.updated_at + o.upload_ttl) now

abbrev pub artifact_expired : ℕ → ArtifactRecord → Bool
artifact_expired now r = ltb r.expires_at now

-- os.Remove, whose error is dropped.
abbrev pub erase_if {ℓ} : {V : Type ℓ} → Bool → Text → Map V → Map V
erase_if b k m = if b then erase k m else m

-- os.File.WriteAt of a text at an offset: a gap is filled with zeros.
unfoldable pub write_at : ℕ → Text → Text → Text
write_at zero bytes file = bytes ++ drop (length bytes) file
write_at (suc n) bytes [] = 0 ∷ write_at n bytes []
write_at (suc n) bytes (c ∷ file) = c ∷ write_at n bytes file

unfoldable pub save_upload : Env → UploadRecord → Store → Bool × Store
save_upload env record' s =
    if env.saves
    then (true, record s { metas = insert record'.id (decoded record') s.metas })
    else (false, s)

unfoldable pub save_artifact : Env → ArtifactRecord → Store → Bool × Store
save_artifact env record' s =
    if env.saves
    then (true, record s { artifacts = insert record'.id (decoded record') s.artifacts })
    else (false, s)
