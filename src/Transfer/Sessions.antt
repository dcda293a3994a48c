-- ===== src/Transfer/Sessions.antt =====
-- An upload of internal/frontend/transfer.go from its creation to its publication.
use zcr521_ai_mcp.Transfer.Completion.{Published, Completed, complete_upload_outcome}
use zcr521_ai_mcp.Transfer.Artifacts.{TransferArtifact, complete_upload}
use mathlib.Core.Path.{subst, sym}
use zcr521_ai_mcp.Transfer.Chunks.{Attempt, attempts, InTime, Progress, attempts-Going}
use zcr521_ai_mcp.Transfer.Files.{take-all}
use zcr521_ai_mcp.Transfer.Syntax.{normalize_sha256, safe_filename, valid_transfer_id}
use zcr521_ai_mcp.Transfer.Log.{Holds}
use zcr521_ai_mcp.Transfer.Data.{
  TransferOptions, Store, save_upload, Env, Reply, UploadRecord, err, ok, upload_expired,
}
use zcr521_ai_mcp.Transfer.Uploads.{
  open_upload, new_upload, create_named, create_hashed, create_with, cleanup_expired, create_upload,
}
use zcr521_ai_mcp.Common.{
  inl, inr, [], Option, ◌≡◌, Text, ◌≤◌, ℕ, Bool-cases, is_some, some, lookup, ◌||◌, ltb, not,
  lookup-insert, none, text_eq_refl, arith, List, refl, true, false, length, ◌⊎◌, ◌∙◌,
}

-- An upload that is created has no data, and is no larger than the limit.
abbrev pub Created : TransferOptions → Store → Reply UploadRecord → Type 0
Created o s (err e) = Unit {0}
Created o s (ok r) = Holds s r [] × (r.total ≤ o.max_upload_bytes) × (r.received ≡ 0)

open_upload-Created :
    (o : TransferOptions) (env : Env) (r : UploadRecord) (s : Store)
    → r.received ≡ 0
    → r.total ≤ o.max_upload_bytes
    → let (s', reply) = open_upload env r s in Created o s' reply
unfolding open_upload save_upload
open_upload-Created o env r s start small =
    elim (Bool-cases (is_some (lookup r.id s.parts) || not env.opens)) [
      | inl refused ↦ simp refused tt
      | inr opened ↦ elim (Bool-cases env.saves) [
        | inr unsaved ↦ simp (opened, unsaved) tt
        | inl saved ↦
            simp (opened, saved)
              (
                record {
                  meta = rw (lookup-insert r.id r.id _ s.metas, text_eq_refl r.id);
                  part = [];
                  stored = rw (lookup-insert r.id r.id _ s.parts, text_eq_refl r.id);
                  holds = record {
                    begins = take-all r.received [] (omega arith);
                    counted = omega arith;
                    covered = omega arith;
                    fits = omega arith;
                  };
                },
                small,
                start,
              )
      ]
    ]

create_with-Created :
    (o : TransferOptions) (env : Env) (name : Text) (size : ℕ) (sha : Text) (s : Store)
    (id : Option Text)
    → size ≤ o.max_upload_bytes
    → let (s', reply) = create_with env name size sha s id in Created o s' reply
unfolding new_upload
create_with-Created o env name size sha s none small = tt
create_with-Created o env name size sha s (some id) small =
    open_upload-Created o env (new_upload id name size sha env.now) s refl small

create_hashed-Created :
    (o : TransferOptions) (env : Env) (name : Text) (size : ℕ) (s : Store) (sha : Option Text)
    → size ≤ o.max_upload_bytes
    → let (s', reply) = create_hashed o env name size s sha in Created o s' reply
create_hashed-Created o env name size s none small = tt
create_hashed-Created o env name size s (some sha) small =
    create_with-Created o env name size sha (cleanup_expired o env s) env.random small

create_named-Created :
    (o : TransferOptions) (env : Env) (name : Option Text) (size : Option ℕ) (sha : Text)
    (s : Store)
    → let (s', reply) = create_named o env size sha s name in Created o s' reply
create_named-Created o env none size sha s = tt
create_named-Created o env (some name) none sha s = tt
create_named-Created o env (some name) (some size) sha s =
    elim (Bool-cases (ltb o.max_upload_bytes size)) [
      | inl large ↦ simp large tt
      | inr small ↦
          simp small (create_hashed-Created o env name size s (normalize_sha256 sha) (ground arith))
    ]

create_upload-Created :
    (o : TransferOptions) (env : Env) (name : Text) (size : Option ℕ) (sha : Text) (s : Store)
    {s' : Store} {r : UploadRecord}
    → create_upload o env name size sha s ≡ (s', ok r)
    → Created o s' (ok r)
unfolding create_upload
create_upload-Created o env name size sha s e =
    subst (λ (x : Store × Reply UploadRecord). Created o x.0 x.1) e
      (create_named-Created o env (safe_filename name) size sha s)

announced :
    {sha sha' actual actual' : Text}
    → sha ≡ sha'
    → actual ≡ actual'
    → (sha' ≡ []) ⊎ (sha' ≡ actual)
    → (sha ≡ []) ⊎ (sha ≡ actual')
announced e f (inl none') = inl (e ∙ none')
announced e f (inr same) = inr (e ∙ same ∙ f)

-- An upload from its creation: after a CreateUpload that succeeds with a valid id, any WriteChunks
-- on it that come before it expires, accepted or refused, with any of the file system's operations
-- failing, and then, before it expires, a CompleteUpload that succeeds where a rename can be taken
-- back, the published file holds exactly the bodies of the accepted chunks in their order; they
-- are as long as was announced at the creation, which is within the limit, and the SHA-256 given
-- out is theirs, and the announced one if there was one.
pub upload_published :
    (digest : Text → Text) (o : TransferOptions) (create_env end_env : Env) (name : Text)
    (size : Option ℕ) (sha : Text) (s₀ s s' : Store) (r : UploadRecord) (chunks : List Attempt)
    (a : TransferArtifact)
    → create_upload o create_env name size sha s₀ ≡ (s, ok r)
    → valid_transfer_id r.id ≡ true
    → let p = attempts o r.id (record { store = s; current = r; accepted = [] }) chunks in
      InTime o r.id (record { store = s; current = r; accepted = [] }) chunks
      → upload_expired o end_env.now p.current ≡ false
      → end_env.renames_back ≡ true
      → complete_upload digest o end_env r.id p.store ≡ (s', ok a)
      → (length p.accepted ≡ r.total)
        × (lookup a.path s'.files ≡ some p.accepted)
        × (a.size ≡ length p.accepted)
        × (a.sha256 ≡ digest p.accepted)
        × ((r.sha256 ≡ []) ⊎ (r.sha256 ≡ a.sha256))
        × (r.total ≤ o.max_upload_bytes)
upload_published digest o create_env end_env name size sha s₀ s s' r chunks a made valid intime
      fresh back done =
    let begin : Progress = record { store = s; current = r; accepted = [] } in
    let created = create_upload-Created o create_env name size sha s₀ made in
    let going = attempts-Going o r.id r.name r.sha256 r.total begin chunks valid intime (record {
      holds = created.0;
      same_id = refl;
      same_name = refl;
      same_sha = refl;
      same_total = refl;
    }) in
    let p = attempts o r.id begin chunks in
    let published : Published digest o p.current p.accepted s' a =
      subst
        (λ (x : Store × Reply TransferArtifact). Completed digest o p.current p.accepted x.0 x.1)
        (subst (λ k. complete_upload digest o end_env k p.store ≡ (s', ok a)) (sym going.same_id)
          done)
        (complete_upload_outcome digest o end_env p.store p.current p.accepted
          (subst (λ k. valid_transfer_id k ≡ true) (sym going.same_id) valid) fresh back
          going.holds) in
    (
      published.whole ∙ going.same_total,
      subst (λ k. lookup k s'.files ≡ some p.accepted) (sym published.path) published.file,
      published.size,
      published.hash,
      announced (sym going.same_sha) (sym published.hash) published.expected,
      created.1,
    )
