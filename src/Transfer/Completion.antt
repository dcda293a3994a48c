-- ===== src/Transfer/Completion.antt =====
-- CompleteUpload of internal/frontend/transfer.go, and an upload from its creation to its end.
use zcr521_ai_mcp.Transfer.Chunks.{load_upload-Holds}
use zcr521_ai_mcp.Transfer.Files.{take-all}
use zcr521_ai_mcp.Transfer.Log.{PartHolds, Holds}
use zcr521_ai_mcp.Transfer.Syntax.{valid_transfer_id}
use zcr521_ai_mcp.Common.{
  Text, not, ℕ, is_empty, length, ◌&&◌, lookup, ◌≡◌, text_eq, some, sym, true, [], false, ◌⊎◌,
  insert, arith, Bool-cases, none, inl, erase, inr, ◌∙◌, ◌∷◌, lookup-insert, text_eq_iff,
  text_eq_refl, ◌==◌, refl, ap, ==_iff, lookup-erase,
}
use zcr521_ai_mcp.Transfer.Data.{
  TransferOptions, UploadRecord, Store, save_artifact, Env, Reply, err, ok, decoded, upload_expired,
}
use zcr521_ai_mcp.Transfer.Artifacts.{
  publish_part, complete_upload, TransferArtifact, completed_artifact, public_artifact, final_path,
}

-- What a CompleteUpload that succeeds has made of the data.
pub record Published (digest : Text → Text) (o : TransferOptions) (r : UploadRecord) (d : Text)
    (s : Store) (a : TransferArtifact) : Type 0 where
  pub whole : length d ≡ r.total
  pub file : lookup (final_path o r) s.files ≡ some d
  pub path : a.path ≡ final_path o r
  pub size : a.size ≡ length d
  pub hash : a.sha256 ≡ digest d
  pub expected : (r.sha256 ≡ []) ⊎ (r.sha256 ≡ digest d)
  pub moved : lookup r.id s.parts ≡ none

-- A CompleteUpload that fails leaves the upload in progress.
abbrev pub Completed :
    (Text → Text) → TransferOptions → UploadRecord → Text → Store → Reply TransferArtifact → Type 0
Completed digest o r d s (err e) = Holds s r d
Completed digest o r d s (ok a) = Published digest o r d s a

empty-or-same :
    (sha actual : Text)
    → (not (is_empty sha) && not (text_eq sha actual)) ≡ false
    → (sha ≡ []) ⊎ (sha ≡ actual)
empty-or-same [] actual h = inl refl
empty-or-same (c ∷ sha) actual h = inr (ground (arith, text_eq_iff (c ∷ sha) actual))

renamed-Holds :
    (o : TransferOptions) (s s' : Store) (r : UploadRecord) (d part : Text)
    → PartHolds part r.received r.total d
    → lookup r.id s.metas ≡ some (decoded r)
    → s'.parts ≡ insert r.id part (erase r.id s.parts)
    → s'.metas ≡ s.metas
    → Holds s' r d
renamed-Holds o s s' r d part h e p q = record {
  meta = rw q e;
  part = part;
  stored = rw (p, lookup-insert r.id r.id part (erase r.id s.parts), text_eq_refl r.id);
  holds = h;
}

publish_part-Completed :
    (digest : Text → Text) (o : TransferOptions) (env : Env) (s : Store) (r : UploadRecord)
    (d : Text) (h : Holds s r d)
    → r.received ≡ r.total
    → h.part ≡ d
    → env.renames_back ≡ true
    → (r.sha256 ≡ []) ⊎ (r.sha256 ≡ digest d)
    → let (s', reply) = publish_part o env r h.part (digest h.part) s in
      Completed digest o r d s' reply
unfolding publish_part save_artifact completed_artifact public_artifact
publish_part-Completed digest o env s r d h all' same back x = elim (Bool-cases env.renames) [
  | inr stuck ↦ simp stuck h
  | inl renamed ↦ elim (Bool-cases env.saves) [
    | inr unsaved ↦
        simp (renamed, unsaved, back) (renamed-Holds o s _ r d h.part h.holds h.meta refl refl)
    | inl saved ↦
        simp (renamed, saved)
          (record {
            whole = h.holds.counted ∙ all';
            file =
                rw
                  (
                    lookup-insert (final_path o r) (final_path o r) h.part s.files,
                    text_eq_refl (final_path o r),
                  )
                  (ap some same);
            path = refl;
            size = omega (arith, h.holds.counted);
            hash = ap digest same;
            expected = x;
            moved = rw (lookup-erase r.id r.id s.parts, text_eq_refl r.id);
          })
  ]
]

-- The part of an upload whose offset has reached its size is its data.
whole-part :
    (part d : Text) (received total : ℕ)
    → PartHolds part received total d
    → received ≡ total
    → part ≡ d
whole-part part d received total h e =
    sym (take-all received part (omega (arith, h.fits))) ∙ h.begins

-- Of an upload in progress with a valid id and the data `d`, that has not expired, where a rename
-- can be taken back, a CompleteUpload either fails and leaves the upload in progress; or it
-- succeeds, and then the data are as long as was announced, they are what the published file
-- holds, the SHA-256 that is given out is theirs and is the one that was announced, if one was,
-- and the part file is gone.
pub complete_upload_outcome :
    (digest : Text → Text) (o : TransferOptions) (env : Env) (s : Store) (r : UploadRecord)
    (d : Text)
    → valid_transfer_id r.id ≡ true
    → upload_expired o env.now r ≡ false
    → env.renames_back ≡ true
    → Holds s r d
    → let (s', reply) = complete_upload digest o env r.id s in Completed digest o r d s' reply
unfolding complete_upload
complete_upload_outcome digest o env s r d valid fresh back h = elim (Bool-cases env.reads) [
  | inr unread ↦ simp (load_upload-Holds o env s r d valid fresh h, unread) h
  | inl read ↦ elim (Bool-cases (r.received == r.total)) [
    | inr some' ↦ simp (load_upload-Holds o env s r d valid fresh h, read, some') h
    | inl all' ↦ elim (Bool-cases env.opens) [
      | inr closed' ↦
          simp (load_upload-Holds o env s r d valid fresh h, read, all', h.stored, closed') h
      | inl opened ↦
          elim (Bool-cases (not (is_empty r.sha256) && not (text_eq r.sha256 (digest h.part)))) [
            | inl mismatch ↦
                simp
                  (
                    load_upload-Holds o env s r d valid fresh h,
                    read,
                    all',
                    h.stored,
                    opened,
                    mismatch,
                  )
                  h
            | inr match' ↦
                let whole = (==_iff r.received r.total).0 all' in
                let same = whole-part h.part d r.received r.total h.holds whole in
                simp
                  (
                    load_upload-Holds o env s r d valid fresh h,
                    read,
                    all',
                    h.stored,
                    opened,
                    match',
                  )
                  (publish_part-Completed digest o env s r d h whole same back
                    (rw (ap digest same) at (empty-or-same r.sha256 (digest h.part) match')))
          ]
    ]
  ]
]
