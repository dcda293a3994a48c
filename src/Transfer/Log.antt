-- ===== src/Transfer/Log.antt =====
-- The uploads of internal/frontend/transfer.go as logs: the data of an upload is what its accepted
-- chunks brought, in order, and it is the beginning of its part file.
use zcr521_ai_mcp.Transfer.Files.{
  take-write_at_all, take-take, take-write_at, length-write_at, take-all,
}
use zcr521_ai_mcp.Transfer.Data.{
  Store, UploadRecord, Env, save_upload, Reply, err, decoded, ok, write_at,
}
use zcr521_ai_mcp.Transfer.Uploads.{append_chunk, Body, cut_back}
use zcr521_ai_mcp.Common.{
  Text, Bool, ℕ, lookup, take, ◌≡◌, ◌+◌, length, some, ◌≤◌, if◌then◌else◌, ◌++◌, lookup-insert, ◌∙◌,
  text_eq_refl, ap, arith, length-append, length-take, true, false, insert, min, Bool-cases, refl,
  ltb, inl, inr, ◌||◌, not,
}

-- A part file that begins with the data, and is no longer than the upload will be.
pub record PartHolds (part : Text) (received total : ℕ) (d : Text) : Type 0 where
  pub begins : take received part ≡ d
  pub counted : length d ≡ received
  pub covered : received ≤ length part
  pub fits : length part ≤ total

-- The upload of a record is in progress in a store, with this data.
pub record Holds (s : Store) (r : UploadRecord) (d : Text) : Type 0 where
  pub meta : lookup r.id s.metas ≡ some (decoded r)
  pub part : Text
  pub stored : lookup r.id s.parts ≡ some part
  pub holds : PartHolds part r.received r.total d

-- A chunk written in full.
written-PartHolds :
    (part bytes d : Text) (received total : ℕ)
    → PartHolds part received total d
    → received + length bytes ≤ total
    → PartHolds (write_at received bytes part) (received + length bytes) total (d ++ bytes)
written-PartHolds part bytes d received total h fits = record {
  begins = take-write_at_all received bytes part h.covered ∙ ap (λ x. x ++ bytes) h.begins;
  counted = omega (arith, length-append d bytes, h.counted);
  covered = omega (arith, length-write_at received bytes part h.covered);
  fits = omega (arith, length-write_at received bytes part h.covered, h.fits);
}

-- A chunk given up, whether the file is cut back or not.
cut-PartHolds :
    (truncates : Bool) (part bytes d : Text) (received total : ℕ)
    → PartHolds part received total d
    → received + length bytes ≤ total
    → PartHolds
        (if truncates
          then take received (write_at received bytes part)
          else write_at received bytes part)
        received
        total
        d
cut-PartHolds true part bytes d received total h fits = record {
  begins =
      take-take received (write_at received bytes part)
      ∙ take-write_at received bytes part h.covered
      ∙ h.begins;
  counted = h.counted;
  covered = omega (
    arith,
    length-take received (write_at received bytes part),
    length-write_at received bytes part h.covered,
  );
  fits = omega (
    arith,
    length-take received (write_at received bytes part),
    length-write_at received bytes part h.covered,
    h.covered,
    h.fits,
  );
}
cut-PartHolds false part bytes d received total h fits = record {
  begins = take-write_at received bytes part h.covered ∙ h.begins;
  counted = h.counted;
  covered = omega (arith, length-write_at received bytes part h.covered);
  fits = omega (arith, length-write_at received bytes part h.covered, h.fits);
}

-- What an answered WriteChunk has done: appended the body, or nothing.
abbrev pub Appended : UploadRecord → Text → Body → Store → Reply UploadRecord → Type 0
Appended r d body s (err e) = Holds s r d
Appended r d body s (ok r') =
    Holds s r' (d ++ body.bytes)
    × (r'.id ≡ r.id)
    × (r'.name ≡ r.name)
    × (r'.total ≡ r.total)
    × (r'.sha256 ≡ r.sha256)
    × (r'.received ≡ r.received + length body.bytes)

cut_back-Holds :
    (env : Env) (s : Store) (r : UploadRecord) (d part bytes : Text)
    → lookup r.id s.metas ≡ some (decoded r)
    → PartHolds part r.received r.total d
    → r.received + length bytes ≤ r.total
    → Holds (cut_back env r.id r.received (write_at r.received bytes part) s) r d
cut_back-Holds env s r d part bytes e h fits = record {
  meta = e;
  part =
      if env.truncates
      then take r.received (write_at r.received bytes part)
      else write_at r.received bytes part;
  stored = rw (lookup-insert r.id r.id _ s.parts, text_eq_refl r.id);
  holds = cut-PartHolds env.truncates part bytes d r.received r.total h fits;
}

-- A chunk whose record is saved.
saved-Appended :
    (now : ℕ) (r : UploadRecord) (written : ℕ) (body : Body) (old d : Text) (s : Store)
    → PartHolds old r.received r.total d
    → r.received + written ≤ r.total
    → length body.bytes ≡ written
    → let r' : UploadRecord = record r { received = r.received + written; updated_at = now } in
      Appended r d body
        (record s {
          parts = insert r.id (write_at r.received (take written body.bytes) old) s.parts;
          metas = insert r.id (decoded r') s.metas;
        })
        (ok r')
saved-Appended now r written body old d s h fits all' = (
  record {
    meta = rw (lookup-insert r.id r.id _ s.metas, text_eq_refl r.id);
    part = write_at r.received (take written body.bytes) old;
    stored = rw (lookup-insert r.id r.id _ s.parts, text_eq_refl r.id);
    holds =
        rw (take-all written body.bytes (omega arith), ← all')
          (written-PartHolds old body.bytes d r.received r.total h (omega arith));
  },
  refl,
  refl,
  refl,
  refl,
  rw all',
)

pub append_chunk-Appended :
    (env : Env) (r : UploadRecord) (count : ℕ) (body : Body) (old d : Text) (s : Store)
    → lookup r.id s.metas ≡ some (decoded r)
    → PartHolds old r.received r.total d
    → r.received + count ≤ r.total
    → let (s', reply) = append_chunk env r r.received count body old s in Appended r d body s' reply
unfolding append_chunk save_upload
append_chunk-Appended env r count body old d s e h fits =
    let written = min (min count (length body.bytes)) env.room in
    let bytes = take written body.bytes in
    let inside : r.received + length bytes ≤ r.total =
      omega (arith, length-take written body.bytes) in
    let cut = cut_back-Holds env s r d old bytes e h inside in
    let s' : Store = record s { parts = insert r.id (write_at r.received bytes old) s.parts } in
    elim (Bool-cases (ltb written count)) [
      | inl short ↦ simp short cut
      | inr whole ↦ elim (Bool-cases (ltb count (length body.bytes) || not body.clean)) [
        | inl long ↦ simp (whole, long) cut
        | inr exact ↦ elim (Bool-cases env.syncs) [
          | inr fails ↦ simp (whole, exact, fails) cut
          | inl synced ↦ elim (Bool-cases env.saves) [
            | inl saved ↦
                simp (whole, exact, synced, saved)
                  (saved-Appended env.now r written body old d s h (ground arith) (ground arith))
            | inr unsaved ↦
                simp (whole, exact, synced, unsaved)
                  (cut_back-Holds env s' r d old bytes e h inside)
          ]
        ]
      ]
    ]
