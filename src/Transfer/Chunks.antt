-- ===== src/Transfer/Chunks.antt =====
-- WriteChunk of internal/frontend/transfer.go, from the header to the record.
use mathlib.Core.Path.{subst, sym}
use zcr521_ai_mcp.Transfer.Syntax.{valid_transfer_id, parse_content_range}
use zcr521_ai_mcp.Transfer.Log.{Holds, Appended, append_chunk-Appended}
use zcr521_ai_mcp.Common.{
  ℕ, Text, ◌≡◌, ◌+◌, true, ◌≤◌, false, lookup, Bool-cases, if◌then◌else◌, ◌&&◌, not, inl, ◌==◌,
  ◌||◌, text_eq_refl, inr, leb, arith, ◌<◌, Bool, Option, List, ◌-◌, ◌++◌, ◌∷◌, ◌∙◌, some, [], ltb,
  none,
}
use zcr521_ai_mcp.Transfer.Uploads.{
  load_upload, Body, write_loaded, write_part, write_chunk, write_range,
}
use zcr521_ai_mcp.Transfer.Data.{
  Env, TransferOptions, UploadRecord, Store, ok, upload_expired, err, io_error, Reply,
}

-- An upload in progress is loaded as it is, or cannot be read.
pub load_upload-Holds :
    (o : TransferOptions) (env : Env) (s : Store) (r : UploadRecord) (d : Text)
    → valid_transfer_id r.id ≡ true
    → upload_expired o env.now r ≡ false
    → Holds s r d
    → load_upload o env r.id s ≡ (s, if env.reads then ok r else err io_error)
unfolding load_upload
load_upload-Holds o env s r d valid fresh h = elim (Bool-cases env.reads) [
  | inl readable ↦ simp (valid, h.meta, readable, text_eq_refl r.id, fresh)
  | inr unreadable ↦ simp (valid, h.meta, unreadable)
]

write_part-Appended :
    (env : Env) (r : UploadRecord) (count : ℕ) (body : Body) (s : Store) (d : Text)
    → Holds s r d
    → r.received + count ≤ r.total
    → let (s', reply) = write_part env r r.received count body s (lookup r.id s.parts) in
      Appended r d body s' reply
write_part-Appended env r count body s d h fits = elim (Bool-cases (env.opens && env.seeks)) [
  | inl opened ↦
      simp (h.stored, opened)
        (append_chunk-Appended env r count body h.part d s h.meta h.holds fits)
  | inr failed ↦ simp (h.stored, failed) h
]

write_loaded-Appended :
    (env : Env) (start last total : ℕ) (r : UploadRecord) (body : Body) (s : Store) (d : Text)
    → Holds s r d
    → let (s', reply) = write_loaded env start last total body (s, ok r) in
      Appended r d body s' reply
write_loaded-Appended env start last total r body s d h =
    elim (Bool-cases (not (total == r.total) || not (start == r.received) || leb r.total last)) [
      | inl conflict ↦ simp conflict h
      | inr fits ↦
          let same : start ≡ r.received = ground arith in
          let below : last < r.total = ground arith in
          let room : r.received + (last + 1 - r.received) ≤ r.total =
            omega (arith, h.holds.covered, h.holds.fits) in
          simp fits (rw same (write_part-Appended env r (last + 1 - r.received) body s d h room))
    ]

write_reply-Appended :
    (start last total : ℕ) (env : Env) (r : UploadRecord) (body : Body) (s : Store) (d : Text)
    → Holds s r d
    → (b : Bool)
    → let (s', reply) =
        write_loaded env start last total body (s, if b then ok r else err io_error) in
      Appended r d body s' reply
write_reply-Appended start last total env r body s d h true =
    write_loaded-Appended env start last total r body s d h
write_reply-Appended start last total env r body s d h false = h

write_range-Appended :
    (o : TransferOptions) (env : Env) (r : UploadRecord) (body : Body) (s : Store) (d : Text)
    (range : Option (ℕ × ℕ × ℕ))
    → valid_transfer_id r.id ≡ true
    → upload_expired o env.now r ≡ false
    → Holds s r d
    → let (s', reply) = write_range o env r.id body s range in Appended r d body s' reply
write_range-Appended o env r body s d none valid fresh h = h
write_range-Appended o env r body s d (some (start, last, total)) valid fresh h =
    elim (Bool-cases (ltb o.max_chunk_bytes (last + 1 - start))) [
      | inl large ↦ simp large h
      | inr small ↦
          simp (small, load_upload-Holds o env s r d valid fresh h)
            (write_reply-Appended start last total env r body s d h env.reads)
    ]

-- Of an upload in progress with a valid id that has not expired, and whose data are so far `d`, a
-- WriteChunk with any header and any body, and any of the file system's operations failing, either
-- answers with an error and leaves the upload in progress with the data `d`; or it answers with
-- the record whose offset has grown by the length of the body and which is otherwise, but for its
-- time, the same, and the data are `d` with the body behind it.
pub write_chunk_appends :
    (o : TransferOptions) (env : Env) (content_range : Text) (body : Body) (s : Store)
    (r : UploadRecord) (d : Text)
    → valid_transfer_id r.id ≡ true
    → upload_expired o env.now r ≡ false
    → Holds s r d
    → let (s', reply) = write_chunk o env r.id content_range body s in Appended r d body s' reply
unfolding write_chunk
write_chunk_appends o env content_range body s r d valid fresh h =
    write_range-Appended o env r body s d (parse_content_range content_range) valid fresh h

-- A sequence of WriteChunks on one upload.
pub record Attempt : Type 0 where
  pub env : Env
  pub content_range : Text
  pub body : Body

abbrev next_record : UploadRecord → Reply UploadRecord → UploadRecord
next_record r (err e) = r
next_record r (ok r') = r'

abbrev next_data : Text → Body → Reply UploadRecord → Text
next_data d body (err e) = d
next_data d body (ok r') = d ++ body.bytes

-- The client's side of it: the last record, and the bodies of the chunks that were accepted.
pub record Progress : Type 0 where
  pub store : Store
  pub current : UploadRecord
  pub accepted : Text

abbrev pub attempt : TransferOptions → Text → Progress → Attempt → Progress
attempt o id p a =
    let (s, reply) = write_chunk o a.env id a.content_range a.body p.store in
    record {
      store = s;
      current = next_record p.current reply;
      accepted = next_data p.accepted a.body reply;
    }

unfoldable pub attempts : TransferOptions → Text → Progress → List Attempt → Progress
attempts o id p [] = p
attempts o id p (a ∷ rest) = attempts o id (attempt o id p a) rest

-- No attempt comes after the upload has expired, by the record that stands then.
abbrev pub InTime : TransferOptions → Text → Progress → List Attempt → Type 0
InTime o id p [] = Unit {0}
InTime o id p (a ∷ rest) =
    (upload_expired o a.env.now p.current ≡ false) × InTime o id (attempt o id p a) rest

pub record Going (id : Text) (name sha : Text) (total : ℕ) (p : Progress) : Type 0 where
  pub holds : Holds p.store p.current p.accepted
  pub same_id : p.current.id ≡ id
  pub same_name : p.current.name ≡ name
  pub same_sha : p.current.sha256 ≡ sha
  pub same_total : p.current.total ≡ total

answered-Going :
    (id name sha : Text) (total : ℕ) (p : Progress) (body : Body) (s : Store)
    (reply : Reply UploadRecord)
    → Going id name sha total p
    → Appended p.current p.accepted body s reply
    → Going id name sha total (record {
      store = s;
      current = next_record p.current reply;
      accepted = next_data p.accepted body reply;
    })
answered-Going id name sha total p body s (err e) g a = record {
  holds = a;
  same_id = g.same_id;
  same_name = g.same_name;
  same_sha = g.same_sha;
  same_total = g.same_total;
}
answered-Going id name sha total p body s (ok r') g a = record {
  holds = a.0;
  same_id = a.1 ∙ g.same_id;
  same_name = a.2 ∙ g.same_name;
  same_sha = a.4 ∙ g.same_sha;
  same_total = a.3 ∙ g.same_total;
}

attempt-Going :
    (o : TransferOptions) (id name sha : Text) (total : ℕ) (p : Progress) (a : Attempt)
    → valid_transfer_id id ≡ true
    → upload_expired o a.env.now p.current ≡ false
    → Going id name sha total p
    → Going id name sha total (attempt o id p a)
attempt-Going o id name sha total p a valid fresh g =
    answered-Going id name sha total p a.body _ _ g (
      subst
        (λ k.
          let (s', reply) = write_chunk o a.env k a.content_range a.body p.store in
          Appended p.current p.accepted a.body s' reply)
        g.same_id
        (write_chunk_appends o a.env a.content_range a.body p.store p.current p.accepted
          (subst (λ k. valid_transfer_id k ≡ true) (sym g.same_id) valid) fresh g.holds))

pub attempts-Going :
    (o : TransferOptions) (id name sha : Text) (total : ℕ) (p : Progress) (as' : List Attempt)
    → valid_transfer_id id ≡ true
    → InTime o id p as'
    → Going id name sha total p
    → Going id name sha total (attempts o id p as')
unfolding attempts
attempts-Going o id name sha total p [] valid fresh g = g
attempts-Going o id name sha total p (a ∷ rest) valid fresh g =
    attempts-Going o id name sha total (attempt o id p a) rest valid fresh.1
      (attempt-Going o id name sha total p a valid fresh.0 g)
