-- ===== src/Slip/Store/Files/Claims.antt =====
-- Two processes that claim a message by `TryAcquireProcessing` of `FileStateStore` in
-- app/slip/state_store.go, whose mutex is of one process alone.
use routing_slip_pattern.Common.{
  ℕ, String, true, Option, none, some, ◌≡◌, refl, ap, ◌∙◌, arith, eq_iff, str_eq,
}
use routing_slip_pattern.Common.Int.{ℤ}
use routing_slip_pattern.Common.Dict.{lookup, insert, delete, lookup-delete}
use routing_slip_pattern.Slip.Store.Memory.{ProcessingLease, Result, ok}
use routing_slip_pattern.Slip.Store.Files.{
  Codec, Directory, FileProcessingLock, stale, look, clear, create, claim_file, lock_path, new_lock,
  file_owner,
}

itself : (s : String) → str_eq s s ≡ true
itself s = ground (arith, eq_iff s s)

-- A lock file that is not there is made.
create_new :
    (codec : Codec) (file content : String) (lock : FileProcessingLock) (files : Directory)
    → codec.encode_lock lock ≡ ok content
    → lookup file files ≡ none
    → create codec none none file lock files ≡ (
      ok (some (record { message_id = lock.message_id; owner = lock.owner })),
      insert file content files,
    )
unfolding create
create_new codec file content lock files e gone = rw (e, gone, create) refl

deleted : (file : String) (files : Directory) → lookup file (delete file files) ≡ none
deleted file files = lookup-delete file file files ∙ rw (itself file) refl

-- After a look that found a stale lock, whatever stands there is removed, and the claim holds.
claim_stale :
    (codec : Codec) (lock : FileProcessingLock) (content : String) (files : Directory)
    → codec.encode_lock lock ≡ ok content
    → claim_file codec none none none stale lock files ≡ (
      ok (some (record { message_id = lock.message_id; owner = lock.owner })),
      insert (lock_path lock.message_id) content (delete (lock_path lock.message_id) files),
    )
unfolding claim_file clear
claim_stale codec lock content files e =
    create_new codec (lock_path lock.message_id) content lock
      (delete (lock_path lock.message_id) files) e (deleted (lock_path lock.message_id) files)

-- Where a message's lock file is stale when two processes look at it, and then the first claims the
-- message to its end and after it the second, both claims succeed, whatever time the first has left.
pub claim_file_twice :
    (codec : Codec) (files : Directory) (id owner owner' : String) (ttl ttl' : ℤ) (now later : ℕ)
    (a b : String)
    → look codec now (lock_path id) files ≡ stale
    → look codec later (lock_path id) files ≡ stale
    → codec.encode_lock (new_lock codec id owner ttl now) ≡ ok a
    → codec.encode_lock (new_lock codec id owner' ttl' later) ≡ ok b
    → let (r, files') =
        claim_file codec none none none
          (look codec now (lock_path id) files)
          (new_lock codec id owner ttl now)
          files in
      let (r', files'') =
        claim_file codec none none none
          (look codec later (lock_path id) files)
          (new_lock codec id owner' ttl' later)
          files' in
      (r ≡ ok (some (record { message_id = id; owner = file_owner codec owner })))
      × (r' ≡ ok (some (record { message_id = id; owner = file_owner codec owner' })))
claim_file_twice codec files id owner owner' ttl ttl' now later a b seen seen' wa wb =
    rw (seen, seen')
      (
        ap (λ (q : Result (Option ProcessingLease) × Directory). q.0)
            (claim_stale codec (new_lock codec id owner ttl now) a files wa),
        ap (λ (q : Result (Option ProcessingLease) × Directory). q.0)
            (claim_stale codec (new_lock codec id owner' ttl' later) b _ wb),
      )
