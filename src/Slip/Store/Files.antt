-- ===== src/Slip/Store/Files.antt =====
-- `FileStateStore` of app/slip/state_store.go. The directory is an association list from names to
-- texts and holds plain files alone. Its name is a prefix that all paths share and is left out. The
-- JSON codec is given, and each call of package os has an argument that says whether and how it fails.
pub mod Laws
pub mod Claims
use Prim.Native.String
use Prim.Native.String.{◌++◌}
use routing_slip_pattern.Common.{
  ℕ, ◌+◌, String, Bool, true, false, ◌||◌, List, [], ◌∷◌, ◌++◌ as append, Option, none, some,
  str_eq, ltb, not, if◌then◌else◌,
}
use routing_slip_pattern.Common.Int.{ℤ}
use routing_slip_pattern.Common.Text.{trim_space, is_empty}
use routing_slip_pattern.Common.Dict.{Dict, lookup, insert, delete}
use routing_slip_pattern.Slip.Errors.{GoError, state_not_found, id_required}
use routing_slip_pattern.Slip.Snapshot.{MessageSnapshot}
use routing_slip_pattern.Slip.Store.Filter.{SnapshotFilter, snapshot_matches, is_full}
use routing_slip_pattern.Slip.Store.FileName.{safe_state_file_name}
use routing_slip_pattern.Slip.Store.Memory.{ProcessingLease, Result, ok, err, lock_ttl}

pub record FileProcessingLock : Type 0 where
  pub message_id : String
  pub owner : String
  pub acquired_at : ℕ
  pub expires_at : ℕ

-- `json.MarshalIndent`, `json.Marshal` and `json.Unmarshal` at the two types.
pub record Codec : Type 0 where
  pub encode : MessageSnapshot → Result String
  pub decode : String → Result MessageSnapshot
  pub encode_lock : FileProcessingLock → Result String
  pub decode_lock : String → Option FileProcessingLock

-- The directory's files.
abbrev pub Directory : Type 0
Directory = Dict String

unfoldable pub path : String → String
unfolding safe_state_file_name
path message_id = safe_state_file_name message_id ++ ".json"

unfoldable pub lock_path : String → String
unfolding safe_state_file_name
lock_path message_id = safe_state_file_name message_id ++ ".lock"

-- `os.WriteFile` that fails leaves some part of the text in the file.
pub data Wrote : Type 0 where
  whole : Wrote
  partly : GoError → String → Wrote

-- How a call of package os ends: without an error, or with one and no effect.
abbrev pub Fault : Type 0
Fault = Option GoError

-- What `TryAcquireProcessing` makes of the lock file that it reads.
pub data Look : Type 0 where
  held : Look
  stale : Look
  absent : Look

abbrev pub look_at : ℕ → Option FileProcessingLock → Look
look_at now none = stale
look_at now (some l) = if ltb now l.expires_at then held else stale

-- `strings.HasSuffix`.
unfoldable pub has_suffix : (suffix s : String) → Bool
has_suffix suffix String.[] = is_empty suffix
has_suffix suffix (String.◌∷◌ c s) = str_eq (String.◌∷◌ c s) suffix || has_suffix suffix s

module _ (codec : Codec) where
  unfoldable pub replace_file : Wrote → Fault → String → String → Directory → Fault × Directory
  unfolding insert delete
  replace_file (partly e part) renamed file content files =
      (some e, insert (file ++ ".tmp") part files)
  replace_file whole (some e) file content files = (some e, insert (file ++ ".tmp") content files)
  replace_file whole none file content files =
      (none, insert file content (delete (file ++ ".tmp") (insert (file ++ ".tmp") content files)))

  -- `Save`.
  unfoldable pub save_file : Fault → Wrote → Fault → MessageSnapshot → Directory → Fault × Directory
  unfolding path replace_file
  save_file (some e) wrote renamed s files = (some e, files)
  save_file none wrote renamed s files = elim (codec.encode s) [
    | err e ↦ (some e, files)
    | ok content ↦ replace_file wrote renamed (path s.id) content files
  ]

  -- `Load`; `unread` is an error of `os.ReadFile` other than a missing file.
  unfoldable pub load_file : Fault → Fault → String → Directory → Result MessageSnapshot
  unfolding path lookup
  load_file (some e) unread id files = err e
  load_file none (some e) id files = err e
  load_file none none id files = elim (lookup (path id) files) [
    | none ↦ err (state_not_found id)
    | some content ↦ codec.decode content
  ]

  -- The loop of `List` over the entries, by name and text, with the result so far.
  unfoldable pub list_files_from :
      SnapshotFilter
      → (String → Fault)
      → List MessageSnapshot
      → Directory
      → Result (List MessageSnapshot)
  unfolding snapshot_matches has_suffix
  list_files_from f unread out [] = ok out
  list_files_from f unread out ((name, content) ∷ entries) =
      let next = λ (so_far : List MessageSnapshot). list_files_from f unread so_far entries in
      let taken = λ (s : MessageSnapshot).
        let longer = append out (s ∷ []) in if is_full f longer then ok longer else next longer in
      let read : Result (List MessageSnapshot) = elim (unread name) [
        | some e ↦ err e
        | none ↦ elim (codec.decode content) [
          | err e ↦ err e
          | ok s ↦ if snapshot_matches s f then taken s else next out
        ]
      ] in
      if has_suffix ".json" name then read else next out

  unfoldable pub look : ℕ → String → Directory → Look
  unfolding lookup
  look now file files = elim (lookup file files) [
    | none ↦ absent
    | some content ↦ look_at now (codec.decode_lock content)
  ]

  -- A stale lock file is removed; an error of the removal is not looked at.
  unfoldable pub clear : Fault → Look → String → Directory → Directory
  unfolding delete
  clear none stale file files = delete file files
  clear removed seen file files = files

  -- The new lock file, by `O_EXCL`; where writing or closing it fails, it is removed.
  unfoldable pub create :
      Fault
      → Fault
      → String
      → FileProcessingLock
      → Directory
      → Result (Option ProcessingLease) × Directory
  unfolding lookup insert
  create opened wrote file lock files = elim (codec.encode_lock lock) [
    | err e ↦ (err e, files)
    | ok content ↦ elim opened [
      | some e ↦ (err e, files)
      | none ↦ elim (lookup file files) [
        | some other ↦ (ok none, files)
        | none ↦ elim wrote [
          | some e ↦ (err e, files)
          | none ↦ (
            ok (some (record { message_id = lock.message_id; owner = lock.owner })),
            insert file content files,
          )
        ]
      ]
    ]
  ]

  abbrev pub file_owner : String → String
  file_owner owner = if is_empty owner then "file" else owner

  abbrev pub new_lock : (id owner : String) → ℤ → ℕ → FileProcessingLock
  new_lock id owner ttl now = record {
    message_id = id;
    owner = file_owner owner;
    acquired_at = now;
    expires_at = now + lock_ttl ttl;
  }

  -- Behind the look at the lock file.
  unfoldable pub claim_file :
      Fault
      → Fault
      → Fault
      → Look
      → FileProcessingLock
      → Directory
      → Result (Option ProcessingLease) × Directory
  unfolding clear create lock_path
  claim_file removed opened wrote held lock files = (ok none, files)
  claim_file removed opened wrote seen lock files =
      let file = lock_path lock.message_id in
      create opened wrote file lock (clear removed seen file files)

  -- `TryAcquireProcessing`.
  unfoldable pub acquire_file :
      Fault
      → Fault
      → Fault
      → Fault
      → Fault
      → (message_id owner : String) → ℤ
      → ℕ
      → Directory
      → Result (Option ProcessingLease) × Directory
  unfolding trim_space look claim_file lock_path
  acquire_file ended unread removed opened wrote message_id owner ttl now files =
      let id = trim_space message_id in
      elim ended [
        | some e ↦ (err e, files)
        | none ↦ if is_empty id then (err id_required, files) else (elim unread [
          | some e ↦ (err e, files)
          | none ↦
              claim_file removed opened wrote (look now (lock_path id) files)
                (new_lock id owner ttl now) files
        ])
      ]

  abbrev owned : String → Option FileProcessingLock → Bool
  owned owner none = true
  owned owner (some l) = str_eq l.owner owner

  -- `Release`: a lock file that cannot be decoded is removed too.
  unfoldable pub release_file :
      Fault → Fault → Fault → ProcessingLease → Directory → Fault × Directory
  unfolding lookup delete lock_path
  release_file (some e) unread removed lease files = (some e, files)
  release_file none (some e) removed lease files = (some e, files)
  release_file none none removed lease files = elim (lookup (lock_path lease.message_id) files) [
    | none ↦ (none, files)
    | some content ↦
        if owned lease.owner (codec.decode_lock content)
        then (elim removed [
          | some e ↦ (some e, files)
          | none ↦ (none, delete (lock_path lease.message_id) files)
        ])
        else (none, files)
  ]
