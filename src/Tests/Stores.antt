-- ===== src/Tests/Stores.antt =====
-- The claims about the stores at concrete inputs.
use Prim.Native.String.{◌∷◌, ◌++◌}
use routing_slip_pattern.Common.{
  ℕ, ◌≤◌, if◌then◌else◌, str_eq, String, false, List, none, some, ◌≡◌, ◌≢◌, refl, arith, inl, inr,
  Bool-cases, subst, eq_iff,
}
use routing_slip_pattern.Common.Int.{pos}
use routing_slip_pattern.Common.Dict.{Dict, lookup, insert}
use routing_slip_pattern.Common.Text.{trim_space, is_empty, is_space}
use routing_slip_pattern.Slip.Snapshot.{MessageSnapshot}
use routing_slip_pattern.Slip.Store.Filter.{SnapshotFilter, is_full, list_from, snapshot_matches}
use routing_slip_pattern.Slip.Store.Filter.Lists.{In, here, there, Lists, Passes}
use routing_slip_pattern.Slip.Store.FileName.{
  safe_state_file_name, IsSafe, StartsPlain, safe_state_file_name_lem,
  safe_state_file_name_collision,
}
use routing_slip_pattern.Slip.Store.Memory.{
  ProcessingLease, ok, empty_store, save, list_snapshots, try_acquire_processing, release,
}
use routing_slip_pattern.Slip.Store.Memory.Snapshots.{Enumerates, list_snapshots_sound}
use routing_slip_pattern.Slip.Store.Memory.Locks.{
  Call, saves, acquires, releases, run, AllLeave, claim_exclusive, overrun_breaks_claim,
}
use routing_slip_pattern.Slip.Store.Memory.Refines.{
  Request, answers, promised_answers, view, answers-promised,
}
use routing_slip_pattern.Slip.Store.Files.{
  Codec, Directory, look, stale, lock_path, path, whole, save_file, load_file, claim_file, new_lock,
  file_owner,
}
use routing_slip_pattern.Slip.Store.Files.Laws.{load_file-save_file}
use routing_slip_pattern.Slip.Store.Files.Claims.{claim_file_twice}
use routing_slip_pattern.Tests.Inputs.{stored}

abbrev worker : String
worker = "a"

abbrev rival : String
rival = "b"

abbrev lease : ProcessingLease
lease = record { message_id = "m-1"; owner = worker }

abbrev rival_lease : ProcessingLease
rival_lease = record { message_id = "m-1"; owner = rival }

claimed : (try_acquire_processing none " m-1 " worker (pos 50) 100 empty_store).0 ≡ ok (some lease)
unfolding try_acquire_processing trim_space is_space
claimed = refl

-- A save, a claim that is refused, and a release of a lease that does not hold.
abbrev calls : List Call
calls = List.◌∷◌ (saves none stored) (
    List.◌∷◌ (acquires none "m-1" rival (pos 5) 120) (List.◌∷◌ (releases none rival_lease) List.[]))

calls_leave : AllLeave "m-1" worker 150 calls
calls_leave = (tt, (omega arith, (inr rivals, tt)))
  where
    rivals : rival ≢ worker
    rivals e = ground (arith, eq_iff rival worker, e)

same_id : trim_space "m-1" ≡ trim_space " m-1 "
unfolding trim_space is_space
same_id = refl

given_id : is_empty (trim_space " m-1 ") ≡ false
unfolding trim_space is_space
given_id = refl

claim_exclusive_example :
    (try_acquire_processing none "m-1" rival
      (pos 50)
      149
      (run calls (try_acquire_processing none " m-1 " worker (pos 50) 100 empty_store).1)).0
    ≡ ok none
claim_exclusive_example =
    claim_exclusive " m-1 " "m-1" worker rival (pos 50) (pos 50) 100 149 empty_store lease calls
      claimed calls_leave same_id given_id (omega arith)

reclaimed :
    (try_acquire_processing none " m-1 " worker
      (pos 50)
      160
      (try_acquire_processing none " m-1 " worker (pos 50) 100 empty_store).1).0
    ≡ ok (some lease)
unfolding try_acquire_processing trim_space is_space lookup insert
reclaimed = refl

overrun_breaks_claim_example :
    (try_acquire_processing none "m-1" rival
      (pos 50)
      170
      (release none lease
        (try_acquire_processing none " m-1 " worker
          (pos 50)
          160
          (try_acquire_processing none " m-1 " worker (pos 50) 100 empty_store).1).1).1).0
    ≡ ok (some (record { message_id = trim_space " m-1 "; owner = rival }))
overrun_breaks_claim_example =
    overrun_breaks_claim " m-1 " "m-1" worker rival (pos 50) (pos 50) 100 160 170 empty_store lease
      lease claimed reclaimed same_id given_id

abbrev by_workflow : SnapshotFilter
by_workflow = record {
  message_id = "";
  correlation_id = "";
  trace_id = "";
  workflow = "orders";
  status = "";
  from = 0;
  to = 0;
  limit = pos 1;
}

in_order : Dict MessageSnapshot → List MessageSnapshot
in_order List.[] = List.[]
in_order (List.◌∷◌ (k, s) m) = List.◌∷◌ s (in_order m)

abbrev listed : List MessageSnapshot
listed = List.◌∷◌ stored List.[]

list_snapshots-stored :
    list_snapshots none by_workflow in_order (save none stored empty_store).1 ≡ ok listed
unfolding list_snapshots in_order save insert list_from snapshot_matches
list_snapshots-stored = refl

the_one :
    (id : String) (s : MessageSnapshot)
    → lookup id (save none stored empty_store).1.snapshots ≡ some s
    → In s listed
unfolding lookup save insert
the_one id s e = elim (Bool-cases (str_eq id "m-1")) [
  | inl same ↦
      let q : stored ≡ s = ground (arith, e, same) in
      subst (λ (x : MessageSnapshot). In x listed) q here
  | inr other ↦ absurd (ground (arith, e, other))
]

one_stored :
    (s : MessageSnapshot)
    → In s listed
    → (id : String) × (lookup id (save none stored empty_store).1.snapshots ≡ some s)
unfolding lookup save insert
one_stored s here = ("m-1", refl)
one_stored s (there i) = elim i [ ]

all_in_order :
    Enumerates
      (save none stored empty_store).1.snapshots
      (in_order (save none stored empty_store).1.snapshots)
unfolding in_order save insert
all_in_order = record { are_stored = one_stored; are_listed = the_one }

list_snapshots_sound_example :
    Lists by_workflow List.[] (in_order (save none stored empty_store).1.snapshots) listed
    × ((s : MessageSnapshot)
        → In s listed
        → Passes by_workflow s
          × ((id : String) × (lookup id (save none stored empty_store).1.snapshots ≡ some s)))
    × (is_full by_workflow listed ≡ false
        → (id : String) (s : MessageSnapshot)
        → lookup id (save none stored empty_store).1.snapshots ≡ some s
        → Passes by_workflow s
        → In s listed)
list_snapshots_sound_example =
    list_snapshots_sound by_workflow in_order (save none stored empty_store).1 listed all_in_order
      list_snapshots-stored

safe_state_file_name_lem_example :
    IsSafe (safe_state_file_name "../orders/7") × StartsPlain (safe_state_file_name "../orders/7")
safe_state_file_name_lem_example = safe_state_file_name_lem "../orders/7"

slash_trimmed : trim_space "a/b" ≡ "a" ++ ("/" ∷ "b")
unfolding trim_space is_space
slash_trimmed = refl

low_line_trimmed : trim_space "a_b" ≡ "a" ++ ("_" ∷ "b")
unfolding trim_space is_space
low_line_trimmed = refl

safe_state_file_name_collision_example : safe_state_file_name "a/b" ≡ safe_state_file_name "a_b"
safe_state_file_name_collision_example =
    safe_state_file_name_collision "a/b" "a_b" "a" "b" "/" slash_trimmed low_line_trimmed refl

-- A claim, a save, a rival's claim that is refused, a load, and the release.
abbrev requests : List Request
requests = List.◌∷◌ (Request.acquires none "m-1" worker (pos 50) 100) (
    List.◌∷◌ (Request.saves none stored) (
      List.◌∷◌ (Request.acquires none "m-1" rival (pos 50) 120)
        (List.◌∷◌ (Request.loads none "m-1") (List.◌∷◌ (Request.releases none lease) List.[]))))

answers-promised_example :
    answers requests empty_store ≡ promised_answers requests (view empty_store)
answers-promised_example = answers-promised requests empty_store

-- A codec for one snapshot and one lock, which has run out at 50.
abbrev codec : Codec
codec = record {
  encode = λ s. ok "state";
  decode = λ t. ok stored;
  encode_lock = λ l. ok "claim";
  decode_lock =
      λ t. some (record { message_id = "m-1"; owner = worker; acquired_at = 10; expires_at = 50 });
}

load_file-save_file_example :
    load_file codec none none "m-2" (save_file codec none whole none stored List.[]).1 ≡ (
      if str_eq (path stored.id) (path "m-2")
      then ok stored
      else load_file codec none none "m-2" List.[])
load_file-save_file_example = load_file-save_file codec stored "state" "m-2" List.[] refl refl

abbrev directory : Directory
directory = List.◌∷◌ ("m-1.lock", "claim") List.[]

looked : (now : ℕ) → 50 ≤ now → look codec now (lock_path "m-1") directory ≡ stale
unfolding look lock_path safe_state_file_name is_space
looked now h = ground (arith, h)

claim_file_twice_example :
    let (r, files') =
      claim_file codec none none none
        (look codec 100 (lock_path "m-1") directory)
        (new_lock codec "m-1" worker (pos 50) 100)
        directory in
    let (r', files'') =
      claim_file codec none none none
        (look codec 101 (lock_path "m-1") directory)
        (new_lock codec "m-1" rival (pos 50) 101)
        files' in
    (r ≡ ok (some (record { message_id = "m-1"; owner = file_owner codec worker })))
    × (r' ≡ ok (some (record { message_id = "m-1"; owner = file_owner codec rival })))
claim_file_twice_example =
    claim_file_twice codec directory "m-1" worker rival (pos 50) (pos 50) 100 101 "claim" "claim"
      (looked 100 (omega arith)) (looked 101 (omega arith)) refl refl
