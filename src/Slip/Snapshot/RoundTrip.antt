-- ===== src/Slip/Snapshot/RoundTrip.antt =====
-- Saving and restoring a message.
use routing_slip_pattern.Common.{
  String, List, [], ◌∷◌, map, ℕ, ◌≡◌, refl, false, arith, ap, ◌∙◌, some, if◌then◌else◌,
}
use routing_slip_pattern.Common.Text.{is_empty}
use routing_slip_pattern.Slip.Errors.{text, error_text}
use routing_slip_pattern.Slip.Message.{Message, StepError}
use routing_slip_pattern.Slip.Message.Cursor.{IsWithin, set_cursor-IsWithin}
use routing_slip_pattern.Slip.Snapshot.{
  MessageSnapshot, snapshot, message_from_snapshot, saved_error, loaded_error, loaded, err_text,
}

-- An error as it comes back: by its text alone.
abbrev pub as_text : (String → String) → StepError → StepError
as_text quote e = record e { err = some (text (err_text quote e.err)) }

map-loaded-saved :
    (quote : String → String) (es : List StepError)
    → map loaded_error (map (saved_error quote) es) ≡ map (as_text quote) es
unfolding saved_error
map-loaded-saved quote [] = refl
map-loaded-saved quote (e ∷ es) = ap (λ r. as_text quote e ∷ r) (map-loaded-saved quote es)

-- A message with a status and its cursor in range is restored from its snapshot as it was, but for
-- its errors, which come back by their texts.
pub message_from_snapshot-snapshot :
    (quote : String → String) (m : Message) (now : ℕ)
    → IsWithin m
    → is_empty m.status ≡ false
    → message_from_snapshot (snapshot quote m now)
      ≡ record m { errors = map (as_text quote) m.errors }
unfolding message_from_snapshot snapshot
message_from_snapshot-snapshot quote m now h s = ground (arith, map-loaded-saved quote m.errors)

map-saved-as_text :
    (quote : String → String) (es : List StepError)
    → map (saved_error quote) (map (as_text quote) es) ≡ map (saved_error quote) es
unfolding saved_error error_text
map-saved-as_text quote [] = refl
map-saved-as_text quote (e ∷ es) = ap (λ r. saved_error quote e ∷ r) (map-saved-as_text quote es)

-- For a message with a status and its cursor in range, a snapshot of the message restored from its
-- snapshot is the first snapshot again, but for the time of saving.
pub snapshot_stable :
    (quote : String → String) (m : Message) (now later : ℕ)
    → IsWithin m
    → is_empty m.status ≡ false
    → snapshot quote (message_from_snapshot (snapshot quote m now)) later
      ≡ record (snapshot quote m now) { updated_at = later }
snapshot_stable quote m now later h s =
    ap (λ r. snapshot quote r later) (message_from_snapshot-snapshot quote m now h s)
    ∙ unfold snapshot in ground (arith, map-saved-as_text quote m.errors)

loaded_status : (s : String) → is_empty (if is_empty s then "loaded" else s) ≡ false
loaded_status String.[] = refl
loaded_status (String.◌∷◌ c s) = refl

-- Whatever cursor and status a stored snapshot has, the restored message has its cursor in range and
-- a status that is not empty.
pub message_from_snapshot_valid :
    (s : MessageSnapshot)
    → IsWithin (message_from_snapshot s) × (is_empty (message_from_snapshot s).status ≡ false)
unfolding message_from_snapshot
message_from_snapshot_valid s = (set_cursor-IsWithin (loaded s) s.cursor, loaded_status s.status)
