-- ===== src/Slip/Store/Files/Laws.antt =====
-- Saving and loading by `FileStateStore` of app/slip/state_store.go.
use Prim.Native.Char.{Char, code}
use Prim.Native.String.{◌++◌, [], ◌∷◌}
use text.Mathlib.TextLemmas.{nil-append, cons-append}
use routing_slip_pattern.Common.{
  ℕ, String, false, Option, none, some, ◌≡◌, refl, ap, sym, ◌∙◌, arith, str_eq, eq_iff, Bool-cases,
  inl, inr, if◌then◌else◌,
}
use routing_slip_pattern.Common.Text.{is_empty}
use routing_slip_pattern.Common.Dict.{lookup, insert, delete, lookup-insert, lookup-delete}
use routing_slip_pattern.Slip.Errors.{GoError}
use routing_slip_pattern.Slip.Snapshot.{MessageSnapshot}
use routing_slip_pattern.Slip.Store.FileName.{safe_state_file_name}
use routing_slip_pattern.Slip.Store.Memory.{ok}
use routing_slip_pattern.Slip.Store.Files.{
  Codec, Directory, path, whole, replace_file, save_file, load_file,
}

-- The code point at the end of a text, 0 of an empty one.
last_code : String → ℕ
last_code [] = 0
last_code (c ∷ s) = if is_empty s then code c else last_code s

last_code-cons : (c : Char) (s : String) → is_empty s ≡ false → last_code (c ∷ s) ≡ last_code s
unfolding last_code
last_code-cons c s e = rw e refl

append-nonempty : (s t : String) → is_empty t ≡ false → is_empty (s ++ t) ≡ false
append-nonempty [] t e = rw (nil-append t) e
append-nonempty (c ∷ s) t e = rw (cons-append c s t) refl

last_code-append : (s t : String) → is_empty t ≡ false → last_code (s ++ t) ≡ last_code t
last_code-append [] t e = ap last_code (nil-append t)
last_code-append (c ∷ s) t e =
    ap last_code (cons-append c s t)
    ∙ last_code-cons c (s ++ t) (append-nonempty s t e)
    ∙ last_code-append s t e

-- No state file is the temporary file of another one.
other_end : (a b : String) → str_eq (a ++ ".tmp") (b ++ ".json") ≡ false
unfolding last_code
other_end a b = elim (Bool-cases (str_eq (a ++ ".tmp") (b ++ ".json"))) [
  | inl e ↦
      let same : a ++ ".tmp" ≡ b ++ ".json" =
        ground (arith, eq_iff (a ++ ".tmp") (b ++ ".json"), e) in
      let ends : ◌≡◌ {A = ℕ} 112 110 =
        sym (last_code-append a ".tmp" refl)
        ∙ ap last_code same
        ∙ last_code-append b ".json" refl in
      absurd (omega (arith, ends))
  | inr e ↦ e
]

module _ (codec : Codec) where
  -- What a load reads once a text has replaced a state file.
  lookup-replace_file :
      (file content : String) (files : Directory) (id : String)
      → lookup (path id) (replace_file codec whole none file content files).1
        ≡ (if str_eq file (path id) then some content else lookup (path id) files)
  unfolding replace_file path
  lookup-replace_file file content files id =
      rw
        (
          lookup-insert file (safe_state_file_name id ++ ".json") content
              (delete (file ++ ".tmp") (insert (file ++ ".tmp") content files)),
          lookup-delete (file ++ ".tmp") (safe_state_file_name id ++ ".json")
              (insert (file ++ ".tmp") content files),
          lookup-insert (file ++ ".tmp") (safe_state_file_name id ++ ".json") content files,
          other_end file (safe_state_file_name id),
        )
        refl

  save_file_whole :
      (s : MessageSnapshot) (content : String) (files : Directory)
      → codec.encode s ≡ ok content
      → save_file codec none whole none s files
        ≡ replace_file codec whole none (path s.id) content files
  unfolding save_file
  save_file_whole s content files e = rw (e, save_file) refl

  load_file_found :
      (id : String) (files : Directory) (content : String)
      → lookup (path id) files ≡ some content
      → load_file codec none none id files ≡ codec.decode content
  unfolding load_file
  load_file_found id files content e = rw (e, load_file) refl

  load_file_same :
      (id : String) (files files' : Directory)
      → lookup (path id) files' ≡ lookup (path id) files
      → load_file codec none none id files' ≡ load_file codec none none id files
  unfolding load_file
  load_file_same id files files' e = rw (e, load_file) refl

-- Where the codec writes a snapshot and reads it back, a save without an error makes a load under the
-- same file name give that snapshot, and a load under any other file name what it gave before; the
-- file name of an id stands for the id.
pub load_file-save_file :
    (codec : Codec) (s : MessageSnapshot) (content id : String) (files : Directory)
    → codec.encode s ≡ ok content
    → codec.decode content ≡ ok s
    → (let (e, files') = save_file codec none whole none s files in
        load_file codec none none id files')
      ≡ (if str_eq (path s.id) (path id) then ok s else load_file codec none none id files)
load_file-save_file codec s content id files written read =
    let replaced = replace_file codec whole none (path s.id) content files in
    let at = lookup-replace_file codec (path s.id) content files id in
    ap (λ (q : Option GoError × Directory). load_file codec none none id q.1)
      (save_file_whole codec s content files written)
    ∙ elim (Bool-cases (str_eq (path s.id) (path id))) [
      | inl e ↦ rw e (load_file_found codec id replaced.1 content (rw e at at) ∙ read)
      | inr e ↦ rw e (load_file_same codec id files replaced.1 (rw e at at))
    ]
