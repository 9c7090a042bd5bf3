-- ===== src/Config/References/Ids.antt =====
-- The ids of the steps that a workflow reference brings in: `cleanStepID`, `prefixedStepID` and
-- `rewriteWorkflowRefTargets` of app/runtime_config.go.
use Prim.Native.Char.{code}
use Prim.Native.String.{◌++◌, count}
use routing_slip_pattern.Common.{
  ℕ, ◌+◌, String, Bool, true, false, ◌&&◌, ◌||◌, List, [], ◌∷◌, str_eq, leb, ◌==◌, if◌then◌else◌,
}
use routing_slip_pattern.Common.Text.{trim_space, to_lower, is_empty, itoa}
use routing_slip_pattern.Value.{
  Value, Items, Fields, null, bool, int, float, str, list, object, strings, string_map, other, nil,
  cons, end, field,
}

abbrev pub is_id_char : ℕ → Bool
is_id_char c = (leb b'a' c && leb c b'z') || (leb b'0' c && leb c b'9') || c == b'_' || c == b'.'

-- One dash for each run of other characters; `dashed` is the source's `lastDash`.
unfoldable pub dash_others : Bool → String → String
dash_others dashed String.[] = String.[]
dash_others dashed (String.◌∷◌ c s) =
    let rest = dash_others (if is_id_char (code c) then false else true) s in
    if is_id_char (code c) then String.◌∷◌ c rest else if dashed then rest else String.◌∷◌ "-" rest

abbrev is_edge : ℕ → Bool
is_edge c = c == b'-' || c == b'.'

-- `strings.Trim(s, "-.")`, from the left and from the right.
unfoldable pub trim_edges_left : String → String
trim_edges_left String.[] = String.[]
trim_edges_left (String.◌∷◌ c s) =
    let rest = trim_edges_left s in if is_edge (code c) then rest else String.◌∷◌ c s

unfoldable pub trim_edges_right : String → String
trim_edges_right String.[] = String.[]
trim_edges_right (String.◌∷◌ c s) =
    let rest = trim_edges_right s in
    if is_edge (code c) && is_empty rest then String.[] else String.◌∷◌ c rest

-- A blank text comes out empty by itself.
unfoldable pub clean_step_id : String → String
unfolding trim_space to_lower dash_others trim_edges_left trim_edges_right
clean_step_id value =
    trim_edges_right (trim_edges_left (dash_others false (to_lower (trim_space value))))

-- `%03d`.
unfoldable pub three_digits : ℕ → String
unfolding itoa
three_digits n =
    let d = itoa n in if leb 3 (count d) then d else if count d == 2 then "0" ++ d else "00" ++ d

unfoldable pub prefixed_step_id : (prefix id name : String) → ℕ → String
unfolding clean_step_id three_digits
prefixed_step_id prefix id name index =
    let numbered = prefix ++ ("." ++ three_digits (index + 1)) in
    if is_empty (clean_step_id id)
    then (if is_empty (clean_step_id name)
        then numbered
        else numbered ++ ("." ++ clean_step_id name))
    else prefix ++ ("." ++ clean_step_id id)

abbrev pub has_text : String → List String → Bool
has_text s [] = false
has_text s (t ∷ ts) = str_eq s t || has_text s ts

-- The value under a key "to".
abbrev pub rewrite_target : String → List String → Value → Value
rewrite_target prefix ids (str s) = if has_text s ids then str (prefix ++ ("." ++ s)) else str s
rewrite_target prefix ids v = v

-- Maps, and the maps that lists hold; a list within a list stays.
unfoldable mutual
  pub rewrite_fields : String → List String → Fields → Fields
  rewrite_fields prefix ids end = end
  rewrite_fields prefix ids (field key v m) =
      field key
        (if str_eq key "to" then rewrite_target prefix ids v else rewrite_value prefix ids v)
        (rewrite_fields prefix ids m)

  pub rewrite_value : String → List String → Value → Value
  rewrite_value prefix ids null = null
  rewrite_value prefix ids (bool b) = bool b
  rewrite_value prefix ids (int n) = int n
  rewrite_value prefix ids (float x) = float x
  rewrite_value prefix ids (str s) = str s
  rewrite_value prefix ids (list vs) = list (rewrite_items prefix ids vs)
  rewrite_value prefix ids (object m) = object (rewrite_fields prefix ids m)
  rewrite_value prefix ids (strings ss) = strings ss
  rewrite_value prefix ids (string_map d) = string_map d
  rewrite_value prefix ids (other n) = other n

  pub rewrite_items : String → List String → Items → Items
  rewrite_items prefix ids nil = nil
  rewrite_items prefix ids (cons v vs) =
      cons (rewrite_item prefix ids v) (rewrite_items prefix ids vs)

  pub rewrite_item : String → List String → Value → Value
  rewrite_item prefix ids null = null
  rewrite_item prefix ids (bool b) = bool b
  rewrite_item prefix ids (int n) = int n
  rewrite_item prefix ids (float x) = float x
  rewrite_item prefix ids (str s) = str s
  rewrite_item prefix ids (list vs) = list vs
  rewrite_item prefix ids (object m) = object (rewrite_fields prefix ids m)
  rewrite_item prefix ids (strings ss) = strings ss
  rewrite_item prefix ids (string_map d) = string_map d
  rewrite_item prefix ids (other n) = other n
