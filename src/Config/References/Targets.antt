-- ===== src/Config/References/Targets.antt =====
-- Where the targets of a referenced workflow of app/runtime_config.go point after its steps have
-- got their prefix.
use Prim.Native.String.{◌++◌}
use text.Mathlib.TextLemmas.{append_cancel_left}
use routing_slip_pattern.Common.{ℕ, String, true, false, List, ◌≡◌, ◌↔◌, refl, ap, sym, ◌∙◌}
use routing_slip_pattern.Common.Text.{is_empty}
use routing_slip_pattern.Value.{str}
use routing_slip_pattern.Config.References.Ids.{
  clean_step_id, prefixed_step_id, has_text, rewrite_target,
}

same_text : {s t : String} → str s ≡ str t → s ≡ t
same_text e = cc

-- Where a workflow is brought in under a prefix, a "to" in the parameters of its steps that names the
-- id of one of its steps, one that does not clean to nothing, is rewritten to the text of that step's
-- new id if and only if the id is clean already.
pub rewrite_target-prefixed_step_id :
    (prefix id name : String) (ids : List String) (index : ℕ)
    → has_text id ids ≡ true
    → is_empty (clean_step_id id) ≡ false
    → (rewrite_target prefix ids (str id) ≡ str (prefixed_step_id prefix id name index))
      ↔ (clean_step_id id ≡ id)
unfolding prefixed_step_id
rewrite_target-prefixed_step_id prefix id name ids index known given =
    let target : rewrite_target prefix ids (str id) ≡ str (prefix ++ ("." ++ id)) = rw known refl in
    let new_id : prefixed_step_id prefix id name index ≡ prefix ++ ("." ++ clean_step_id id) =
      rw given refl in
    (
      λ e. sym (
          append_cancel_left "." _ _
            (append_cancel_left prefix _ _ (same_text (sym target ∙ e ∙ ap str new_id)))),
      λ e. target ∙ ap (λ s. str (prefix ++ ("." ++ s))) (sym e) ∙ ap str (sym new_id),
    )
