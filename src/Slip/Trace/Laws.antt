-- ===== src/Slip/Trace/Laws.antt =====
-- The `traceparent` header: what is printed is read back, and what `EnsureTraceContext` leaves on the
-- message.
use Prim.Native.String.{len, ◌++◌, ◌∷◌}
use text.Mathlib.TextLemmas.{nil-append, cons-append}
use routing_slip_pattern.Common.{
  String, false, [], ◌∷◌ as ◌∷ᴸ◌, some, ◌≡◌, refl, ap, ◌∙◌, str_eq, if_rule,
}
use routing_slip_pattern.Common.Text.{is_empty, is_space, trim_space, split_on}
use routing_slip_pattern.Common.Text.Laws.{
  NoSpace, Without, NoSpace-append, trim_space-NoSpace, split_on-append, split_on-Without,
}
use routing_slip_pattern.Common.Dict.{Dict, insert, lookup, lookup-insert}
use routing_slip_pattern.Slip.Message.{Message}
use routing_slip_pattern.Slip.Trace.{
  TraceContext, Context, HexSource, traceparent, parse_traceparent, apply_trace_context,
  context_with_trace_context, parent_header, ensure_trace_context, start_trace_span,
}

-- Identifiers as W3C gives them: 32 and 16 bytes, no "-" and no white space; and flags.
pub record IsW3C (t : TraceContext) : Type 0 where
  pub trace_len : len t.trace_id ≡ 32
  pub span_len : len t.span_id ≡ 16
  pub trace_plain : NoSpace t.trace_id × Without b'-' t.trace_id
  pub span_plain : NoSpace t.span_id × Without b'-' t.span_id
  pub flags_plain : NoSpace t.trace_flags × Without b'-' t.trace_flags
  pub flags_given : is_empty t.trace_flags ≡ false

-- The header's text, by its characters.
abbrev header_text : String → String → String → String
header_text trace span flags = "0" ∷ ("0" ∷ ("-" ∷ (trace ++ ("-" ∷ (span ++ ("-" ∷ flags))))))

traceparent-header_text :
    (t : TraceContext)
    → is_empty t.trace_flags ≡ false
    → traceparent t ≡ header_text t.trace_id t.span_id t.trace_flags
unfolding traceparent
traceparent-header_text t h =
    rw
      (
        h,
        dash t.trace_flags,
        dash (t.span_id ++ ("-" ∷ t.trace_flags)),
        version (t.trace_id ++ ("-" ∷ (t.span_id ++ ("-" ∷ t.trace_flags)))),
      )
      refl
  where
    dash : (x : String) → "-" ++ x ≡ "-" ∷ x
    dash x = cons-append "-" "" x ∙ ap (λ (r : String). "-" ∷ r) (nil-append x)

    version : (x : String) → "00-" ++ x ≡ "0" ∷ ("0" ∷ ("-" ∷ x))
    version x =
        cons-append "0" "0-" x
        ∙ ap (λ (r : String). "0" ∷ r)
            (cons-append "0" "-" x ∙ ap (λ (r : String). "0" ∷ r) (dash x))

header_text-NoSpace :
    (trace span flags : String)
    → NoSpace trace
    → NoSpace span
    → NoSpace flags
    → NoSpace (header_text trace span flags)
unfolding is_space
header_text-NoSpace trace span flags h k l =
    (refl, (refl, (refl, NoSpace-append trace _ h (refl, NoSpace-append span _ k (refl, l)))))

split-header_text :
    (trace span flags : String)
    → Without b'-' trace
    → Without b'-' span
    → Without b'-' flags
    → split_on b'-' (header_text trace span flags) ≡ "00" ∷ᴸ trace ∷ᴸ span ∷ᴸ flags ∷ᴸ []
unfolding split_on
split-header_text trace span flags h k l =
    rw (split_on-append b'-' trace "-" (span ++ ("-" ∷ flags)) h refl)
      (rw (split_on-append b'-' span "-" flags k refl) (rw (split_on-Without b'-' flags l) refl))

-- A printed trace context whose identifiers are as W3C gives them is read back, without the parent's id, which the header does not carry.
pub parse_traceparent-traceparent :
    (t : TraceContext)
    → IsW3C t
    → parse_traceparent (traceparent t) ≡ some (record t { parent_span_id = "" })
parse_traceparent-traceparent t h =
    let text = header_text t.trace_id t.span_id t.trace_flags in
    let trimmed : trim_space (traceparent t) ≡ text =
      ap trim_space (traceparent-header_text t h.flags_given)
      ∙ trim_space-NoSpace text (
          header_text-NoSpace t.trace_id t.span_id t.trace_flags h.trace_plain.0 h.span_plain.0
            h.flags_plain.0) in
    unfold parse_traceparent in
    rw (trimmed) (
      rw
        (split-header_text t.trace_id t.span_id t.trace_flags h.trace_plain.1 h.span_plain.1
          h.flags_plain.1)
        (rw (h.trace_len, h.span_len) refl))

-- The parent's header changes no other.
lookup-parent_header :
    (key : String) (t : TraceContext) (headers : Dict String)
    → str_eq "parent_span_id" key ≡ false
    → lookup key (parent_header t headers) ≡ lookup key headers
lookup-parent_header key t headers other =
    if_rule (λ (h : Dict String). lookup key h ≡ lookup key headers) (is_empty t.parent_span_id)
      headers (insert "parent_span_id" t.parent_span_id headers) (λ _. refl)
      (λ _. lookup-insert "parent_span_id" key t.parent_span_id headers ∙ rw other refl)

-- The message's fields and headers name the trace, its headers under their three names.
pub record Names (t : TraceContext) (m : Message) : Type 0 where
  pub trace_field : m.trace_id ≡ t.trace_id
  pub span_field : m.span_id ≡ t.span_id
  pub parent_field : m.parent_span_id ≡ t.parent_span_id
  pub traceparent_header : lookup "traceparent" m.headers ≡ some (traceparent t)
  pub trace_header : lookup "trace_id" m.headers ≡ some t.trace_id
  pub span_header : lookup "span_id" m.headers ≡ some t.span_id

apply_trace_context-Names : (m : Message) (t : TraceContext) → Names t (apply_trace_context m t)
unfolding apply_trace_context
apply_trace_context-Names m t = record {
  trace_field = refl;
  span_field = refl;
  parent_field = refl;
  traceparent_header = lookup-parent_header "traceparent" t _ refl ∙ simp (lookup-insert);
  trace_header = lookup-parent_header "trace_id" t _ refl ∙ simp (lookup-insert);
  span_header = lookup-parent_header "span_id" t _ refl ∙ simp (lookup-insert);
}

-- Whatever trace `EnsureTraceContext` settles on, the context, the message's fields and its headers
-- name the same one afterwards.
pub ensure_trace_context_agrees :
    {W : Type 0} (hex_id : HexSource W) (ctx : Context) (m : Message) (w : W)
    → let (ctx', t, m', w') = ensure_trace_context hex_id ctx m w in
      (ctx'.trace ≡ some t) × Names t m'
unfolding ensure_trace_context context_with_trace_context
ensure_trace_context_agrees hex_id ctx m w =
    (refl, apply_trace_context-Names m (ensure_trace_context hex_id ctx m w).1)

-- A span of a step keeps the trace and takes the span before it for its parent, also on the message.
pub start_trace_span_child :
    {W : Type 0} (hex_id : HexSource W) (ctx : Context) (m : Message) (w : W)
    → let (ctx', t, m', w') = start_trace_span hex_id ctx m w in
      let (ctx'', parent, m'', w'') = ensure_trace_context hex_id ctx m w in
      (ctx'.trace ≡ some t)
      × Names t m'
      × (t.trace_id ≡ parent.trace_id)
      × (t.parent_span_id ≡ parent.span_id)
unfolding start_trace_span context_with_trace_context
start_trace_span_child hex_id ctx m w = (
  refl,
  apply_trace_context-Names (ensure_trace_context hex_id ctx m w).2
      (start_trace_span hex_id ctx m w).1,
  refl,
  refl,
)
