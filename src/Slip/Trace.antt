-- ===== src/Slip/Trace.antt =====
-- app/slip/trace_context.go: W3C trace identifiers on the context and on the message.
pub mod Laws
use Prim.Native.String.{len, ◌++◌}
use routing_slip_pattern.Common.{
  ℕ, String, Bool, true, false, ◌&&◌, ◌||◌, List, [], ◌∷◌, Option, none, some, str_eq, not, ◌==◌,
  if◌then◌else◌,
}
use routing_slip_pattern.Common.Text.{trim_space, is_empty, split_on}
use routing_slip_pattern.Common.Dict.{Dict, insert}
use routing_slip_pattern.Slip.Message.{Message}
use routing_slip_pattern.Slip.Snapshot.{header}

pub record TraceContext : Type 0 where
  pub trace_id : String
  pub span_id : String
  pub parent_span_id : String
  pub trace_flags : String

-- A `context.Context`, as far as the library looks into it: the trace that it carries, and whether
-- it is the background context, which is never cancelled.
pub record Context : Type 0 where
  pub trace : Option TraceContext
  pub is_background : Bool

abbrev pub background : Context
background = record { trace = none; is_background = true }

abbrev usable : Option TraceContext → Option TraceContext
usable none = none
usable (some t) = if is_empty t.trace_id || is_empty t.span_id then none else some t

unfoldable pub trace_context_from_context : Context → Option TraceContext
trace_context_from_context ctx = usable ctx.trace

unfoldable pub context_with_trace_context : Context → TraceContext → Context
context_with_trace_context ctx trace = record ctx { trace = some trace }

-- The first text that is not blank, trimmed.
unfoldable pub first_non_empty : List String → String
unfolding trim_space
first_non_empty [] = ""
first_non_empty (v ∷ vs) = if is_empty (trim_space v) then first_non_empty vs else trim_space v

unfoldable pub traceparent : TraceContext → String
traceparent t =
    "00-"
    ++ (t.trace_id
        ++ ("-"
            ++ (t.span_id ++ ("-" ++ (if is_empty t.trace_flags then "01" else t.trace_flags)))))

abbrev four_parts : List String → Option TraceContext
four_parts (version ∷ trace ∷ span ∷ flags ∷ []) =
    if str_eq version "00" && len trace == 32 && len span == 16
    then some
        (record { trace_id = trace; span_id = span; parent_span_id = ""; trace_flags = flags })
    else none
four_parts _ = none

unfoldable pub parse_traceparent : String → Option TraceContext
unfolding split_on trim_space
parse_traceparent value = four_parts (split_on b'-' (trim_space value))

abbrev pub parent_header : TraceContext → Dict String → Dict String
parent_header t headers =
    if is_empty t.parent_span_id then headers else insert "parent_span_id" t.parent_span_id headers

unfoldable pub apply_trace_context : Message → TraceContext → Message
unfolding traceparent insert
apply_trace_context m t = record m {
  trace_id = t.trace_id;
  span_id = t.span_id;
  parent_span_id = t.parent_span_id;
  headers = parent_header t (
      insert "span_id" t.span_id
        (insert "trace_id" t.trace_id (insert "traceparent" (traceparent t) m.headers)));
}

-- `newHexID`, with the state of the random source.
abbrev pub HexSource : Type 0 → Type 0
HexSource W = ℕ → W → String × W

abbrev or_else : Option TraceContext → Option TraceContext → Option TraceContext
or_else none b = b
or_else (some a) b = some a

abbrev parsed_header : String → Option TraceContext
parsed_header raw = if is_empty raw then none else parse_traceparent raw

-- The trace that the message's own headers give by `traceparent`.
unfoldable pub trace_context_of_headers : Message → Option TraceContext
unfolding header parse_traceparent
trace_context_of_headers m =
    or_else (parsed_header (header "traceparent" m.headers))
      (parsed_header (header "Traceparent" m.headers))

module _ {W : Type 0} (hex_id : HexSource W) where
  -- A missing span id is drawn.
  unfoldable pub span_or_new : String → W → String × W
  span_or_new span w = let drawn = hex_id 8 w in if is_empty span then drawn else (span, w)

  -- The second part: identifiers by themselves.
  unfoldable pub trace_context_of_ids : Message → W → Option TraceContext × W
  unfolding span_or_new first_non_empty header
  trace_context_of_ids m w =
      let trace = first_non_empty (
        m.trace_id
        ∷ header "trace_id" m.headers
        ∷ header "X-Trace-ID" m.headers
        ∷ header "x-trace-id" m.headers
        ∷ []) in
      let (span, w') =
        span_or_new (first_non_empty (m.span_id ∷ header "span_id" m.headers ∷ [])) w in
      if is_empty trace then (none, w) else (
        some (record {
          trace_id = trace;
          span_id = span;
          parent_span_id =
              first_non_empty (m.parent_span_id ∷ header "parent_span_id" m.headers ∷ []);
          trace_flags = "01";
        }),
        w',
      )

  unfoldable pub trace_context_from_message : Message → W → Option TraceContext × W
  unfolding trace_context_of_headers trace_context_of_ids
  trace_context_from_message m w = elim (trace_context_of_headers m) [
    | some t ↦ (some t, w)
    | none ↦ trace_context_of_ids m w
  ]

  unfoldable pub fresh_trace : W → TraceContext × W
  fresh_trace w =
      let (trace, w') = hex_id 16 w in
      let (span, w'') = hex_id 8 w' in
      (record { trace_id = trace; span_id = span; parent_span_id = ""; trace_flags = "01" }, w'')

  -- The trace that `EnsureTraceContext` settles on.
  unfoldable pub chosen_trace : Context → Message → W → TraceContext × W
  unfolding trace_context_from_context trace_context_from_message fresh_trace
  chosen_trace ctx m w =
      let (found, w') = trace_context_from_message m w in
      elim (trace_context_from_context ctx) [
        | some t ↦ (t, w)
        | none ↦ elim found [ some t ↦ (t, w') | none ↦ fresh_trace w' ]
      ]

  -- Where the context carries a usable trace already, attaching it again changes nothing.
  unfoldable pub ensure_trace_context : Context → Message → W → Context × TraceContext × Message × W
  unfolding chosen_trace apply_trace_context context_with_trace_context
  ensure_trace_context ctx m w =
      let (t, w') = chosen_trace ctx m w in
      (context_with_trace_context ctx t, t, apply_trace_context m t, w')

  unfoldable pub start_trace_span : Context → Message → W → Context × TraceContext × Message × W
  unfolding ensure_trace_context apply_trace_context context_with_trace_context
  start_trace_span ctx m w =
      let (ctx', parent, m', w') = ensure_trace_context ctx m w in
      let (span, w'') = hex_id 8 w' in
      let t : TraceContext = record {
        trace_id = parent.trace_id;
        parent_span_id = parent.span_id;
        span_id = span;
        trace_flags = parent.trace_flags;
      } in
      (context_with_trace_context ctx' t, t, apply_trace_context m' t, w'')
