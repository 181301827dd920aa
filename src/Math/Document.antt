-- ===== src/Math/Document.antt =====
-- core/native/src/mathgrammar/mod.rs: one source, from its text to the text with placeholders, and
-- the places of the one in the other.
pub mod Refines
pub mod Shown
pub mod Restore
pub mod Order
pub mod Offsets
use jupynvim.Prelude.{
  ℕ, zero, suc, ◌+◌, ◌-◌, Bool, true, false, ◌&&◌, Option, none, some, List, [], ◌∷◌, ◌++◌, map,
  if◌then◌else◌, ltb, leb, ◌==◌, length, get_elem?,
}
use jupynvim.Math.{Bytes, sub}
use jupynvim.Math.Blocks.{SegKind, text, code, math_fence, Segment, segments}
use jupynvim.Math.Output.{Kind, fence, Formula, Edit, Out, push_found}
use jupynvim.Math.Lookahead.{partition_point}
use jupynvim.Math.Index.{EnvIndex}
use jupynvim.Math.Scan.{scan_text}

-- The loop of `normalize_newlines`: after a `\r`, a `\n` is passed.
unfoldable pub normalize_from : Bool → Bytes → Bytes
normalize_from after_cr [] = []
normalize_from after_cr (b ∷ s) =
    let plain = normalize_from false s in
    let cr = normalize_from true s in
    if after_cr && b == b'\n' then plain else if b == b'\r' then b'\n' ∷ cr else b ∷ plain

-- `normalize_newlines`.
unfoldable pub normalize_newlines : Bytes → Bytes
unfolding normalize_from
normalize_newlines src = normalize_from false src

unfoldable pub append_bytes : Out → Bytes → Out
append_bytes o bytes = record o { buf = o.buf ++ bytes }

-- A fence becomes a display placeholder, over `prefix_end..end`.
unfoldable pub push_fence : Out → ℕ → ℕ → Bytes → Bytes → Out
unfolding push_found
push_fence o prefix_end end tex raw =
    push_found o (record { tex = tex; display = true; block = true; kind = fence; raw = raw })
      prefix_end end

-- One segment, in the loop of `extract_math`.
unfoldable pub take_segment : EnvIndex → Bytes → ℕ → ℕ → SegKind → Out → Out
unfolding scan_text sub append_bytes push_fence
take_segment E b start end text o = scan_text E (sub b start end) start o
take_segment E b start end code o = append_bytes o (sub b start end)
take_segment E b start end (math_fence prefix_end tex raw) o =
    push_fence (append_bytes o (sub b start prefix_end)) prefix_end end tex raw

-- The loop, which writes a newline before each segment but the first.
unfoldable pub take_segments : EnvIndex → Bytes → Bytes → List Segment → Out → Out
unfolding take_segment append_bytes
take_segments E b separator [] o = o
take_segments E b separator (s ∷ segs) o =
    take_segments E b (b'\n' ∷ []) segs
      (take_segment E b s.start s.end s.kind (append_bytes o separator))

unfoldable pub no_output : Out
no_output = record { buf = []; maths = []; edits = [] }

-- `extract_math`.
unfoldable pub extract_math : EnvIndex → Bytes → Out
unfolding normalize_newlines segments take_segments no_output
extract_math E src =
    let norm = normalize_newlines src in take_segments E norm [] (segments norm) no_output

-- `extract_document`.
unfoldable pub extract_document : EnvIndex → List Bytes → List Out
unfolding extract_math
extract_document E sources = map (extract_math E) sources

-- The edit before place `i`, if there is one.
unfoldable pub edit_before : List Edit → ℕ → Option Edit
edit_before edits zero = none
edit_before edits (suc j) = get_elem? edits j

unfoldable pub src_from : ℕ → Option Edit → ℕ
src_from off none = off
src_from off (some e) = if ltb off e.text_end then e.src_start else e.src_end + (off - e.text_end)

-- `text_to_src`.
unfoldable pub text_to_src : List Edit → ℕ → ℕ
unfolding partition_point edit_before src_from
text_to_src edits off =
    src_from off (edit_before edits (partition_point (λ e. leb e.text_start off) edits))

unfoldable pub text_from : ℕ → Option Edit → ℕ
text_from off none = off
text_from off (some e) = if ltb off e.src_end then e.text_start else e.text_end + (off - e.src_end)

-- `src_to_text`.
unfoldable pub src_to_text : List Edit → ℕ → ℕ
unfolding partition_point edit_before text_from
src_to_text edits off =
    text_from off (edit_before edits (partition_point (λ e. leb e.src_start off) edits))
