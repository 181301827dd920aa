-- ===== src/Math/Scan.antt =====
-- core/native/src/mathgrammar/scan.rs: the inline pass over one text segment `s`, which starts at
-- byte `base` of the source. What the scan looks up ahead is asked of the segment's index.
mod Bounds
mod Places
mod Asked
mod Escapes
mod Spans
pub mod Refines
use jupynvim.Prelude.{
  ℕ, zero, suc, ◌+◌, ◌-◌, Bool, true, false, ◌&&◌, ◌||◌, not, Option, none, some, List, [], ◌∷◌,
  ◌++◌, if◌then◌else◌, ltb, leb, ◌==◌, length,
}
use jupynvim.Math.{Bytes, at, sub, skip, is_punct, js_trim}
use jupynvim.Math.Fences.{is_empty}
use jupynvim.Math.Output.{
  Kind, doubled, paren, bracket, env, backtick, dollars, dollar, Formula, Out, push_found,
  push_escaped,
}
use jupynvim.Math.Delims.{clean_tex, line_only_around, match_markup, or_default}
use jupynvim.Math.Dollars.{begin_name, display_close, inline_dollar, backtick_tex}
use jupynvim.Math.Index.{
  EnvIndex, SegIndex, new_index, has_b1, backtick_close, find_doubled_close, walk_paren, ask_env,
}

-- `Scan`.
pub record Scan (E : EnvIndex) : Type 0 where
  pub out : Out
  pub run : ℕ
  pub ix : SegIndex E

unfoldable pub is_tick : ℕ → Bool
is_tick b = b == b'`'

-- A try that comes after another one, when that one found no math.
unfoldable pub or_try :
    {E : EnvIndex} → Scan E × Option ℕ → (Scan E → Scan E × Option ℕ) → Scan E × Option ℕ
or_try (st, none) next = next st
or_try (st, some k) next = (st, some k)

module _ (E : EnvIndex) (s : Bytes) (base : ℕ) where
  -- `flush`.
  unfoldable pub flush : Scan E → ℕ → Scan E
  unfolding sub
  flush st upto = record st {
    out = record (st.out) { buf = st.out.buf ++ sub s st.run upto };
    run = upto;
  }

  -- `push_math`, over `start..end`.
  unfoldable pub push_math : Scan E → Bytes → Bool → Bool → Kind → ℕ → ℕ → Scan E
  unfolding flush sub push_found
  push_math st tex display block kind start end =
      let flushed = flush st start in
      let m : Formula = record {
        tex = tex;
        display = display;
        block = block;
        kind = kind;
        raw = sub s start end;
      } in
      record flushed { out = push_found flushed.out m (base + start) (base + end); run = end }

  -- `add`, whose TeX is `a..b`.
  unfoldable pub add : Scan E → ℕ → ℕ → Bool → Kind → ℕ → ℕ → Scan E
  unfolding clean_tex sub line_only_around push_math
  add st a b display kind start end =
      push_math st (clean_tex (sub s a b)) display (display && line_only_around s start end) kind
        start end

  -- `escape_dollar`.
  unfoldable pub escape_dollar : Scan E → ℕ → Scan E
  unfolding flush push_escaped
  escape_dollar st k =
      let flushed = flush st k in
      record flushed { out = push_escaped flushed.out (base + k); run = k + 1 }

  -- A math whose span `k..end` must have no blank line in it.
  unfoldable pub unless_blank :
      Scan E → ℕ → ℕ → Bool → Kind → ℕ → ℕ → ℕ → SegIndex E × Bool → Scan E × Option ℕ
  unfolding add
  unless_blank st a b display kind k end next (ix, true) = (record st { ix = ix }, none)
  unless_blank st a b display kind k end next (ix, false) =
      (add (record st { ix = ix }) a b display kind k end, some next)

  unfoldable pub doubled_found : Scan E → ℕ → Bool → SegIndex E × Option ℕ → Scan E × Option ℕ
  unfolding unless_blank has_b1
  doubled_found st k display (ix, none) = (record st { ix = ix }, none)
  doubled_found st k display (ix, some e) =
      unless_blank st (k + 3) e display doubled k (e + 3) (e + 3) (has_b1 s ix k e)

  -- The doubled delimiters.
  unfoldable pub try_doubled : ℕ → Scan E → Scan E × Option ℕ
  unfolding at doubled_found find_doubled_close
  try_doubled k st =
      let opening = at s (k + 2) in
      if at s (k + 1) == b'\\' && (opening == b'(' || opening == b'[')
      then doubled_found st k (opening == b'[')
          (find_doubled_close s st.ix (k + 3) (if opening == b'(' then b')' else b']'))
      else (st, none)

  unfoldable pub paren_found : Scan E → ℕ → ℕ → SegIndex E × Option ℕ → Scan E × Option ℕ
  unfolding add
  paren_found st k d (ix, none) = (record st { ix = ix }, none)
  paren_found st k d (ix, some found) = (
    add (record st { ix = ix }) (k + 2) found (d == b'[') (if d == b'(' then paren else bracket) k
        (found + 2),
    some (found + 2),
  )

  -- The single ones.
  unfoldable pub try_paren : ℕ → Scan E → Scan E × Option ℕ
  unfolding at paren_found walk_paren
  try_paren k st =
      let d = at s (k + 1) in
      if d == b'(' || d == b'['
      then paren_found st k d (walk_paren s st.ix k (if d == b'(' then b')' else b']'))
      else (st, none)

  unfoldable pub env_found : Scan E → ℕ → SegIndex E × Option ℕ → Scan E × Option ℕ
  unfolding unless_blank has_b1
  env_found st k (ix, none) = (record st { ix = ix }, none)
  env_found st k (ix, some found) =
      unless_blank st k found true env k found found (has_b1 s ix k found)

  unfoldable pub env_named : Scan E → ℕ → Option Bytes → Scan E × Option ℕ
  unfolding env_found ask_env
  env_named st k none = (st, none)
  env_named st k (some name) = env_found st k (ask_env E s st.ix k name)

  -- A bare environment.
  unfoldable pub try_env : ℕ → Scan E → Scan E × Option ℕ
  unfolding env_named begin_name
  try_env k st = env_named st k (begin_name s k)

  -- The next place, where a try left it open.
  unfoldable pub or_at : ℕ → Scan E × Option ℕ → Scan E × ℕ
  or_at next (st, none) = (st, next)
  or_at next (st, some k) = (st, k)

  -- `backslash`.
  unfoldable pub backslash : ℕ → Scan E → Scan E × ℕ
  unfolding or_at or_try try_doubled try_paren try_env is_punct at
  backslash k st =
      or_at (if is_punct (at s (k + 1)) then k + 2 else k + 1)
        (or_try (or_try (try_doubled k st) (try_paren k)) (try_env k))

  unfoldable pub backtick_found : Scan E → ℕ → ℕ → SegIndex E × Option ℕ → Scan E × Option ℕ
  unfolding at backtick_tex sub push_math
  backtick_found st k r (ix, none) = (record st { ix = ix }, none)
  backtick_found st k r (ix, some close) =
      let run = r - k - 1 in
      let end = close + run + 1 in
      if at s (close + run) == b'$'
      then (
        push_math (record st { ix = ix }) (backtick_tex (sub s r close)) false false backtick k end,
        some end,
      )
      else (record st { ix = ix }, none)

  -- The backtick form.
  unfoldable pub try_backtick : ℕ → Scan E → Scan E × Option ℕ
  unfolding at skip is_tick backtick_found backtick_close
  try_backtick k st =
      let r = skip is_tick s (k + 1) in
      if at s (k + 1) == b'`'
      then backtick_found st k r (backtick_close s st.ix r (r - k - 1))
      else (st, none)

  unfoldable pub display_found : Scan E → ℕ → Option ℕ → Scan E × Option ℕ
  unfolding is_empty js_trim sub add
  display_found st k none = (st, none)
  display_found st k (some found) =
      if not (is_empty (js_trim (sub s (k + 2) found)))
      then (add st (k + 2) found true dollars k (found + 2), some (found + 2))
      else (st, none)

  -- The display form.
  unfoldable pub try_display : ℕ → Scan E → Scan E × Option ℕ
  unfolding at display_found display_close
  try_display k st =
      if at s (k + 1) == b'$' then display_found st k (display_close s (k + 2)) else (st, none)

  unfoldable pub inline_found : Scan E → ℕ → Option ℕ → Scan E × Option ℕ
  unfolding add escape_dollar
  inline_found st k none = (escape_dollar st k, some (k + 1))
  inline_found st k (some r) = (add st (k + 1) r false dollar k (r + 1), some (r + 1))

  -- The inline form; a `$` that forms no math is escaped.
  unfoldable pub try_inline : ℕ → Scan E → Scan E × Option ℕ
  unfolding inline_found inline_dollar
  try_inline k st = inline_found st k (inline_dollar s k)

  -- `dollar`.
  unfoldable pub dollar_at : ℕ → Scan E → Scan E × ℕ
  unfolding or_at or_try try_backtick try_display try_inline
  dollar_at k st =
      or_at (k + 1) (or_try (or_try (try_backtick k st) (try_display k)) (try_inline k))

  unfoldable pub code_span_found : Scan E → ℕ → ℕ → SegIndex E × Option ℕ → Scan E × ℕ
  code_span_found st k r (ix, none) = (record st { ix = ix }, r)
  code_span_found st k r (ix, some close) = (record st { ix = ix }, close + (r - k))

  -- A code span is passed whole, an unclosed run by itself.
  unfoldable pub code_span : ℕ → Scan E → Scan E × ℕ
  unfolding code_span_found backtick_close skip is_tick
  code_span k st =
      let r = skip is_tick s k in code_span_found st k r (backtick_close s st.ix r (r - k))

  -- One round of `scan_text`, at place `k`.
  unfoldable pub scan_byte : ℕ → Scan E → Scan E × ℕ
  unfolding at or_default match_markup backslash code_span dollar_at
  scan_byte k st =
      let c = at s k in
      if c == b'<'
      then (st, or_default (match_markup s k) (k + 1))
      else if c == b'\\'
      then backslash k st
      else if c == b'`'
      then code_span k st
      else if c == b'$'
      then dollar_at k st
      else (st, k + 1)

  -- The loop of `scan_text`: a round moves on, so there are as many rounds as bytes.
  unfoldable pub scan_loop : ℕ → Scan E × ℕ → Scan E × ℕ
  unfolding scan_byte
  scan_loop zero r = r
  scan_loop (suc f) (st, k) = elim (ltb k (length s)) [
    | true ↦ scan_loop f (scan_byte k st)
    | false ↦ (st, k)
  ]

  -- `scan_text`.
  unfoldable pub scan_text : Out → Out
  unfolding new_index scan_loop flush
  scan_text o =
      let first : Scan E = record { out = o; run = 0; ix = new_index E } in
      (flush (scan_loop (length s) (first, 0)).0 (length s)).out
