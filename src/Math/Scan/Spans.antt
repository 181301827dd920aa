-- ===== src/Math/Scan/Spans.antt =====
-- core/native/src/mathgrammar/scan.rs: what a `$` and a run of backticks do.
use jupynvim.Prelude.{
  ℕ, zero, suc, ◌+◌, ◌-◌, ◌≤◌, ◌<◌, ◌≡◌, refl, true, false, not, Option, none, some, [], ◌∷◌, ◌==◌,
  length, drop, arith, if_elim,
}
use jupynvim.Math.{Bytes, at, sub, run_length, skip, js_trim}
use jupynvim.Math.Fences.{is_empty}
use jupynvim.Math.Bytes.{at-inside}
use jupynvim.Math.Output.{backtick, dollars, dollar}
use jupynvim.Math.Dollars.{inline_dollar}
use jupynvim.Math.Index.{EnvIndex, SegIndex}
use jupynvim.Math.Index.Runs.{backtick_close-bounds}
use jupynvim.Math.Index.Right.{IndexRight}
use jupynvim.Math.Scan.{
  Scan, is_tick, backtick_found, try_backtick, display_found, try_display, inline_found, try_inline,
  dollar_at, code_span_found, code_span,
}
use jupynvim.Math.Scan.Bounds.{
  skip-forward, skip-inside, display_close-bounds, inline_dollar-bounds,
}
use jupynvim.Math.Scan.Places.{Ready, push_math-Ready, escape_dollar-Ready}
use jupynvim.Math.Scan.Asked.{
  Tried, Moved, Ready-later, Ready-index, Ready-asked, backtick_close-Right, or_try-Tried,
  or_at-Moved,
}
use jupynvim.Math.Scan.Escapes.{add-Tried}

run_positive : (s : Bytes) (k : ℕ) → (at s k == b'`') ≡ true → 0 < run_length is_tick (drop k s)
unfolding at run_length is_tick
run_positive [] k h = ground arith
run_positive (b ∷ s) zero h = ground arith
run_positive (b ∷ s) (suc k) h = run_positive s k h

module _ (E : EnvIndex) (s pre : Bytes) (base : ℕ) where
  backtick_found-Tried :
      (st : Scan E) (k r : ℕ) (found : SegIndex E × Option ℕ)
      → base ≡ length pre
      → k < r
      → IndexRight s found.0
      → ((e : ℕ) → found.1 ≡ some e → (r ≤ e) × (e + (r - k - 1) ≤ length s))
      → Ready s pre st k
      → Tried s pre k (backtick_found E s base st k r found)
  unfolding backtick_found Tried
  backtick_found-Tried st k r (ix, none) here lt right bounds ready =
      Ready-asked s pre st k ix right ready
  backtick_found-Tried st k r (ix, some e) here lt right bounds ready =
      let (low, high) = bounds e refl in
      let end = e + (r - k - 1) + 1 in
      let asked = Ready-asked s pre st k ix right ready in
      if_elim (Tried s pre k) (at s (e + (r - k - 1)) == b'$') _ _
        (λ h. (
          omega (arith, low, lt),
          push_math-Ready E s pre base (record st { ix = ix }) _ false false backtick k end here
              (omega (arith, low, lt)) (ground (arith, at-inside s (e + (r - k - 1)))) asked,
        ))
        (λ _. asked)

  try_backtick-Tried :
      (k : ℕ) (st : Scan E)
      → base ≡ length pre
      → Ready s pre st k
      → Tried s pre k (try_backtick E s base k st)
  unfolding try_backtick Tried
  try_backtick-Tried k st here ready =
      let r = skip is_tick s (k + 1) in
      if_elim (Tried s pre k) (at s (k + 1) == b'`') _ _
        (λ _.
          backtick_found-Tried st k r _ here (omega (arith, skip-forward is_tick s (k + 1)))
            (backtick_close-Right s st.ix r (r - k - 1) (Ready-index s pre st k ready))
            (λ e found. backtick_close-bounds s st.ix r (r - k - 1) e found) ready)
        (λ _. ready)

  display_found-Tried :
      (st : Scan E) (k : ℕ) (o : Option ℕ)
      → base ≡ length pre
      → ((e : ℕ) → o ≡ some e → (k + 2 ≤ e) × (e + 2 ≤ length s))
      → Ready s pre st k
      → Tried s pre k (display_found E s base st k o)
  unfolding display_found Tried
  display_found-Tried st k none here bounds ready = ready
  display_found-Tried st k (some e) here bounds ready =
      let (low, high) = bounds e refl in
      if_elim (Tried s pre k) (not (is_empty (js_trim (sub s (k + 2) e)))) _ _
        (λ _.
          add-Tried E s pre base st (k + 2) e true dollars k (e + 2) here (omega (arith, low)) high
            ready)
        (λ _. ready)

  try_display-Tried :
      (k : ℕ) (st : Scan E)
      → base ≡ length pre
      → Ready s pre st k
      → Tried s pre k (try_display E s base k st)
  unfolding try_display Tried
  try_display-Tried k st here ready =
      if_elim (Tried s pre k) (at s (k + 1) == b'$') _ _
        (λ _. display_found-Tried st k _ here (λ e. display_close-bounds s (k + 2) e) ready)
        (λ _. ready)

  inline_found-Tried :
      (st : Scan E) (k : ℕ) (o : Option ℕ)
      → base ≡ length pre
      → k < length s
      → at s k ≡ b'$'
      → ((e : ℕ) → o ≡ some e → (k < e) × (e < length s))
      → Ready s pre st k
      → Tried s pre k (inline_found E s base st k o)
  unfolding inline_found Tried
  inline_found-Tried st k none here inside byte bounds ready =
      (omega arith, escape_dollar-Ready E s pre base st k here inside byte ready)
  inline_found-Tried st k (some e) here inside byte bounds ready =
      let (low, high) = bounds e refl in
      add-Tried E s pre base st (k + 1) e false dollar k (e + 1) here (omega (arith, low))
        (omega (arith, high)) ready

  pub dollar_at-Moved :
      (k : ℕ) (st : Scan E)
      → base ≡ length pre
      → k < length s
      → at s k ≡ b'$'
      → Ready s pre st k
      → Moved s pre k (dollar_at E s base k st)
  unfolding dollar_at try_inline
  dollar_at-Moved k st here inside byte ready =
      or_at-Moved E s pre base k (k + 1) _ (omega arith) (omega (arith, inside)) (
        or_try-Tried s pre k _ (try_inline E s base k)
          (or_try-Tried s pre k _ (try_display E s base k) (try_backtick-Tried k st here ready)
            (λ next. try_display-Tried k next here))
          (λ next.
            inline_found-Tried next k (inline_dollar s k) here inside byte
              (λ e. inline_dollar-bounds s k e)))

  code_span_found-Moved :
      (st : Scan E) (k r : ℕ) (found : SegIndex E × Option ℕ)
      → k < r
      → r ≤ length s
      → IndexRight s found.0
      → ((e : ℕ) → found.1 ≡ some e → (r ≤ e) × (e + (r - k) ≤ length s))
      → Ready s pre st k
      → Moved s pre k (code_span_found E s base st k r found)
  unfolding code_span_found Moved
  code_span_found-Moved st k r (ix, none) lt inside right bounds ready = (
    lt,
    Ready-later s pre _ k r (omega (arith, lt)) inside (Ready-asked s pre st k ix right ready),
  )
  code_span_found-Moved st k r (ix, some e) lt inside right bounds ready =
      let (low, high) = bounds e refl in
      (
        omega (arith, low, lt),
        Ready-later s pre _ k (e + (r - k)) (omega (arith, low, lt)) high
            (Ready-asked s pre st k ix right ready),
      )

  tick_forward : (k : ℕ) → (at s k == b'`') ≡ true → k < skip is_tick s k
  unfolding skip run_length is_tick
  tick_forward k h = omega (arith, run_positive s k h)

  pub code_span-Moved :
      (k : ℕ) (st : Scan E)
      → k < length s
      → (at s k == b'`') ≡ true
      → Ready s pre st k
      → Moved s pre k (code_span E s base k st)
  unfolding code_span
  code_span-Moved k st inside tick ready =
      let r = skip is_tick s k in
      code_span_found-Moved st k r _ (tick_forward k tick)
        (skip-inside is_tick s k (omega (arith, inside)))
        (backtick_close-Right s st.ix r (r - k) (Ready-index s pre st k ready))
        (λ e. backtick_close-bounds s st.ix r (r - k) e) ready
