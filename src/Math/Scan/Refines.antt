-- ===== src/Math/Scan/Refines.antt =====
-- core/native/src/mathgrammar/scan.rs: a scan writes out pieces of its segment, each in its place, and
-- reads it to its end.
use jupynvim.Prelude.{
  ℕ, zero, suc, ◌+◌, ◌≤◌, ◌<◌, ◌≡◌, refl, sym, subst, ◌++◌, ltb, ◌==◌, length, append-nil, arith,
  if_elim, Bool-cases, inl, inr, ltb→lt,
}
use jupynvim.Math.{Bytes, at}
use jupynvim.Math.Bytes.{take-length}
use jupynvim.Math.Output.{Out}
use jupynvim.Math.Pieces.{Pieced}
use jupynvim.Math.Index.{EnvIndex, new_index}
use jupynvim.Math.Index.Right.{new_index-IndexRight}
use jupynvim.Math.Scan.{Scan, scan_byte, scan_loop, scan_text}
use jupynvim.Math.Scan.Bounds.{match_markup-Ahead}
use jupynvim.Math.Scan.Places.{Ready, flush-Pieced}
use jupynvim.Math.Scan.Asked.{Moved, Ready-later, Ready-inside}
use jupynvim.Math.Scan.Escapes.{backslash-Moved}
use jupynvim.Math.Scan.Spans.{dollar_at-Moved, code_span-Moved}

module _ (E : EnvIndex) (s pre : Bytes) (base : ℕ) where
  -- A round moves on.
  scan_byte-Moved :
      (k : ℕ) (st : Scan E)
      → base ≡ length pre
      → k < length s
      → Ready s pre st k
      → Moved s pre k (scan_byte E s base k st)
  unfolding scan_byte Moved
  scan_byte-Moved k st here inside ready =
      let c = at s k in
      let step : (next : ℕ) → (k < next) × (next ≤ length s) → Moved s pre k (st, next) =
        λ next (low, high). (low, Ready-later s pre st k next (omega (arith, low)) high ready) in
      if_elim (Moved s pre k) (c == b'<') _ _ (λ _. step _ (match_markup-Ahead s k inside))
        (λ _.
          if_elim (Moved s pre k) (c == b'\\') _ _
            (λ _. backslash-Moved E s pre base k st here inside ready)
            (λ _.
              if_elim (Moved s pre k) (c == b'`') _ _
                (λ h. code_span-Moved E s pre base k st inside h ready)
                (λ _.
                  if_elim (Moved s pre k) (c == b'$') _ _
                    (λ h. dollar_at-Moved E s pre base k st here inside (ground arith) ready)
                    (λ _. step (k + 1) (omega arith, omega (arith, inside))))))

  -- The loop reads the segment to its end.
  scan_loop-Ready :
      (f : ℕ) (r : Scan E × ℕ)
      → base ≡ length pre
      → length s ≤ r.1 + f
      → Ready s pre r.0 r.1
      → Ready s pre (scan_loop E s base f r).0 (length s) × ((scan_loop E s base f r).1 ≡ length s)
  unfolding scan_loop Moved
  scan_loop-Ready zero (st, k) here h ready =
      let inside = Ready-inside s pre st k ready in
      (Ready-later s pre st k (length s) inside (omega arith) ready, omega (arith, inside, h))
  scan_loop-Ready (suc f) (st, k) here h ready = elim (Bool-cases (ltb k (length s))) [
    | inl e ↦
        let (lt, next) = scan_byte-Moved k st here (ltb→lt _ _ e) ready in
        rw (scan_loop, e)
          (scan_loop-Ready f (scan_byte E s base k st) here (omega (arith, lt, h)) next)
    | inr e ↦
        let inside = Ready-inside s pre st k ready in
        rw (scan_loop, e)
          (Ready-later s pre st k (length s) inside (omega arith) ready, ground (arith, inside))
  ]

-- What a scan adds to the output are pieces of its segment, in order.
pub scan_text-Pieced :
    (E : EnvIndex) (s pre : Bytes) (base : ℕ) (o : Out)
    → base ≡ length pre
    → Pieced o pre
    → Pieced (scan_text E s base o) (pre ++ s)
unfolding scan_text Ready
scan_text-Pieced E s pre base o here pieced =
    let first : Scan E = record { out = o; run = 0; ix = new_index E } in
    let start = subst (Pieced o) (sym (append-nil pre)) pieced in
    let ready : Ready s pre first 0 = (omega arith, omega arith, new_index-IndexRight E s, start) in
    let ((run, inside, _, done), _) =
      scan_loop-Ready E s pre base (length s) (first, 0) here (omega arith) ready in
    subst (λ xs. Pieced (scan_text E s base o) (pre ++ xs)) (take-length s)
      (flush-Pieced E s pre base (scan_loop E s base (length s) (first, 0)).0 (length s) run inside
        done)

-- As many rounds as it has bytes read a segment to its end, whatever was written out before it.
pub scan_loop-length :
    (E : EnvIndex) (s pre : Bytes) (o : Out)
    → Pieced o pre
    → (scan_loop E s (length pre) (length s) (record { out = o; run = 0; ix = new_index E }, 0)).1
      ≡ length s
unfolding Ready
scan_loop-length E s pre o pieced =
    let first : Scan E = record { out = o; run = 0; ix = new_index E } in
    let start = subst (Pieced o) (sym (append-nil pre)) pieced in
    let ready : Ready s pre first 0 = (omega arith, omega arith, new_index-IndexRight E s, start) in
    (scan_loop-Ready E s pre (length pre) (length s) (first, 0) refl (omega arith) ready).1
