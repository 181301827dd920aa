-- ===== src/Math/Scan/Escapes.antt =====
-- core/native/src/mathgrammar/scan.rs: what a backslash does.
use jupynvim.Prelude.{
  ℕ, ◌+◌, ◌≤◌, ◌<◌, ◌≡◌, refl, sym, ap, ◌∙◌, Bool, true, false, ◌&&◌, ◌||◌, Option, none, some,
  if◌then◌else◌, ◌==◌, length, arith, if_elim,
}
use mathlib.Core.Option.{none-ne-some, some-injective}
use jupynvim.Math.{Bytes, at, is_punct}
use jupynvim.Math.Bytes.{at-inside}
use jupynvim.Math.Output.{Kind, doubled, env}
use jupynvim.Math.Dollars.{begin_name}
use jupynvim.Math.Lookahead.{Walk, closed, gave_up, walk_direct}
use jupynvim.Math.Index.{EnvIndex, SegIndex, ask_env, closing}
use jupynvim.Math.Index.Doubled.{search_doubled-bounds}
use jupynvim.Math.Index.Right.{
  IndexRight, find_doubled_close-Right, walk_paren-Right, walk_answer, closing-positive,
}
use jupynvim.Math.Scan.{
  Scan, add, unless_blank, doubled_found, try_doubled, paren_found, try_paren, env_found, env_named,
  try_env, backslash,
}
use jupynvim.Math.Scan.Bounds.{walk_direct-bounds}
use jupynvim.Math.Scan.Places.{Ready, push_math-Ready}
use jupynvim.Math.Scan.Asked.{
  Tried, Moved, Ready-index, Ready-asked, has_b1-Right, or_try-Tried, or_at-Moved,
}

module _ (E : EnvIndex) (s pre : Bytes) (base : ℕ) where
  pub add-Tried :
      (st : Scan E) (a b : ℕ) (display : Bool) (kind : Kind) (k end : ℕ)
      → base ≡ length pre
      → k < end
      → end ≤ length s
      → Ready s pre st k
      → Tried s pre k (add E s base st a b display kind k end, some end)
  unfolding Tried add
  add-Tried st a b display kind k end here lt le ready =
      (lt, push_math-Ready E s pre base st _ display _ kind k end here (omega (arith, lt)) le ready)

  unless_blank-Tried :
      (st : Scan E) (a b : ℕ) (display : Bool) (kind : Kind) (k end : ℕ) (r : SegIndex E × Bool)
      → base ≡ length pre
      → k < end
      → end ≤ length s
      → IndexRight s r.0
      → Ready s pre st k
      → Tried s pre k (unless_blank E s base st a b display kind k end end r)
  unfolding unless_blank Tried
  unless_blank-Tried st a b display kind k end (ix, true) here lt le right ready =
      Ready-asked s pre st k ix right ready
  unless_blank-Tried st a b display kind k end (ix, false) here lt le right ready =
      add-Tried (record st { ix = ix }) a b display kind k end here lt le
        (Ready-asked s pre st k ix right ready)

  doubled_found-Tried :
      (st : Scan E) (k : ℕ) (display : Bool) (r : SegIndex E × Option ℕ)
      → base ≡ length pre
      → IndexRight s r.0
      → ((e : ℕ) → r.1 ≡ some e → (k + 3 ≤ e) × (e + 3 ≤ length s))
      → Ready s pre st k
      → Tried s pre k (doubled_found E s base st k display r)
  unfolding doubled_found Tried
  doubled_found-Tried st k display (ix, none) here right bounds ready =
      Ready-asked s pre st k ix right ready
  doubled_found-Tried st k display (ix, some e) here right bounds ready =
      let (low, high) = bounds e refl in
      unless_blank-Tried st (k + 3) e display doubled k (e + 3) _ here (omega (arith, low)) high
        (has_b1-Right s ix k e right) ready

  try_doubled-Tried :
      (k : ℕ) (st : Scan E)
      → base ≡ length pre
      → Ready s pre st k
      → Tried s pre k (try_doubled E s base k st)
  unfolding try_doubled Tried
  try_doubled-Tried k st here ready =
      let opening = at s (k + 2) in
      let round = opening == b'(' in
      let (right, same) =
        find_doubled_close-Right s st.ix (k + 3) round (Ready-index s pre st k ready) in
      if_elim (Tried s pre k) (at s (k + 1) == b'\\' && (opening == b'(' || opening == b'[')) _ _
        (λ _.
          doubled_found-Tried st k _ _ here right
            (λ e found.
              search_doubled-bounds s (k + 3) (closing round) e (closing-positive round)
                (sym same ∙ found))
            ready)
        (λ _. ready)

  paren_found-Tried :
      (st : Scan E) (k d : ℕ) (r : SegIndex E × Option ℕ)
      → base ≡ length pre
      → IndexRight s r.0
      → ((e : ℕ) → r.1 ≡ some e → (k + 2 ≤ e) × (e + 2 ≤ length s))
      → Ready s pre st k
      → Tried s pre k (paren_found E s base st k d r)
  unfolding paren_found Tried
  paren_found-Tried st k d (ix, none) here right bounds ready =
      Ready-asked s pre st k ix right ready
  paren_found-Tried st k d (ix, some e) here right bounds ready =
      let (low, high) = bounds e refl in
      add-Tried (record st { ix = ix }) (k + 2) e _ _ k (e + 2) here (omega (arith, low)) high
        (Ready-asked s pre st k ix right ready)

  walk_answer-bounds :
      (from : ℕ) (round : Bool) (w : Walk) (e : ℕ)
      → walk_direct s from (closing round) ≡ w
      → walk_answer w ≡ some e
      → (from ≤ e) × (e + 2 ≤ length s)
  walk_answer-bounds from round (closed x) e same h =
      walk_direct-bounds s from (closing round) e (closing-positive round)
        (same ∙ ap closed (some-injective x e h))
  walk_answer-bounds from round (gave_up x) e same h = absurd (none-ne-some e h)

  try_paren-Tried :
      (k : ℕ) (st : Scan E)
      → base ≡ length pre
      → Ready s pre st k
      → Tried s pre k (try_paren E s base k st)
  unfolding try_paren Tried
  try_paren-Tried k st here ready =
      let d = at s (k + 1) in
      let round = d == b'(' in
      if_elim (Tried s pre k) (d == b'(' || d == b'[') _ _
        (λ o.
          let (right, same) = walk_paren-Right s st.ix k round o (Ready-index s pre st k ready) in
          paren_found-Tried st k d _ here right
            (λ e found. walk_answer-bounds (k + 2) round _ e refl (sym same ∙ found)) ready)
        (λ _. ready)

  env_found-Tried :
      (st : Scan E) (k : ℕ) (r : SegIndex E × Option ℕ)
      → base ≡ length pre
      → IndexRight s r.0
      → ((e : ℕ) → r.1 ≡ some e → (k < e) × (e ≤ length s))
      → Ready s pre st k
      → Tried s pre k (env_found E s base st k r)
  unfolding env_found Tried
  env_found-Tried st k (ix, none) here right bounds ready = Ready-asked s pre st k ix right ready
  env_found-Tried st k (ix, some e) here right bounds ready =
      let (low, high) = bounds e refl in
      unless_blank-Tried st k e true env k e _ here low high (has_b1-Right s ix k e right) ready

  env_named-Tried :
      (st : Scan E) (k : ℕ) (name : Option Bytes)
      → base ≡ length pre
      → Ready s pre st k
      → Tried s pre k (env_named E s base st k name)
  unfolding env_named ask_env IndexRight Tried
  env_named-Tried st k none here ready = ready
  env_named-Tried st k (some name) here ready =
      env_found-Tried st k (ask_env E s st.ix k name) here (Ready-index s pre st k ready)
        (λ e found. E.env_end_inside st.ix.envs s k name e found) ready

  punct_inside :
      (k : ℕ) → k < length s → (if is_punct (at s (k + 1)) then k + 2 else k + 1) ≤ length s
  unfolding is_punct
  punct_inside k inside = ground (arith, at-inside s (k + 1))

  pub backslash-Moved :
      (k : ℕ) (st : Scan E)
      → base ≡ length pre
      → k < length s
      → Ready s pre st k
      → Moved s pre k (backslash E s base k st)
  unfolding backslash try_env
  backslash-Moved k st here inside ready =
      or_at-Moved E s pre base k (if is_punct (at s (k + 1)) then k + 2 else k + 1) _ (ground arith)
        (punct_inside k inside)
        (or_try-Tried s pre k _ (try_env E s base k)
          (or_try-Tried s pre k _ (try_paren E s base k) (try_doubled-Tried k st here ready)
            (λ next. try_paren-Tried k next here))
          (λ next. env_named-Tried next k (begin_name s k) here))
