-- ===== src/Math/Scan/Asked.antt =====
-- core/native/src/mathgrammar/scan.rs: the states of a scan around a try, and questions to its index.
use jupynvim.Prelude.{ℕ, ◌≤◌, ◌<◌, Option, none, some, length, arith}
use jupynvim.Math.{Bytes}
use jupynvim.Math.Index.{EnvIndex, SegIndex, has_b1, close_at, nn_after, backtick_close}
use jupynvim.Math.Index.Right.{IndexRight}
use jupynvim.Math.Scan.{Scan, or_try, or_at}
use jupynvim.Math.Scan.Places.{Ready}

-- A try at place `k` left the scan there, or moved it on.
unfoldable pub Tried : {E : EnvIndex} → Bytes → Bytes → ℕ → Scan E × Option ℕ → Type 0
Tried s pre k (st, none) = Ready s pre st k
Tried s pre k (st, some next) = (k < next) × Ready s pre st next

-- The scan moved on from place `k`.
unfoldable pub Moved : {E : EnvIndex} → Bytes → Bytes → ℕ → Scan E × ℕ → Type 0
Moved s pre k (st, next) = (k < next) × Ready s pre st next

pub Ready-later :
    {E : EnvIndex} (s pre : Bytes) (st : Scan E) (k next : ℕ)
    → k ≤ next
    → next ≤ length s
    → Ready s pre st k
    → Ready s pre st next
unfolding Ready
Ready-later s pre st k next le inside (run, _, right, pieced) =
    (omega (arith, run, le), inside, right, pieced)

pub Ready-index :
    {E : EnvIndex} (s pre : Bytes) (st : Scan E) (k : ℕ) → Ready s pre st k → IndexRight s st.ix
unfolding Ready
Ready-index s pre st k (_, _, right, _) = right

pub Ready-inside :
    {E : EnvIndex} (s pre : Bytes) (st : Scan E) (k : ℕ) → Ready s pre st k → k ≤ length s
unfolding Ready
Ready-inside s pre st k (_, inside, _, _) = inside

-- A question to the index leaves the rest of the state.
pub Ready-asked :
    {E : EnvIndex} (s pre : Bytes) (st : Scan E) (k : ℕ) (ix : SegIndex E)
    → IndexRight s ix
    → Ready s pre st k
    → Ready s pre (record st { ix = ix }) k
unfolding Ready
Ready-asked s pre st k ix right (run, inside, _, pieced) = (run, inside, right, pieced)

pub has_b1-Right :
    {E : EnvIndex} (s : Bytes) (ix : SegIndex E) (from to : ℕ)
    → IndexRight s ix
    → IndexRight s (has_b1 s ix from to).0
unfolding has_b1 IndexRight
has_b1-Right s ix from to right = right

pub close_at-Right :
    {E : EnvIndex} (s : Bytes) (ix : SegIndex E) (r : ℕ) (o : Option ℕ)
    → IndexRight s ix
    → IndexRight s (close_at s ix r o).0
unfolding close_at nn_after IndexRight
close_at-Right s ix r none right = right
close_at-Right s ix r (some st) right = right

pub backtick_close-Right :
    {E : EnvIndex} (s : Bytes) (ix : SegIndex E) (r len : ℕ)
    → IndexRight s ix
    → IndexRight s (backtick_close s ix r len).0
unfolding backtick_close
backtick_close-Right s ix r len right = close_at-Right s ix r _ right

pub or_try-Tried :
    {E : EnvIndex} (s pre : Bytes) (k : ℕ) (r : Scan E × Option ℕ)
    (next : Scan E → Scan E × Option ℕ)
    → Tried s pre k r
    → ((st : Scan E) → Ready s pre st k → Tried s pre k (next st))
    → Tried s pre k (or_try r next)
unfolding or_try Tried
or_try-Tried s pre k (st, none) next h later = later st h
or_try-Tried s pre k (st, some n) next h later = h

pub or_at-Moved :
    (E : EnvIndex) (s pre : Bytes) (base k next : ℕ) (r : Scan E × Option ℕ)
    → k < next
    → next ≤ length s
    → Tried s pre k r
    → Moved s pre k (or_at E s base next r)
unfolding or_at Tried Moved
or_at-Moved E s pre base k next (st, none) lt le h =
    (lt, Ready-later s pre st k next (omega (arith, lt)) le h)
or_at-Moved E s pre base k next (st, some n) lt le h = h
