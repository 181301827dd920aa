-- ===== src/Math/Output.antt =====
-- The types of core/native/src/mathgrammar/mod.rs and the output of scan.rs: maths, edits and the
-- placeholders that stand for the maths in the text.
use jupynvim.Prelude.{
  ℕ, ◌+◌, ◌-◌, Bool, Option, none, some, List, [], ◌∷◌, ◌++◌, if◌then◌else◌, length, replicate,
}
use jupynvim.Guard.Decimal.{print}
use jupynvim.Math.{Bytes}

-- `Kind`.
pub data Kind : Type 0 where
  fence : Kind
  doubled : Kind
  paren : Kind
  bracket : Kind
  env : Kind
  backtick : Kind
  dollars : Kind
  dollar : Kind

-- `Math`.
pub record Formula : Type 0 where
  pub tex : Bytes
  pub display : Bool
  pub block : Bool
  pub kind : Kind
  pub raw : Bytes

-- `Edit`, whose two ranges are four places.
pub record Edit : Type 0 where
  pub src_start : ℕ
  pub src_end : ℕ
  pub text_start : ℕ
  pub text_end : ℕ
  pub math : Option ℕ

-- `Out`; `Extracted` has the same three fields, with `buf` as its text.
pub record Out : Type 0 where
  pub buf : Bytes
  pub maths : List Formula
  pub edits : List Edit

-- `{i:04}`.
unfoldable pub padded : ℕ → Bytes
unfolding print
padded i = replicate (4 - length (print i)) b'0' ++ print i

-- `placeholder`, and what `push_placeholder` appends.
unfoldable pub placeholder : ℕ → Bool → Bytes
unfolding padded
placeholder i display =
    (if display
      then b'Z' ∷ b'Z' ∷ b'D' ∷ b'M' ∷ b'T' ∷ b'H' ∷ []
      else b'Z' ∷ b'Z' ∷ b'M' ∷ b'T' ∷ b'H' ∷ [])
    ++ padded i
    ++ b'Z' ∷ b'Z' ∷ []

-- What `escape_dollar` writes.
abbrev pub escaped_dollar : Bytes
escaped_dollar = b'\\' ∷ b'$' ∷ []

-- The edit of a math's placeholder, over a range of the source.
unfoldable pub found_edit : Out → Formula → ℕ → ℕ → Edit
unfolding placeholder
found_edit o m src_start src_end = record {
  src_start = src_start;
  src_end = src_end;
  text_start = length o.buf;
  text_end = length (o.buf ++ placeholder (length o.maths + 1) m.display);
  math = some (length o.maths);
}

-- A math, its placeholder and its edit.
unfoldable pub push_found : Out → Formula → ℕ → ℕ → Out
unfolding placeholder found_edit
push_found o m src_start src_end = record {
  buf = o.buf ++ placeholder (length o.maths + 1) m.display;
  maths = o.maths ++ m ∷ [];
  edits = o.edits ++ found_edit o m src_start src_end ∷ [];
}

-- The edit of an escaped `$`.
unfoldable pub escaped_edit : Out → ℕ → Edit
escaped_edit o src_start = record {
  src_start = src_start;
  src_end = src_start + 1;
  text_start = length o.buf;
  text_end = length o.buf + 2;
  math = none;
}

-- An escaped `$` and its edit.
unfoldable pub push_escaped : Out → ℕ → Out
unfolding escaped_edit
push_escaped o src_start = record o {
  buf = o.buf ++ escaped_dollar;
  edits = o.edits ++ escaped_edit o src_start ∷ [];
}
