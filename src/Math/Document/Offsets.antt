-- ===== src/Math/Document/Offsets.antt =====
-- core/native/src/mathgrammar/mod.rs: the two maps of places undo each other outside the edits.
use jupynvim.Prelude.{
  ℕ, ◌+◌, ◌-◌, ◌≤◌, ◌<◌, ◌≡◌, refl, ap, ◌∙◌, ◌⊎◌, inl, inr, Bool, true, false, Option, none, some,
  List, [], ◌∷◌, if◌then◌else◌, leb, get_elem?, arith, Bool-cases,
}
use jupynvim.Math.{Bytes}
use jupynvim.Math.Output.{Edit}
use jupynvim.Math.Lookahead.{partition_point}
use jupynvim.Math.Index.{EnvIndex}
use jupynvim.Math.Document.{
  extract_math, edit_before, src_from, text_from, text_to_src, src_to_text,
}
use jupynvim.Math.Document.Order.{EditsInOrder, extract_math-EditsInOrder}

-- The last edit of those that `below` holds for at the start of a list, or the one before it.
last_below : (Edit → Bool) → Option Edit → List Edit → Option Edit
last_below below before [] = before
last_below below before (e ∷ edits) =
    let later = last_below below (some e) edits in if below e then later else before

get_elem?-last_below :
    (below : Edit → Bool) (p : Edit) (edits : List Edit)
    → get_elem? (p ∷ edits) (partition_point below edits) ≡ last_below below (some p) edits
unfolding partition_point last_below
get_elem?-last_below below p [] = refl
get_elem?-last_below below p (e ∷ edits) = elim (Bool-cases (below e)) [
  | inl h ↦ rw (partition_point, last_below, h) (get_elem?-last_below below e edits)
  | inr h ↦ rw (partition_point, last_below, h) refl
]

edit_before-last_below :
    (below : Edit → Bool) (edits : List Edit)
    → edit_before edits (partition_point below edits) ≡ last_below below none edits
unfolding edit_before partition_point last_below
edit_before-last_below below [] = refl
edit_before-last_below below (e ∷ edits) = elim (Bool-cases (below e)) [
  | inl h ↦ rw (partition_point, last_below, h) (get_elem?-last_below below e edits)
  | inr h ↦ rw (partition_point, last_below, h) refl
]

-- A place of the source that no edit replaced.
unfoldable pub Outside : ℕ → List Edit → Type 0
Outside off [] = Unit
Outside off (e ∷ edits) = ((off < e.src_start) ⊎ (e.src_end ≤ off)) × Outside off edits

-- What the maps of places do beyond the edit before, which ended at `i` and `j`.
After : Option Edit → ℕ → ℕ → ℕ → Type 0
After before i j off =
    (text_from off before ≡ j + (off - i)) × (src_from (j + (off - i)) before ≡ off)

edit-After : (e : Edit) (off : ℕ) → e.src_end ≤ off → After (some e) e.src_end e.text_end off
unfolding After text_from src_from
edit-After e off h = (ground arith, ground arith)

-- The edit that counts for a place of the source counts for its place in the text, which leads back.
Back : Option Edit → List Edit → ℕ → ℕ → Type 0
Back before edits j off =
    (last : Option Edit) × (last_below (λ e. leb e.src_start off) before edits ≡ last)
    × (j ≤ text_from off last)
    × (last_below (λ e. leb e.text_start (text_from off last)) before edits ≡ last)
    × (src_from (text_from off last) last ≡ off)

past_edit :
    (e : Edit) (off : ℕ)
    → (off < e.src_start) ⊎ (e.src_end ≤ off)
    → leb e.src_start off ≡ true
    → e.src_end ≤ off
past_edit e off (inl before) h = ground arith
past_edit e off (inr after) h = after

EditsInOrder-Back :
    (n m i j off : ℕ) (before : Option Edit) (edits : List Edit)
    → EditsInOrder n m i j edits
    → Outside off edits
    → i ≤ off
    → After before i j off
    → Back before edits j off
unfolding EditsInOrder Outside After Back last_below
EditsInOrder-Back n m i j off before [] order outside le (there, back) =
    (before, refl, omega (arith, there), refl, ap (λ k. src_from k before) there ∙ back)
EditsInOrder-Back n m i j off before (e ∷ edits) (a, b, gap, c, d, order) (side, outside) le
      (there, back) =
    elim (Bool-cases (leb e.src_start off)) [
      | inl h ↦
          let ended : e.src_end ≤ off = past_edit e off side h in
          let (last, counts, low, same, home) =
            EditsInOrder-Back n m e.src_end e.text_end off (some e) edits order outside ended
              (edit-After e off ended) in
          let reached : leb e.text_start (text_from off last) ≡ true = ground (arith, low, d) in
          (
            last,
            rw (last_below, h) counts,
            omega (arith, low, b, d),
            rw (last_below, reached) same,
            home,
          )
      | inr h ↦
          let early : leb e.text_start (text_from off before) ≡ false =
            ground (arith, there, gap, le, a, b) in
          (
            before,
            rw (last_below, h) refl,
            omega (arith, there),
            rw (last_below, early) refl,
            ap (λ k. src_from k before) there ∙ back,
          )
    ]

start : (off : ℕ) → After none 0 0 off
unfolding After text_from src_from
start off = (omega arith, omega arith)

-- A place of the source that no edit replaced is taken to a place of the text that is taken back to
-- it.
pub text_to_src-src_to_text :
    (E : EnvIndex) (src : Bytes) (off : ℕ)
    → Outside off (extract_math E src).edits
    → text_to_src (extract_math E src).edits (src_to_text (extract_math E src).edits off) ≡ off
unfolding text_to_src src_to_text Back After
text_to_src-src_to_text E src off outside =
    let edits = (extract_math E src).edits in
    let (last, counts, _, same, home) =
      EditsInOrder-Back _ _ 0 0 off none edits (extract_math-EditsInOrder E src) outside
        (omega arith) (start off) in
    let there : src_to_text edits off ≡ text_from off last =
      ap (text_from off) (edit_before-last_below (λ e. leb e.src_start off) edits ∙ counts) in
    ap (text_to_src edits) there
    ∙ ap (src_from (text_from off last))
        (edit_before-last_below (λ e. leb e.text_start (text_from off last)) edits ∙ same)
    ∙ home
