-- ===== src/Palette/Once.antt =====
-- core/native/src/palette/wire.rs: a request that is accepted gives its kind on one line.
use jupynvim.Prelude.{
  ℕ, suc, ◌≡◌, refl, sym, ap, subst, ◌∙◌, ◌⊎◌, inl, inr, Bool, true, false, ◌||◌, Option, none,
  some, List, [], ◌∷◌, ◌++◌, if◌then◌else◌, get_or, arith, Bool-cases, if_elim,
}
use jupynvim.Math.{Bytes}
use jupynvim.Math.Fences.{same_bytes}
use jupynvim.Palette.{
  Rgb, PaletteKind, DeriveInput, no_kind, kind_twice, name_twice, term_twice, set_twice,
  group_twice, override_twice, no_version, ParsedInput, request_ok, request_refused, Reading,
  LineResult, good, bad, split_once, parts, color_arg, position, kind_of, put_kind, take_kind,
  put_name, take_name, put_terminal, put_term, take_term, take_set, is_color, put_group,
  with_colors, take_group, put_override, with_token, take_override, take_wire_line, read_lines,
  nothing_read, lines_of, after_version, parse_input,
}
use jupynvim.Palette.Names.{group_names, token_names}
use jupynvim.Palette.Blame.{
  not_refused, LineResult-cases, read_lines-good, read_lines-bad, parse_input-valid,
  parse_input-empty,
}

-- A line that is no `kind` line leaves the kind.
KeepsKind : Reading → LineResult → Type 0
KeepsKind st (good next) = (next.kind_seen ≡ st.kind_seen) × (next.input.kind ≡ st.input.kind)
KeepsKind st (bad f) = Unit

put_name-KeepsKind : (st : Reading) (rest : Option Bytes) → KeepsKind st (put_name st rest)
unfolding put_name KeepsKind
put_name-KeepsKind st none = tt
put_name-KeepsKind st (some []) = tt
put_name-KeepsKind st (some (b ∷ rest)) =
    if_elim (KeepsKind st) (same_bytes (b ∷ rest) (b'-' ∷ [])) _ _ (λ _. (refl, refl))
      (λ _. (refl, refl))

take_name-KeepsKind : (st : Reading) (rest : Option Bytes) → KeepsKind st (take_name st rest)
unfolding take_name KeepsKind
take_name-KeepsKind st rest =
    if_elim (KeepsKind st) st.name_seen (bad name_twice) (put_name st rest) (λ _. tt)
      (λ _. put_name-KeepsKind st rest)

put_terminal-KeepsKind : (st : Reading) (c : Option (Option Rgb)) → KeepsKind st (put_terminal st c)
unfolding put_terminal KeepsKind
put_terminal-KeepsKind st none = tt
put_terminal-KeepsKind st (some c) = (refl, refl)

put_term-KeepsKind : (st : Reading) (rest : Option Bytes) → KeepsKind st (put_term st rest)
unfolding put_term KeepsKind
put_term-KeepsKind st none = tt
put_term-KeepsKind st (some rest) = put_terminal-KeepsKind st (color_arg true rest)

take_term-KeepsKind : (st : Reading) (rest : Option Bytes) → KeepsKind st (take_term st rest)
unfolding take_term KeepsKind
take_term-KeepsKind st rest =
    if_elim (KeepsKind st) st.term_seen (bad term_twice) (put_term st rest) (λ _. tt)
      (λ _. put_term-KeepsKind st rest)

take_set-KeepsKind : (st : Reading) (rest : Option Bytes) → KeepsKind st (take_set st rest)
unfolding take_set KeepsKind
take_set-KeepsKind st (some rest) = tt
take_set-KeepsKind st none =
    if_elim (KeepsKind st) st.input.set_current (bad set_twice) _ (λ _. tt) (λ _. (refl, refl))

kind_kept :
    (c : Bool) (i : DeriveInput) (groups : List (Bytes × Option Rgb × Option Rgb))
    → (if c then record i { groups = groups } else i).kind ≡ i.kind
kind_kept true i groups = refl
kind_kept false i groups = refl

put_group-KeepsKind :
    (st : Reading) (group : Bytes) (fg bg : Option Rgb) (o : Option ℕ)
    → KeepsKind st (put_group st group fg bg o)
unfolding put_group KeepsKind
put_group-KeepsKind st group fg bg none = (refl, refl)
put_group-KeepsKind st group fg bg (some i) =
    if_elim (KeepsKind st) (get_or st.group_seen i false) (bad group_twice) _ (λ _. tt)
      (λ _. (refl, kind_kept (is_color fg || is_color bg) st.input _))

with_colors-KeepsKind :
    (st : Reading) (group : Bytes) (fg bg : Option (Option Rgb))
    → KeepsKind st (with_colors st group fg bg)
unfolding with_colors KeepsKind
with_colors-KeepsKind st group none bg = tt
with_colors-KeepsKind st group (some fg) none = tt
with_colors-KeepsKind st group (some fg) (some bg) =
    put_group-KeepsKind st group fg bg (position group group_names)

take_group-KeepsKind : (st : Reading) (pieces : List Bytes) → KeepsKind st (take_group st pieces)
unfolding take_group KeepsKind
take_group-KeepsKind st [] = tt
take_group-KeepsKind st (a ∷ []) = tt
take_group-KeepsKind st (a ∷ b ∷ []) = tt
take_group-KeepsKind st (a ∷ b ∷ c ∷ []) =
    with_colors-KeepsKind st a (color_arg true b) (color_arg true c)
take_group-KeepsKind st (a ∷ b ∷ c ∷ d ∷ more) = tt

put_override-KeepsKind :
    (st : Reading) (t : ℕ) (c : Option (Option Rgb)) → KeepsKind st (put_override st t c)
unfolding put_override KeepsKind
put_override-KeepsKind st t none = tt
put_override-KeepsKind st t (some c) =
    if_elim (KeepsKind st) (is_color (get_or st.input.overrides t none)) (bad override_twice) _
      (λ _. tt) (λ _. (refl, refl))

with_token-KeepsKind :
    (st : Reading) (color : Bytes) (o : Option ℕ) → KeepsKind st (with_token st color o)
unfolding with_token KeepsKind
with_token-KeepsKind st color none = tt
with_token-KeepsKind st color (some t) = put_override-KeepsKind st t (color_arg false color)

take_override-KeepsKind :
    (st : Reading) (pieces : List Bytes) → KeepsKind st (take_override st pieces)
unfolding take_override KeepsKind
take_override-KeepsKind st [] = tt
take_override-KeepsKind st (a ∷ []) = tt
take_override-KeepsKind st (a ∷ b ∷ []) = with_token-KeepsKind st b (position a token_names)
take_override-KeepsKind st (a ∷ b ∷ c ∷ more) = tt

-- Whether a line gives the kind, and the kind it gives.
unfoldable pub is_kind_line : Bytes → Bool
is_kind_line line = same_bytes (split_once line).0 (b'k' ∷ b'i' ∷ b'n' ∷ b'd' ∷ [])

unfoldable pub kind_on : Bytes → Option PaletteKind
unfolding kind_of
kind_on line = kind_of (split_once line).1

-- What an accepted line does to the kind.
Gives : Reading → Bytes → LineResult → Type 0
Gives st line (bad f) = Unit
Gives st line (good next) =
    ((is_kind_line line ≡ true)
      × (st.kind_seen ≡ false)
      × (next.kind_seen ≡ true)
      × (kind_on line ≡ some next.input.kind))
    ⊎ ((is_kind_line line ≡ false)
        × (next.kind_seen ≡ st.kind_seen)
        × (next.input.kind ≡ st.input.kind))

put_kind-Gives :
    (st : Reading) (line : Bytes) (o : Option PaletteKind)
    → is_kind_line line ≡ true
    → st.kind_seen ≡ false
    → kind_on line ≡ o
    → Gives st line (put_kind st o)
unfolding put_kind Gives
put_kind-Gives st line none h unseen e = tt
put_kind-Gives st line (some kind) h unseen e = inl (h, unseen, refl, e)

KeepsKind-Gives :
    (st : Reading) (line : Bytes) (c : LineResult)
    → is_kind_line line ≡ false
    → KeepsKind st c
    → Gives st line c
unfolding KeepsKind Gives
KeepsKind-Gives st line (good next) h (a, b) = inr (h, a, b)
KeepsKind-Gives st line (bad f) h k = tt

take_wire_line-Gives : (st : Reading) (line : Bytes) → Gives st line (take_wire_line st line)
unfolding take_wire_line take_kind is_kind_line kind_on Gives KeepsKind
take_wire_line-Gives st line =
    let word = (split_once line).0 in
    let rest = (split_once line).1 in
    if_elim (Gives st line) (is_kind_line line) (take_kind st rest) _
      (λ h.
        if_elim (Gives st line) st.kind_seen (bad kind_twice) (put_kind st (kind_of rest)) (λ _. tt)
          (λ unseen. put_kind-Gives st line (kind_of rest) h unseen refl))
      (λ h. KeepsKind-Gives st line _ h (
        if_elim (KeepsKind st) (same_bytes word (b'n' ∷ b'a' ∷ b'm' ∷ b'e' ∷ [])) _ _
          (λ _. take_name-KeepsKind st rest)
          (λ _.
            if_elim (KeepsKind st) (same_bytes word (b't' ∷ b'e' ∷ b'r' ∷ b'm' ∷ [])) _ _
              (λ _. take_term-KeepsKind st rest)
              (λ _.
                if_elim (KeepsKind st) (same_bytes word (b's' ∷ b'e' ∷ b't' ∷ [])) _ _
                  (λ _. take_set-KeepsKind st rest)
                  (λ _.
                    if_elim (KeepsKind st) (same_bytes word (b'g' ∷ [])) _ _
                      (λ _. take_group-KeepsKind st (parts rest))
                      (λ _.
                        if_elim (KeepsKind st) (same_bytes word (b'o' ∷ [])) _ _
                          (λ _. take_override-KeepsKind st (parts rest)) (λ _. tt)))))))

-- No line gives the kind.
unfoldable pub NoneGives : List Bytes → Type 0
NoneGives [] = Unit
NoneGives (line ∷ lines) = (is_kind_line line ≡ false) × NoneGives lines

-- One line gives the kind, and no other line does.
unfoldable pub OneGives : PaletteKind → List Bytes → Type 0
unfolding NoneGives
OneGives kind lines =
    (before : List Bytes) × (line : Bytes) × (after : List Bytes) × (lines ≡ before ++ line ∷ after)
    × (is_kind_line line ≡ true)
    × (kind_on line ≡ some kind)
    × NoneGives before
    × NoneGives after

-- What the rest of the lines gives, after a state.
Given : Reading → List Bytes → DeriveInput → Type 0
Given st lines i =
    ((st.kind_seen ≡ true) × (i.kind ≡ st.input.kind) × NoneGives lines)
    ⊎ ((st.kind_seen ≡ false) × OneGives i.kind lines)

request_of : DeriveInput → ParsedInput → DeriveInput
request_of d (request_ok i) = i
request_of d (request_refused n f) = d

no_more-Given :
    (n : ℕ) (st : Reading) (i : DeriveInput) → read_lines n [] st ≡ request_ok i → Given st [] i
unfolding read_lines Given NoneGives request_of
no_more-Given n st i h = elim (Bool-cases st.kind_seen) [
  | inl seen ↦
      let all : read_lines n [] st ≡ request_ok st.input = rw seen refl in
      inl (seen, ap (λ r. (request_of i r).kind) (sym h ∙ all), tt)
  | inr unseen ↦
      let all : read_lines n [] st ≡ request_refused n no_kind = rw unseen refl in
      not_refused i n no_kind (Given st [] i) (sym h ∙ all)
]

one_line-Given :
    (st next : Reading) (line : Bytes) (more : List Bytes) (i : DeriveInput)
    → Gives st line (good next)
    → Given next more i
    → Given st (line ∷ more) i
unfolding Gives Given OneGives NoneGives
one_line-Given st next line more i (inl (h, unseen, seen, kind)) (inl (_, same, none_more)) =
    inr (unseen, ([], line, more, refl, h, kind ∙ ap some (sym same), tt, none_more))
one_line-Given st next line more i (inl (h, unseen, seen, kind)) (inr (not_seen, _)) = ground arith
one_line-Given st next line more i (inr (h, kept, same)) (inl (seen, kind, none_more)) =
    inl (sym kept ∙ seen, kind ∙ same, (h, none_more))
one_line-Given st next line more i (inr (h, kept, same))
      (inr (unseen, (before, found, after, cut, is, kind, a, b))) =
    inr (
      sym kept ∙ unseen,
      (line ∷ before, found, after, ap (λ xs. line ∷ xs) cut, is, kind, (h, a), b),
    )

read_lines-Given :
    (n : ℕ) (lines : List Bytes) (st : Reading) (i : DeriveInput)
    → read_lines n lines st ≡ request_ok i
    → Given st lines i
read_lines-Given n [] st i h = no_more-Given n st i h
read_lines-Given n (line ∷ more) st i h = elim (LineResult-cases (take_wire_line st line)) [
  | inl (next, e) ↦
      one_line-Given st next line more i (subst (Gives st line) e (take_wire_line-Gives st line))
        (read_lines-Given (suc n) more next i (sym (read_lines-good n line more st next e) ∙ h))
  | inr (f, e) ↦
      not_refused i n f (Given st (line ∷ more) i) (sym h ∙ read_lines-bad n line more st f e)
]

-- An accepted text, after its first line: one line gives the kind.
unfoldable pub KindGiven : PaletteKind → List Bytes → Type 0
unfolding OneGives
KindGiven kind lines =
    (version : Bytes) × (rest : List Bytes) × (lines ≡ version ∷ rest) × OneGives kind rest

first_kind :
    (lines : List Bytes) (i : DeriveInput) → Given nothing_read lines i → OneGives i.kind lines
unfolding Given nothing_read
first_kind lines i (inl (seen, _, _)) = ground arith
first_kind lines i (inr (_, one)) = one

after_version-KindGiven :
    (lines : List Bytes) (i : DeriveInput)
    → after_version lines ≡ request_ok i
    → KindGiven i.kind lines
unfolding after_version KindGiven Given nothing_read
after_version-KindGiven [] i h = not_refused i 1 no_version (KindGiven i.kind []) (sym h)
after_version-KindGiven (line ∷ more) i h =
    if_elim (λ r. r ≡ request_ok i → KindGiven i.kind (line ∷ more))
      (same_bytes line (b'J' ∷ b'N' ∷ b'P' ∷ b' ' ∷ b'1' ∷ [])) (read_lines 2 more nothing_read)
      (request_refused 1 no_version)
      (λ _ k. (line, more, refl, first_kind more i (read_lines-Given 2 more nothing_read i k)))
      (λ _ k. not_refused i 1 no_version (KindGiven i.kind (line ∷ more)) (sym k)) h

-- A request that is accepted, in text that is UTF-8, has one line after the first that gives the
-- kind, no other line that does, and the kind of that line.
pub parse_input-KindGiven :
    (valid_up_to : Bytes → Option ℕ) (bytes : Bytes) (i : DeriveInput)
    → valid_up_to bytes ≡ none
    → parse_input valid_up_to bytes ≡ request_ok i
    → KindGiven i.kind (lines_of bytes)
parse_input-KindGiven valid_up_to [] i valid h =
    not_refused i 1 no_version (KindGiven i.kind (lines_of []))
      (sym h ∙ parse_input-empty valid_up_to valid)
parse_input-KindGiven valid_up_to (b ∷ s) i valid h =
    after_version-KindGiven (lines_of (b ∷ s)) i (sym (parse_input-valid valid_up_to b s valid) ∙ h)
