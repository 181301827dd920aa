-- ===== src/Protocol/Tests.antt =====
-- The theorems about frames, with texts for headers and values and a sum for the HMAC.
use jupynvim.Prelude.{
  ℕ, ◌+◌, ◌%◌, ◌≡◌, refl, ap, Bool, true, inl, inr, Option, some, List, [], ◌∷◌, false, sym, ◌∙◌,
  ◌==◌, ◌++◌, arith,
}
use jupynvim.Guard.{is_utf8}
use jupynvim.Notebook.{Text, text_eq}
use jupynvim.Protocol.{
  delimiter, Codec, Message, to_frames, from_frames, split_frames, too_few_frames, bad_signature,
}
use jupynvim.Protocol.Frames.{Laws, Signed, accepted-Signed, from_frames-to_frames}

sum_bytes : Text → ℕ
sum_bytes [] = 0
sum_bytes (b ∷ rest) = b + sum_bytes rest

digit : Bool → Text
digit true = b'0' ∷ []
digit false = b'1' ∷ []

abbrev test_mac : Text → Text → Option Text
test_mac key t = some (digit (sum_bytes (key ++ t) % 2 == 0))

abbrev plain_codec : Codec
plain_codec = record {
  Header = Text;
  Value = Text;
  write_header = λ h. some h;
  read_header = λ t. some t;
  write_value = λ v. some v;
  read_value = λ t. some t;
  no_fields = [];
  mac = test_mac;
}

digit-utf8 : (b : Bool) → is_utf8 (digit b) ≡ true
unfolding is_utf8 digit
digit-utf8 true = refl
digit-utf8 false = refl

mac_utf8 :
    (b : Bool) (s : Text) → ◌≡◌ {A = Option Text} (some (digit b)) (some s) → is_utf8 s ≡ true
mac_utf8 b s e = let same : digit b ≡ s = ground arith in ap is_utf8 (sym same) ∙ digit-utf8 b

plain_laws : Laws plain_codec
plain_laws = record {
  header_back = λ h t e. sym e;
  mac_text = λ key t s e. mac_utf8 (sum_bytes (key ++ t) % 2 == 0) s e;
}

abbrev key : Text
key = 1 ∷ []

abbrev a_message : Message plain_codec
a_message = record {
  identities = (9 ∷ []) ∷ [];
  header = 2 ∷ [];
  parent_header = [];
  metadata = 5 ∷ [];
  content = 7 ∷ 8 ∷ [];
  buffers = delimiter ∷ [];
}

abbrev its_frames : List Text
its_frames =
    (9 ∷ []) ∷ delimiter ∷ (b'1' ∷ []) ∷ (2 ∷ []) ∷ [] ∷ (5 ∷ []) ∷ (7 ∷ 8 ∷ []) ∷ delimiter ∷ []

sends : to_frames plain_codec key a_message ≡ some its_frames
unfolding to_frames sum_bytes digit
sends = refl

refuses_tampered :
    from_frames plain_codec
      (delimiter ∷ (b'1' ∷ []) ∷ (2 ∷ []) ∷ [] ∷ (5 ∷ []) ∷ (7 ∷ 9 ∷ []) ∷ [])
      key
    ≡ inl bad_signature
unfolding from_frames sum_bytes digit is_utf8 text_eq split_frames
refuses_tampered = refl

refuses_short : from_frames plain_codec (delimiter ∷ key ∷ key ∷ []) key ≡ inl (too_few_frames 2)
unfolding from_frames text_eq split_frames
refuses_short = refl

from_frames-to_frames_example : from_frames plain_codec its_frames key ≡ inr a_message
unfolding text_eq
from_frames-to_frames_example =
    from_frames-to_frames plain_codec plain_laws key a_message its_frames (refl, tt) (λ t e. sym e)
      (λ t e. sym e) (λ t e. sym e) sends

accepted-Signed_example : Signed plain_codec key its_frames a_message
accepted-Signed_example =
    accepted-Signed plain_codec 1 [] its_frames a_message from_frames-to_frames_example
