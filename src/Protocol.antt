-- ===== src/Protocol.antt =====
-- core/src/protocol.rs: messages of the kernel protocol as frames. A frame is a list of bytes. The
-- JSON texts and the HMAC are arguments.
pub mod Frames
mod Tests
use jupynvim.Prelude.{
  ℕ, suc, ◌≡◌, Bool, true, false, not, ◌⊎◌, inl, inr, Option, none, some, List, [], ◌∷◌, ◌++◌,
  if◌then◌else◌, length,
}
use jupynvim.Guard.{is_utf8}
use jupynvim.Notebook.{Text, text_eq}

-- `<IDS|MSG>`.
abbrev pub delimiter : Text
delimiter = b'<' ∷ b'I' ∷ b'D' ∷ b'S' ∷ b'|' ∷ b'M' ∷ b'S' ∷ b'G' ∷ b'>' ∷ []

-- serde_json's texts of headers and values, and the hexadecimal HMAC of a text; `none` is an error.
pub record Codec : Type 1 where
  pub Header : Type 0
  pub Value : Type 0
  pub write_header : Header → Option Text
  pub read_header : Text → Option Header
  pub write_value : Value → Option Text
  pub read_value : Text → Option Value
  pub no_fields : Value
  pub mac : Text → Text → Option Text

-- The errors of `Message::from_frames`.
pub data Refusal : Type 0 where
  no_delimiter : Refusal
  too_few_frames : ℕ → Refusal
  bad_key : Refusal
  bad_signature : Refusal
  bad_header : Refusal

unfoldable pub then_do {ℓ κ} : {A : Type ℓ} {B : Type κ} → Option A → (A → Option B) → Option B
then_do none f = none
then_do (some a) f = f a

module _ (x : Codec) where
  pub record Message : Type 0 where
    pub identities : List Text
    pub header : x.Header
    pub parent_header : x.Value
    pub metadata : x.Value
    pub content : x.Value
    pub buffers : List Text

  -- The signature of the four parts, which are fed to the HMAC one after another.
  unfoldable pub signature : Text → Text → Text → Text → Text → Option Text
  signature [] h p m c = some []
  signature (k ∷ key) h p m c = x.mac (k ∷ key) (h ++ p ++ m ++ c)

  -- `Message::to_frames`.
  unfoldable pub to_frames : Text → Message → Option (List Text)
  unfolding signature then_do
  to_frames key msg = then_do (x.write_header msg.header) (λ h.
      then_do (x.write_value msg.parent_header) (λ p. then_do (x.write_value msg.metadata) (λ m.
        then_do (x.write_value msg.content) (λ c.
          then_do (signature key h p m c)
            (λ s. some (msg.identities ++ delimiter ∷ s ∷ h ∷ p ∷ m ∷ c ∷ msg.buffers))))))

  unfoldable pub with_identity :
      Text → Option (List Text × List Text) → Option (List Text × List Text)
  with_identity f none = none
  with_identity f (some (ids, rest)) = some (f ∷ ids, rest)

  -- The frames before the first delimiter, and those after it.
  unfoldable pub split_frames : List Text → Option (List Text × List Text)
  unfolding text_eq with_identity
  split_frames [] = none
  split_frames (f ∷ frames) =
      let later = with_identity f (split_frames frames) in
      if text_eq f delimiter then some ([], frames) else later

  unfoldable pub same_signature : Text → Option Text → Refusal ⊎ Unit {0}
  unfolding is_utf8 text_eq
  same_signature got none = inl bad_key
  same_signature got (some expected) =
      if text_eq expected (if is_utf8 got then got else []) then inr tt else inl bad_signature

  -- The check of the signature, which an empty key leaves out.
  unfoldable pub verify : Text → Text → Text → Text → Text → Text → Refusal ⊎ Unit {0}
  unfolding same_signature
  verify [] got h p m c = inr tt
  verify (k ∷ key) got h p m c = same_signature got (x.mac (k ∷ key) (h ++ p ++ m ++ c))

  unfoldable pub value_or : Option x.Value → x.Value
  value_or none = x.no_fields
  value_or (some v) = v

  unfoldable pub parsed :
      List Text → Text → Text → Text → List Text → Option x.Header → Refusal ⊎ Message
  unfolding value_or
  parsed ids p m c buffers none = inl bad_header
  parsed ids p m c buffers (some h) = inr (record {
    identities = ids;
    header = h;
    parent_header = value_or (x.read_value p);
    metadata = value_or (x.read_value m);
    content = value_or (x.read_value c);
    buffers = buffers;
  })

  unfoldable pub verified : Refusal ⊎ Unit {0} → Refusal ⊎ Message → Refusal ⊎ Message
  verified (inl e) r = inl e
  verified (inr t) r = r

  unfoldable pub after_delimiter : Text → List Text → List Text → Refusal ⊎ Message
  unfolding verify parsed verified
  after_delimiter key ids (s ∷ h ∷ p ∷ m ∷ c ∷ buffers) =
      verified (verify key s h p m c) (parsed ids p m c buffers (x.read_header h))
  after_delimiter key ids [] = inl (too_few_frames 0)
  after_delimiter key ids (s ∷ []) = inl (too_few_frames 1)
  after_delimiter key ids (s ∷ h ∷ []) = inl (too_few_frames 2)
  after_delimiter key ids (s ∷ h ∷ p ∷ []) = inl (too_few_frames 3)
  after_delimiter key ids (s ∷ h ∷ p ∷ m ∷ []) = inl (too_few_frames 4)

  unfoldable pub with_split : Text → Option (List Text × List Text) → Refusal ⊎ Message
  unfolding after_delimiter
  with_split key none = inl no_delimiter
  with_split key (some (ids, rest)) = after_delimiter key ids rest

  -- `Message::from_frames`.
  unfoldable pub from_frames : List Text → Text → Refusal ⊎ Message
  unfolding split_frames with_split
  from_frames frames key = with_split key (split_frames frames)
