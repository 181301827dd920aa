-- ===== src/Protocol/Frames.antt =====
-- core/src/protocol.rs: what a message is after its frames were sent, and what a received one proves.
use jupynvim.Prelude.{
  ℕ, ◌≡◌, refl, sym, ap, ◌∙◌, Bool, true, false, ◌⊎◌, inl, inr, Option, none, some, List, [], ◌∷◌,
  ◌++◌, arith, if◌then◌else◌, Bool-cases,
}
use jupynvim.Guard.{is_utf8}
use jupynvim.Notebook.{Text, text_eq}
use jupynvim.Notebook.Maps.{text_eq→≡}
use jupynvim.Protocol.{
  delimiter, Codec, Refusal, then_do, Message, signature, to_frames, with_identity, split_frames,
  same_signature, verify, value_or, parsed, verified, after_delimiter, with_split, from_frames,
}

text_eq_refl : (s : Text) → text_eq s s ≡ true
unfolding text_eq
text_eq_refl [] = refl
text_eq_refl (c ∷ s) = ground (arith, text_eq_refl s)

then_do-some {ℓ κ} :
    {A : Type ℓ} {B : Type κ} (o : Option A) (f : A → Option B) (b : B)
    → then_do o f ≡ some b
    → (a : A) × (o ≡ some a) × (f a ≡ some b)
unfolding then_do
then_do-some none f b h = absurd (ground arith)
then_do-some (some a) f b h = (a, refl, h)

module _ (x : Codec) where
  -- Identities among which there is no delimiter.
  abbrev pub IsPlain : List Text → Type 0
  IsPlain [] = Unit
  IsPlain (f ∷ ids) = (text_eq f delimiter ≡ false) × IsPlain ids

  split_frames-plain :
      (ids rest : List Text)
      → IsPlain ids
      → split_frames x (ids ++ delimiter ∷ rest) ≡ some (ids, rest)
  unfolding split_frames with_identity
  split_frames-plain [] rest plain =
      ap (λ b. if b then some ([], rest) else with_identity x delimiter (split_frames x rest))
        (text_eq_refl delimiter)
  split_frames-plain (f ∷ ids) rest plain =
      ap
        (λ b.
          if b
          then some ([], ids ++ delimiter ∷ rest)
          else with_identity x f (split_frames x (ids ++ delimiter ∷ rest)))
        plain.0
      ∙ ap (with_identity x f) (split_frames-plain ids rest plain.1)

  with_identity-some :
      (f : Text) (o : Option (List Text × List Text)) (ids rest : List Text)
      → with_identity x f o ≡ some (ids, rest)
      → (ids' : List Text) × (o ≡ some (ids', rest)) × (ids ≡ f ∷ ids')
  unfolding with_identity
  with_identity-some f none ids rest h = absurd (ground arith)
  with_identity-some f (some (ids', rest')) ids rest h = (ids', ground arith, ground arith)

  split_frames-some :
      (frames ids rest : List Text)
      → split_frames x frames ≡ some (ids, rest)
      → frames ≡ ids ++ delimiter ∷ rest
  unfolding split_frames
  split_frames-some [] ids rest h = absurd (ground arith)
  split_frames-some (f ∷ frames) ids rest h = elim (Bool-cases (text_eq f delimiter)) [
    | inl e ↦
        let first : ◌≡◌ {A = Option (List Text × List Text)} (some ([], frames))
            (some (ids, rest)) =
          sym (ap (pick f frames) e) ∙ h in
        let none_before : ids ≡ [] = ground arith in
        let same : frames ≡ rest = ground arith in
        ap (λ g. g ∷ frames) (text_eq→≡ f delimiter e)
        ∙ ap (λ r. delimiter ∷ r) same
        ∙ ap (λ i. i ++ delimiter ∷ rest) (sym none_before)
    | inr e ↦
        let (ids', later, here) =
          with_identity-some f (split_frames x frames) ids rest (sym (ap (pick f frames) e) ∙ h) in
        ap (λ r. f ∷ r) (split_frames-some frames ids' rest later)
        ∙ ap (λ i. i ++ delimiter ∷ rest) (sym here)
  ]
    where
      pick : Text → List Text → Bool → Option (List Text × List Text)
      pick f frames b = if b then some ([], frames) else with_identity x f (split_frames x frames)

  -- What is known of a message that was taken from frames with a key.
  abbrev pub Signed : Text → List Text → Message x → Type 0
  Signed key frames msg =
      (s : Text) × (h : Text) × (p : Text) × (m : Text) × (c : Text) × (frames
        ≡ msg.identities ++ delimiter ∷ s ∷ h ∷ p ∷ m ∷ c ∷ msg.buffers)
      × (x.mac key (h ++ p ++ m ++ c) ≡ some (if is_utf8 s then s else []))
      × (x.read_header h ≡ some msg.header)

  same_signature-ok :
      (got : Text) (o : Option Text) (t : Unit {0})
      → same_signature x got o ≡ inr t
      → o ≡ some (if is_utf8 got then got else [])
  unfolding same_signature
  same_signature-ok got none t h = absurd (ground arith)
  same_signature-ok got (some e) t h =
      elim (Bool-cases (text_eq e (if is_utf8 got then got else []))) [
        | inl same ↦ ap some (text_eq→≡ e (if is_utf8 got then got else []) same)
        | inr differ ↦ absurd (ground arith)
      ]

  verified-ok :
      (v : Refusal ⊎ Unit {0}) (r : Refusal ⊎ Message x) (msg : Message x)
      → verified x v r ≡ inr msg
      → (t : Unit {0}) × (v ≡ inr t) × (r ≡ inr msg)
  unfolding verified
  verified-ok (inl e) r msg h = absurd (ground arith)
  verified-ok (inr t) r msg h = (t, refl, h)

  parsed-ok :
      (ids : List Text) (p m c : Text) (buffers : List Text) (o : Option x.Header) (msg : Message x)
      → parsed x ids p m c buffers o ≡ inr msg
      → (ids ≡ msg.identities) × (buffers ≡ msg.buffers) × (o ≡ some msg.header)
  unfolding parsed
  parsed-ok ids p m c buffers none msg h = absurd (ground arith)
  parsed-ok ids p m c buffers (some head) msg h = (ground arith, ground arith, ground arith)

  after_delimiter-Signed :
      (k : ℕ) (key : Text) (frames ids rest : List Text) (msg : Message x)
      → frames ≡ ids ++ delimiter ∷ rest
      → after_delimiter x (k ∷ key) ids rest ≡ inr msg
      → Signed (k ∷ key) frames msg
  unfolding after_delimiter verify
  after_delimiter-Signed k key frames ids (s ∷ h ∷ p ∷ m ∷ c ∷ buffers) msg e ok =
      let (t, v, r) =
        verified-ok (same_signature x s (x.mac (k ∷ key) (h ++ p ++ m ++ c)))
          (parsed x ids p m c buffers (x.read_header h)) msg ok in
      let (i, b, head) = parsed-ok ids p m c buffers (x.read_header h) msg r in
      (
        s,
        h,
        p,
        m,
        c,
        e
            ∙ ap (λ a. a ++ delimiter ∷ s ∷ h ∷ p ∷ m ∷ c ∷ buffers) i
            ∙ ap (λ a. msg.identities ++ delimiter ∷ s ∷ h ∷ p ∷ m ∷ c ∷ a) b,
        same_signature-ok s (x.mac (k ∷ key) (h ++ p ++ m ++ c)) t v,
        head,
      )
  after_delimiter-Signed k key frames ids [] msg e ok = absurd (ground arith)
  after_delimiter-Signed k key frames ids (s ∷ []) msg e ok = absurd (ground arith)
  after_delimiter-Signed k key frames ids (s ∷ h ∷ []) msg e ok = absurd (ground arith)
  after_delimiter-Signed k key frames ids (s ∷ h ∷ p ∷ []) msg e ok = absurd (ground arith)
  after_delimiter-Signed k key frames ids (s ∷ h ∷ p ∷ m ∷ []) msg e ok = absurd (ground arith)

  with_split-Signed :
      (k : ℕ) (key : Text) (frames : List Text) (o : Option (List Text × List Text))
      (msg : Message x)
      → split_frames x frames ≡ o
      → with_split x (k ∷ key) o ≡ inr msg
      → Signed (k ∷ key) frames msg
  unfolding with_split
  with_split-Signed k key frames none msg e ok = absurd (ground arith)
  with_split-Signed k key frames (some (ids, rest)) msg e ok =
      after_delimiter-Signed k key frames ids rest msg (split_frames-some frames ids rest e) ok

  -- With a key that is not empty, a message is taken only from frames that hold its identities, the
  -- delimiter, a signature, four parts and its buffers, where the signature, as far as it is UTF-8,
  -- is the HMAC of the four parts and the message's header is read from the first of them.
  pub accepted-Signed :
      (k : ℕ) (key : Text) (frames : List Text) (msg : Message x)
      → from_frames x frames (k ∷ key) ≡ inr msg
      → Signed (k ∷ key) frames msg
  unfolding from_frames
  accepted-Signed k key frames msg ok =
      with_split-Signed k key frames (split_frames x frames) msg refl ok

  -- A value whose text is read as that value, if it has one: one that is not nested too deep for the
  -- parser, and whose numbers the parser reads exactly, as it does integers.
  abbrev pub ReadsBack : x.Value → Type 0
  ReadsBack v = (t : Text) → x.write_value v ≡ some t → x.read_value t ≡ some v

  -- The documented behaviour of the texts of headers, which hold strings only, and of the HMAC's
  -- hexadecimal text.
  pub record Laws : Type 0 where
    pub header_back :
        (h : x.Header) (t : Text) → x.write_header h ≡ some t → x.read_header t ≡ some h
    pub mac_text : (key t s : Text) → x.mac key t ≡ some s → is_utf8 s ≡ true

  module _ (laws : Laws) where
    verify-signature :
        (key h p m c s : Text) → signature x key h p m c ≡ some s → verify x key s h p m c ≡ inr tt
    unfolding signature verify same_signature
    verify-signature [] h p m c s e = refl
    verify-signature (k ∷ key) h p m c s e =
        let utf8 = laws.mac_text (k ∷ key) (h ++ p ++ m ++ c) s e in
        ap (same_signature x s) e
        ∙ ap (λ b. if text_eq s (if b then s else []) then inr tt else inl Refusal.bad_signature)
            utf8
        ∙ ap (λ b. if b then inr tt else inl Refusal.bad_signature) (text_eq_refl s)

    -- A message whose identities hold no delimiter, whose parent header, metadata and content are
    -- read back from their texts, and that is turned into frames is the message that these frames
    -- give, with the same key, which may be empty.
    pub from_frames-to_frames :
        (key : Text) (msg : Message x) (frames : List Text)
        → IsPlain msg.identities
        → ReadsBack msg.parent_header
        → ReadsBack msg.metadata
        → ReadsBack msg.content
        → to_frames x key msg ≡ some frames
        → from_frames x frames key ≡ inr msg
    unfolding to_frames from_frames with_split after_delimiter verified parsed value_or
    from_frames-to_frames key msg frames plain parent meta content sent =
        let (h, eh, r1) = then_do-some (x.write_header msg.header) _ frames sent in
        let (p, ep, r2) = then_do-some (x.write_value msg.parent_header) _ frames r1 in
        let (m, em, r3) = then_do-some (x.write_value msg.metadata) _ frames r2 in
        let (c, ec, r4) = then_do-some (x.write_value msg.content) _ frames r3 in
        let (s, es, r5) = then_do-some (signature x key h p m c) _ frames r4 in
        let sent_as : msg.identities ++ delimiter ∷ s ∷ h ∷ p ∷ m ∷ c ∷ msg.buffers ≡ frames =
          ground arith in
        ap (λ f. from_frames x f key) (sym sent_as)
        ∙ ap (with_split x key)
            (split_frames-plain msg.identities (s ∷ h ∷ p ∷ m ∷ c ∷ msg.buffers) plain)
        ∙ ap (λ v. verified x v (parsed x msg.identities p m c msg.buffers (x.read_header h)))
            (verify-signature key h p m c s es)
        ∙ ap (parsed x msg.identities p m c msg.buffers) (laws.header_back msg.header h eh)
        ∙ ap (λ o. with_parts o (x.read_value m) (x.read_value c)) (parent p ep)
        ∙ ap (λ o. with_parts (some msg.parent_header) o (x.read_value c)) (meta m em)
        ∙ ap (with_parts (some msg.parent_header) (some msg.metadata)) (content c ec)
      where
        with_parts : Option x.Value → Option x.Value → Option x.Value → Refusal ⊎ Message x
        with_parts p m c = inr (record {
          identities = msg.identities;
          header = msg.header;
          parent_header = value_or x p;
          metadata = value_or x m;
          content = value_or x c;
          buffers = msg.buffers;
        })
