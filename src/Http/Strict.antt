-- ===== src/Http/Strict.antt =====
-- What reaches the executor: bodies that carry signatures, decoded strictly and kept as they were received.
use dp1_feed_v.Shared.{
  ℕ, String, Bool, true, false, ◌&&◌, Option, none, some, Outcome, ok, err, bind-eq-ok, then-eq-ok,
  ok-injective, ◌≡◌, refl, ap, subst, ◌<◌, ◌⊎◌, ◌↔◌, inl, inr, Bool-cases, ltb, ltb→lt, nat_eq,
  nat_eq_iff, [], ◌∷◌, ◌||◌, sym, length, arith, and-left, and-right,
}
use dp1_feed_v.Models.{Bytes, SignedIntent}
use dp1_feed_v.Http.Members.{Json, Shape, Misnamed, exact_members_iff}
use dp1_feed_v.Http.Gate.{
  ReadBody, whole, too_large, unreadable, Envelope, EnvelopeReader, some_counted, has_signatures,
  is_blank, is_json_space, more, envelope_carries, body_carries_signatures, carried,
  require_signatures_gate,
}
use dp1_feed_v.Http.Writes.{
  Binder, BindError, not_bound, trailing_body, given, spelled, replace_shape, check_exact_members,
  decode_document, bind_signed_replace,
}

given-ok {ℓ} : {A : Type ℓ} (e : BindError) (o : Option A) {a : A} → given e o ≡ ok a → o ≡ some a
unfolding given
given-ok e none h = cc
given-ok e (some b) h = ap (λ z. some z) (ok-injective h)

spelled-ok : (m : Outcome String (Unit {0})) → spelled m ≡ ok tt → m ≡ ok tt
unfolding spelled
spelled-ok (ok tt) h = refl
spelled-ok (err n) h = cc

module _ (b : Binder) where
  -- The bytes are one JSON value without a misnamed member, and they bind to the request.
  pub record IsExact {A : Type 0} (bind : Bytes → Option A) (shape : Shape) (raw : Bytes) (a : A)
      : Type 0 where
    pub value : Json
    pub parsed : b.parse_json raw ≡ some value
    pub exact : ¬ Misnamed value shape
    pub binds : bind raw ≡ some a

  checked_value :
      (shape : Shape) (raw : Bytes)
      → check_exact_members b shape raw ≡ ok tt
      → (v : Json) × (b.parse_json raw ≡ some v) × (¬ Misnamed v shape)
  unfolding check_exact_members
  checked_value shape raw h =
      let (v, e, s) = bind-eq-ok (given trailing_body (b.parse_json raw)) _ h in
      (v, given-ok _ _ e, (exact_members_iff v shape).0 (spelled-ok _ s))

  decode_document-IsExact :
      {A : Type 0} (bind : Bytes → Option A) (shape : Shape) (raw : Bytes) (a : A)
      → decode_document b bind shape raw ≡ ok a
      → IsExact bind shape raw a
  unfolding decode_document
  decode_document-IsExact bind shape raw a h =
      let (c, g) = then-eq-ok (check_exact_members b shape raw) _ h in
      let (v, e, n) = checked_value shape raw c in
      record { value = v; parsed = e; exact = n; binds = given-ok _ _ g }

  -- What the body of a replace was cut into.
  pub record IsReplaceBody {A : Type 0} (bind : Bytes → Option A) (shape : Shape) (raw doc : Bytes)
      (a : A) (intent : SignedIntent) : Type 0 where
    pub wrapper : Json
    pub wrapped : b.parse_json raw ≡ some wrapper
    pub two_members : ¬ Misnamed wrapper replace_shape
    pub halves : b.split_replace raw ≡ some (doc, intent.raw)
    pub document : IsExact bind shape doc a
    pub bound_intent : SignedIntent
    pub authorization : IsExact b.bind_intent b.intent_shape intent.raw bound_intent
    pub same_intent : intent ≡ record bound_intent { raw = intent.raw }

  -- A PUT body that is accepted has only the members "document" and "authorization", spelled so; the document
  -- that is passed on and the bytes of the intent are the two values as they were received; and neither has,
  -- at any depth that its type describes, a member that the type does not name byte for byte.
  pub bind_signed_replace-IsReplaceBody :
      {A : Type 0} (bind : Bytes → Option A) (shape : Shape) (raw doc : Bytes) (a : A)
      (intent : SignedIntent)
      → bind_signed_replace b bind shape raw ≡ ok (doc, a, intent)
      → IsReplaceBody bind shape raw doc a intent
  unfolding bind_signed_replace
  bind_signed_replace-IsReplaceBody {A} bind shape raw doc a intent h =
      let (w, h1) = then-eq-ok (check_exact_members b replace_shape raw) _ h in
      let (halves, s, h2) = bind-eq-ok (given not_bound (b.split_replace raw)) _ h1 in
      let (_, h3) = then-eq-ok _ _ h2 in
      let (_, h4) = then-eq-ok _ _ h3 in
      let (d, dec, h5) = bind-eq-ok (decode_document b bind shape halves.0) _ h4 in
      let (i, dec', made) =
        bind-eq-ok (decode_document b b.bind_intent b.intent_shape halves.1) _ h5 in
      let (v, e, n) = checked_value replace_shape raw w in
      subst (λ (r : Bytes × A × SignedIntent). IsReplaceBody bind shape raw r.0 r.1 r.2)
        (ok-injective made)
        (record {
          wrapper = v;
          wrapped = e;
          two_members = n;
          halves = given-ok _ _ s;
          document = decode_document-IsExact bind shape halves.0 d dec;
          bound_intent = i;
          authorization = decode_document-IsExact b.bind_intent b.intent_shape halves.1 i dec';
          same_intent = refl;
        })

-- A half of a replace that carries signatures of its own.
abbrev pub Signed : EnvelopeReader → Bytes → Type 0
Signed j raw = (n : ℕ) × (j.count_signatures raw ≡ some n) × (0 < n) × (0 < length raw)

-- Behind a value there is only white space, or white space and then a closing bracket, after which the decoder
-- looks no further.
pub data NoMore : Bytes → Type 0 where
  ended : NoMore []
  space : {b : ℕ} {rest : Bytes} → is_json_space b ≡ true → NoMore rest → NoMore (b ∷ rest)
  array_end : {rest : Bytes} → NoMore (93 ∷ rest)
  object_end : {rest : Bytes} → NoMore (125 ∷ rest)

NoMore-more : {rest : Bytes} → NoMore rest → more rest ≡ false
unfolding more is_json_space
NoMore-more ended = refl
NoMore-more (space s n) = rw (s, more) (NoMore-more n)
NoMore-more array_end = refl
NoMore-more object_end = refl

closed_by : (b : ℕ) (rest : Bytes) → (nat_eq b 93 || nat_eq b 125) ≡ true → NoMore (b ∷ rest)
closed_by b rest h = elim (Bool-cases (nat_eq b 93)) [
  | inl e ↦ subst (λ (c : ℕ). NoMore (c ∷ rest)) (sym ((nat_eq_iff b 93).0 e)) array_end
  | inr e ↦ subst (λ (c : ℕ). NoMore (c ∷ rest)) (sym ((nat_eq_iff b 125).0 (rw e at h))) object_end
]

more-NoMore : (rest : Bytes) → more rest ≡ false → NoMore rest
unfolding more
more-NoMore [] h = ended
more-NoMore (b ∷ rest) h = elim (Bool-cases (is_json_space b)) [
  | inl s ↦ space s (more-NoMore rest (rw (s, more) at h))
  | inr s ↦ closed_by b rest (ground (arith, s))
]

-- One JSON value that is signed as a document or intent is, or whose two halves both are.
pub record Carries (j : EnvelopeReader) (raw : Bytes) : Type 0 where
  pub some_text : is_blank raw ≡ false
  pub envelope : Envelope
  pub decoded : j.decode_envelope raw ≡ some envelope
  pub single : NoMore envelope.rest
  pub signed :
      (0 < envelope.signatures) ⊎ (Signed j envelope.document × Signed j envelope.authorization)

counted_some : (o : Option ℕ) → some_counted o ≡ true → (n : ℕ) × (o ≡ some n) × (0 < n)
unfolding some_counted
counted_some none h = cc
counted_some (some n) h = (n, refl, ltb→lt 0 n h)

some-true : {b : Bool} → ◌≡◌ {A = Option Bool} (some b) (some true) → b ≡ true
some-true h = cc

module _ (j : EnvelopeReader) where
  has_signatures-Signed : (raw : Bytes) → has_signatures j raw ≡ true → Signed j raw
  unfolding has_signatures
  has_signatures-Signed raw h = elim (Bool-cases (nat_eq (length raw) 0)) [
    | inl e ↦ let bad = rw e at h in cc
    | inr e ↦
        let (n, c, q) = counted_some (j.count_signatures raw) (rw e at h) in (n, c, q, ground arith)
  ]

  Signed-has_signatures : (raw : Bytes) → Signed j raw → has_signatures j raw ≡ true
  unfolding has_signatures some_counted
  Signed-has_signatures raw (n, c, q, l) = rw c (ground arith)

  Signed-either :
      (v : Envelope)
      → (ltb 0 v.signatures ≡ true)
        ⊎ ((has_signatures j v.document && has_signatures j v.authorization) ≡ true)
      → (0 < v.signatures) ⊎ (Signed j v.document × Signed j v.authorization)
  Signed-either v (inl h) = inl (ltb→lt _ _ h)
  Signed-either v (inr h) = inr (
    has_signatures-Signed v.document (and-left _ _ h),
    has_signatures-Signed v.authorization (and-right (has_signatures j v.document) _ h),
  )

  envelope_lem :
      (o : Option Envelope)
      → envelope_carries j o ≡ some true
      → (v : Envelope) × (o ≡ some v)
        × (more v.rest ≡ false)
        × ((0 < v.signatures) ⊎ (Signed j v.document × Signed j v.authorization))
  unfolding envelope_carries
  envelope_lem none h = cc
  envelope_lem (some v) h = elim (Bool-cases (more v.rest)) [
    | inl e ↦ let bad = simp e at h in cc
    | inr e ↦ elim (Bool-cases (ltb 0 v.signatures)) [
      | inl s ↦ (v, refl, e, inl (ltb→lt _ _ s))
      | inr s ↦ (v, refl, e, Signed-either v (inr (some-true (simp (e, s) at h))))
    ]
  ]

  carries_envelope :
      (v : Envelope)
      → more v.rest ≡ false
      → (0 < v.signatures) ⊎ (Signed j v.document × Signed j v.authorization)
      → envelope_carries j (some v) ≡ some true
  unfolding envelope_carries
  carries_envelope v e (inl s) = simp e (ground arith)
  carries_envelope v e (inr (d, a)) =
      simp (e, Signed-has_signatures v.document d, Signed-has_signatures v.authorization a)
        (ground arith)

  carried_lem :
      (o : Option Bool) (raw out : Bytes) → carried o raw ≡ ok out → (o ≡ some true) × (raw ≡ out)
  unfolding carried
  carried_lem none raw out h = cc
  carried_lem (some true) raw out h = (refl, ok-injective h)
  carried_lem (some false) raw out h = cc

  body_lem : (raw : Bytes) → body_carries_signatures j raw ≡ some true → Carries j raw
  unfolding body_carries_signatures
  body_lem raw h = elim (Bool-cases (is_blank raw)) [
    | inl e ↦ let bad = some-true (rw e at h) in cc
    | inr e ↦
        let (v, d, m, s) = envelope_lem (j.decode_envelope raw) (rw e at h) in
        record {
          some_text = e;
          envelope = v;
          decoded = d;
          single = more-NoMore v.rest m;
          signed = s;
        }
  ]

  passed :
      (read : ReadBody) (raw : Bytes)
      → require_signatures_gate j read ≡ ok raw
      → (read ≡ whole raw) × Carries j raw
  unfolding require_signatures_gate
  passed too_large raw h = cc
  passed unreadable raw h = cc
  passed (whole body) raw h =
      let (o, e) = carried_lem (body_carries_signatures j body) body raw h in
      (ap whole e, subst (Carries j) e (body_lem body o))

  -- A mutating request reaches its handler exactly when its whole body could be read, is not blank, begins with a
  -- JSON value behind which there is only white space or, behind that, a closing bracket, and this value
  -- carries signatures: at the top, as a signed document or intent does, or in both of the halves of a replace.
  pub require_signatures_gate_iff :
      (read : ReadBody) (raw : Bytes)
      → (require_signatures_gate j read ≡ ok raw) ↔ ((read ≡ whole raw) × Carries j raw)
  unfolding require_signatures_gate body_carries_signatures carried
  require_signatures_gate_iff read raw = (
    passed read raw,
    λ (e, c). rw e (
        rw (c.some_text, c.decoded, carries_envelope c.envelope (NoMore-more c.single) c.signed)
          refl),
  )
