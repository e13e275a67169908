-- ===== src/Dp1svc/Signing.antt =====
-- internal/dp1svc/dp1svc.go, `appendFeedSignature`: the one way in which the feed signs a document. A decoded
-- document is its members, each with the bytes of its value. JSON and the signer of dp1-go are functions.
use dp1_feed_v.Shared.{
  ℕ, String, false, ◌==◌, eq_iff, str_eq_refl, Option, none, some, List, [], ◌∷◌, Outcome, ok, err,
  ◌>>=◌, nat_eq, if◌then◌else◌, ◌≡◌, refl, sym, ◌∙◌, ap, subst, Bool-cases, inl, inr, bind-eq-ok,
  ok-injective, arith,
}
use dp1_feed_v.Models.{Bytes, Signature}
use dp1_feed_v.Dp1svc.Keys.{Service}
use dp1_feed_v.Dp1svc.Merging.{merge_signatures}

abbrev pub Members : Type 0
Members = List (String × Bytes)

-- `sign.SignMultiEd25519` in the role of the feed, and `encoding/json` on the parts of a document;
-- `encode_document` is the
-- encoder with its line end, which compacts the value of each member (`compact`, `none` for a text that is no
-- JSON) and fails where one is none.
pub record Documents : Type 0 where
  pub sign_multi : Bytes → Bytes → String → Option Signature
  pub decode_signatures : Bytes → Option (List Signature)
  pub decode_document : Bytes → Option Members
  pub encode_signatures : List Signature → Bytes
  pub encode_document : Members → Option Bytes
  pub compact : Bytes → Option Bytes

pub data SignError : Type 0 where
  not_signed : SignError
  signatures_not_decoded : SignError
  document_not_decoded : SignError
  document_not_encoded : SignError

-- A member of a document.
unfoldable pub member : String → Members → Option Bytes
member k [] = none
member k ((name, v) ∷ ms) = let rest = member k ms in if name == k then some v else rest

-- `doc[k] = v`
unfoldable pub set_member : String → Bytes → Members → Members
set_member k v [] = (k, v) ∷ []
set_member k v ((name, w) ∷ ms) =
    let rest = set_member k v ms in if name == k then (k, v) ∷ ms else (name, w) ∷ rest

-- The byte before those that are left, dropped if it is a newline at the end.
unfoldable pub before_rest : ℕ → Bytes → Bytes
before_rest b [] = if nat_eq b 10 then [] else b ∷ []
before_rest b (c ∷ cs) = b ∷ c ∷ cs

-- `bytes.TrimRight(out, "\n")`
unfoldable pub trim_newlines : Bytes → Bytes
unfolding before_rest
trim_newlines [] = []
trim_newlines (b ∷ bs) = before_rest b (trim_newlines bs)

or_fail : {A : Type 0} → SignError → Option A → Outcome SignError A
or_fail e none = err e
or_fail e (some a) = ok a

-- `ts` is the time in RFC 3339.
unfoldable pub append_feed_signature :
    Documents → Service → Bytes → String → Outcome SignError Bytes
unfolding or_fail trim_newlines set_member
append_feed_signature d s raw ts =
    or_fail not_signed (d.sign_multi raw s.priv ts) >>= λ (new : Signature).
    or_fail signatures_not_decoded (d.decode_signatures raw) >>= λ (sigs : List Signature).
    or_fail document_not_decoded (d.decode_document raw) >>= λ (doc : Members).
    or_fail document_not_encoded (
      d.encode_document
        (set_member "signatures" (d.encode_signatures (merge_signatures sigs new)) doc))
    >>= λ (out : Bytes). ok (trim_newlines out)

member-set_member : (k : String) (v : Bytes) (ms : Members) → member k (set_member k v ms) ≡ some v
unfolding member set_member
member-set_member k v [] = rw (str_eq_refl k) refl
member-set_member k v ((name, w) ∷ ms) = elim (Bool-cases (name == k)) [
  | inl e ↦ rw e (rw (str_eq_refl k) refl)
  | inr e ↦ rw e (rw e (member-set_member k v ms))
]

member-set_member_other :
    (j k : String) (v : Bytes) (ms : Members)
    → (k == j) ≡ false
    → member j (set_member k v ms) ≡ member j ms
unfolding member set_member
member-set_member_other j k v [] h = rw h refl
member-set_member_other j k v ((name, w) ∷ ms) h = elim (Bool-cases (name == k)) [
  | inl e ↦
      let other : (name == j) ≡ false =
        subst (λ (n : String). (n == j) ≡ false) (sym ((eq_iff name k).0 e)) h in
      rw e (rw (h, other) refl)
  | inr e ↦ rw e (ground (arith, member-set_member_other j k v ms h))
]

abbrev pub compacted : Documents → Option Bytes → Option Bytes
compacted d none = none
compacted d (some v) = d.compact v

-- Where these members were encoded, decoding them again gives each of them compacted, the line end dropped.
abbrev pub Rereads : Documents → Members → Bytes → Type 0
Rereads d ms out =
    (ns : Members) × (d.decode_document (trim_newlines out) ≡ some ns)
    × ((k : String) → member k ns ≡ compacted d (member k ms))

or_fail-ok : {A : Type 0} (e : SignError) (o : Option A) {a : A} → or_fail e o ≡ ok a → o ≡ some a
unfolding or_fail
or_fail-ok e none h = cc
or_fail-ok e (some b) h = ap (λ z. some z) (ok-injective h)

-- What the feed's signing leaves of a document: every other member as it was but compacted, and for the signatures
-- those of the document without the feed's prior entry, then the new one.
pub record IsCosigned (d : Documents) (s : Service) (raw : Bytes) (ts : String) (out : Bytes)
    : Type 0 where
  pub new : Signature
  pub sigs : List Signature
  pub before : Members
  pub after : Members
  pub signed : d.sign_multi raw s.priv ts ≡ some new
  pub listed : d.decode_signatures raw ≡ some sigs
  pub read : d.decode_document raw ≡ some before
  pub reread : d.decode_document out ≡ some after
  pub others :
      (k : String) → ("signatures" == k) ≡ false → member k after ≡ compacted d (member k before)
  pub merged :
      member "signatures" after ≡ d.compact (d.encode_signatures (merge_signatures sigs new))

-- A document that the feed has signed keeps the value of every member but its signatures, compacted, and
-- these are the ones it had with the feed's own entry replaced, given that a document whose signatures were
-- set, where the encoder takes it, reads back with its members compacted.
pub append_feed_signature-IsCosigned :
    (d : Documents) (s : Service) (raw : Bytes) (ts : String) (out : Bytes)
    → ((ms : Members) (v text : Bytes)
        → d.decode_document raw ≡ some ms
        → d.encode_document (set_member "signatures" v ms) ≡ some text
        → Rereads d (set_member "signatures" v ms) text)
    → append_feed_signature d s raw ts ≡ ok out
    → IsCosigned d s raw ts out
unfolding append_feed_signature
append_feed_signature-IsCosigned d s raw ts out rereads h =
    let (new, a, h1) = bind-eq-ok (or_fail not_signed (d.sign_multi raw s.priv ts)) _ h in
    let (sigs, b, h2) =
      bind-eq-ok (or_fail signatures_not_decoded (d.decode_signatures raw)) _ h1 in
    let (doc, c, h3) = bind-eq-ok (or_fail document_not_decoded (d.decode_document raw)) _ h2 in
    let v : Bytes = d.encode_signatures (merge_signatures sigs new) in
    let (text, e, h4) =
      bind-eq-ok (or_fail document_not_encoded (d.encode_document (set_member "signatures" v doc)))
        _ h3 in
    let (ns, back, same) = rereads doc v text (or_fail-ok _ _ c) (or_fail-ok _ _ e) in
    subst (IsCosigned d s raw ts) (ok-injective h4) (record {
      new = new;
      sigs = sigs;
      before = doc;
      after = ns;
      signed = or_fail-ok _ _ a;
      listed = or_fail-ok _ _ b;
      read = or_fail-ok _ _ c;
      reread = back;
      others = λ k n. same k ∙ ap (compacted d) (member-set_member_other k "signatures" v doc n);
      merged = same "signatures" ∙ ap (compacted d) (member-set_member "signatures" v doc);
    })
