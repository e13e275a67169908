-- ===== src/Http/Gate.antt =====
-- internal/httpserver/middleware.go, `RequireSignatures`: the check in front of every mutating route that the
-- body carries signatures at all. `encoding/json` is given as functions.
use dp1_feed_v.Shared.{
  ℕ, Bool, true, false, ◌&&◌, ◌||◌, Option, none, some, Outcome, ok, err, ltb, leb, not, [], ◌∷◌,
  nat_eq, length, if◌then◌else◌,
}
use dp1_feed_v.Models.{Bytes}
use dp1_feed_v.Http.Mapping.{HttpError}

-- What `c.GetRawData` returns: the body, or an error, that of a body above the configured size among them.
pub data ReadBody : Type 0 where
  whole : Bytes → ReadBody
  too_large : ReadBody
  unreadable : ReadBody

-- The first value of a body as the middleware's struct: the number of signatures, the bytes of the two
-- other members, empty where they are missing; and the bytes that follow the value.
pub record Envelope : Type 0 where
  pub signatures : ℕ
  pub document : Bytes
  pub authorization : Bytes
  pub rest : Bytes

-- `Decoder.Decode` of the envelope, and `json.Unmarshal` of a half into a struct with the one member
-- "signatures", of which the number is given.
pub record EnvelopeReader : Type 0 where
  pub decode_envelope : Bytes → Option Envelope
  pub count_signatures : Bytes → Option ℕ

unfoldable pub some_counted : Option ℕ → Bool
some_counted none = false
some_counted (some n) = ltb 0 n

unfoldable pub has_signatures : EnvelopeReader → Bytes → Bool
unfolding some_counted
has_signatures j raw =
    if nat_eq (length raw) 0 then false else some_counted (j.count_signatures raw)

-- Between the bytes of the UTF-8 form of a white space character (`unicode.IsSpace`), by the bytes read.
pub data Place : Type 0 where
  between in_c2 in_e1 in_e1_9a in_e2 in_e2_80 in_e2_81 in_e3 in_e3_80 : Place

-- The place behind one more byte, `none` where the text is not white space.
unfoldable pub next_place : Place → ℕ → Option Place
next_place between b =
    if nat_eq b 32 || (leb 9 b && leb b 13)
    then some between
    else if nat_eq b 194
    then some in_c2
    else if nat_eq b 225
    then some in_e1
    else if nat_eq b 226
    then some in_e2
    else if nat_eq b 227
    then some in_e3
    else none
next_place in_c2 b = if nat_eq b 133 || nat_eq b 160 then some between else none
next_place in_e1 b = if nat_eq b 154 then some in_e1_9a else none
next_place in_e1_9a b = if nat_eq b 128 then some between else none
next_place in_e2 b =
    if nat_eq b 128 then some in_e2_80 else if nat_eq b 129 then some in_e2_81 else none
next_place in_e2_80 b =
    if (leb 128 b && leb b 138) || (nat_eq b 168 || (nat_eq b 169 || nat_eq b 175))
    then some between
    else none
next_place in_e2_81 b = if nat_eq b 159 then some between else none
next_place in_e3 b = if nat_eq b 128 then some in_e3_80 else none
next_place in_e3_80 b = if nat_eq b 128 then some between else none

unfoldable pub blank_from : Place → Bytes → Bool
unfolding next_place
blank_from between [] = true
blank_from place [] = false
blank_from place (b ∷ raw) = elim (next_place place b) [
  | none ↦ false
  | some next ↦ blank_from next raw
]

-- `len(bytes.TrimSpace(body)) == 0`
unfoldable pub is_blank : Bytes → Bool
unfolding blank_from
is_blank raw = blank_from between raw

-- The white space of JSON, which the decoder skips.
unfoldable pub is_json_space : ℕ → Bool
is_json_space b = nat_eq b 32 || (nat_eq b 9 || (nat_eq b 10 || nat_eq b 13))

-- `Decoder.More` over the bytes behind the value that was decoded: something other than white space follows
-- that is neither `]` nor `}`.
unfoldable pub more : Bytes → Bool
unfolding is_json_space
more [] = false
more (b ∷ rest) =
    let later = more rest in if is_json_space b then later else not (nat_eq b 93 || nat_eq b 125)

-- Whether the body carries signatures, `none` where it does not decode or more follows.
unfoldable pub envelope_carries : EnvelopeReader → Option Envelope → Option Bool
unfolding more
envelope_carries j none = none
envelope_carries j (some v) =
    if more v.rest
    then none
    else if ltb 0 v.signatures
    then some true
    else some (has_signatures j v.document && has_signatures j v.authorization)

unfoldable pub body_carries_signatures : EnvelopeReader → Bytes → Option Bool
unfolding is_blank envelope_carries has_signatures
body_carries_signatures j raw =
    if is_blank raw then some false else envelope_carries j (j.decode_envelope raw)

abbrev pub unauthorized : HttpError
unauthorized = record { status = 401; code = "unauthorized" }

abbrev pub malformed : HttpError
malformed = record { status = 400; code = "bad_request" }

abbrev pub payload_too_large : HttpError
payload_too_large = record { status = 413; code = "payload_too_large" }

unfoldable pub carried : Option Bool → Bytes → Outcome HttpError Bytes
carried none raw = err malformed
carried (some b) raw = if b then ok raw else err unauthorized

-- The body that the handler may read again, or the answer in its place.
unfoldable pub require_signatures_gate : EnvelopeReader → ReadBody → Outcome HttpError Bytes
unfolding body_carries_signatures carried
require_signatures_gate j too_large = err payload_too_large
require_signatures_gate j unreadable = err unauthorized
require_signatures_gate j (whole raw) = carried (body_carries_signatures j raw) raw
