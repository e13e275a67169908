-- ===== src/Tests/Requests.antt =====
-- A replace that comes in over HTTP, read back, and bodies with and without misspelled members and signatures.
use dp1_feed_v.Shared.{
  ◌≡◌, ◌↔◌, refl, String, true, Option, none, some, [], ◌∷◌, ◌++◌, ap, subst, ok, ◌==◌, nat_eq,
  if◌then◌else◌, Bool-cases, inl, inr, ℕ,
}
use dp1_feed_v.Models.{Bytes}
use dp1_feed_v.Http.Members.{
  Json, Shape, json_scalar, json_object, json_array, no_items, item, no_members, member, opaque,
  structure, slice, field, no_fields, exact_members, json_field, at_field, Misnamed,
  exact_members_iff,
}
use dp1_feed_v.Http.Gate.{whole, EnvelopeReader, require_signatures_gate, body_carries_signatures}
use dp1_feed_v.Http.Writes.{Binder, Written, bind_signed_replace, handle_replace_playlist, gated}
use dp1_feed_v.Http.Strict.{
  Carries, IsReplaceBody, bind_signed_replace-IsReplaceBody, require_signatures_gate_iff,
}
use dp1_feed_v.Http.Flows.{IsVisible, put-get}
use dp1_feed_v.Dp1svc.Keys.{Service}
use dp1_feed_v.Dp1svc.Signing
use dp1_feed_v.Dp1svc.Signing.{
  Documents, IsCosigned, Rereads, compacted, append_feed_signature,
  append_feed_signature-IsCosigned, trim_newlines, before_rest,
}
use dp1_feed_v.Tests.World.{
  libraries, dp1, settings, call, request, replace_intent, one_playlist, new_playlist,
  count_sevens-sevens, alice, feed,
}
use dp1_feed_v.Tests.Mutations.{replaced, updated_event, replace_runs}

-- An object with a list of objects in it.
abbrev body : Json
body = json_object (
    member "items" (json_array (item (json_object (member "id" json_scalar no_members)) no_items))
      no_members)

abbrev shape : Shape
shape = structure (
    field "Items" true "items" (slice (structure (field "ID" true "id" opaque no_fields)))
      no_fields)

exact_members_iff_example : (exact_members body shape ≡ ok tt) ↔ (¬ Misnamed body shape)
exact_members_iff_example = exact_members_iff body shape

-- A body of one byte is the wrapper, whatever it is.
abbrev wrapper : Json
wrapper =
    json_object (member "document" json_scalar (member "authorization" json_scalar no_members))

abbrev binder : Binder
binder = record {
  parse_json = λ raw. some wrapper;
  split_replace = λ raw. some (2 ∷ [], 3 ∷ []);
  bind_playlist = λ raw. some request;
  bind_group = λ raw. none;
  bind_channel = λ raw. none;
  bind_intent = λ raw. some replace_intent;
  playlist_shape = opaque;
  group_shape = opaque;
  channel_shape = opaque;
  intent_shape = opaque;
}

bind_runs :
    bind_signed_replace binder binder.bind_playlist opaque (9 ∷ [])
    ≡ ok (2 ∷ [], request, replace_intent)
unfolding bind_signed_replace exact_members json_field at_field
bind_runs = refl

bind_signed_replace-IsReplaceBody_example :
    IsReplaceBody binder binder.bind_playlist opaque (9 ∷ []) (2 ∷ []) request replace_intent
bind_signed_replace-IsReplaceBody_example =
    bind_signed_replace-IsReplaceBody binder binder.bind_playlist opaque (9 ∷ []) (2 ∷ []) request
      replace_intent bind_runs

-- Both halves of every body carry one signature.
abbrev reader : EnvelopeReader
reader = record {
  decode_envelope = λ raw.
      some (record {
        signatures = 0;
        document = 2 ∷ [];
        authorization = 3 ∷ [];
        rest = 32 ∷ 125 ∷ [];
      });
  count_signatures = λ raw. some 1;
}

require_signatures_gate_iff_example :
    (require_signatures_gate reader (whole (9 ∷ [])) ≡ ok (8 ∷ []))
    ↔ ((whole (9 ∷ []) ≡ whole (8 ∷ [])) × Carries reader (8 ∷ []))
require_signatures_gate_iff_example = require_signatures_gate_iff reader (whole (9 ∷ [])) (8 ∷ [])

abbrev digest : Bytes → String
digest = λ raw. "d"

abbrev written : Written
written = record { status = 200; body = 5 ∷ 2 ∷ []; db = replaced; events = updated_event ∷ [] }

put_runs :
    gated reader (whole (123 ∷ [])) (λ raw.
      handle_replace_playlist binder libraries dp1 settings call "77" raw one_playlist one_playlist)
    ≡ ok written
unfolding gated handle_replace_playlist require_signatures_gate body_carries_signatures
put_runs = rw (bind_runs, replace_runs) refl

put-get_example : IsVisible digest libraries "77" one_playlist written
put-get_example =
    put-get digest reader binder libraries dp1 settings call "77" (whole (123 ∷ [])) one_playlist
      one_playlist written new_playlist count_sevens-sevens put_runs refl

some_injective {ℓ} : {A : Type ℓ} {a b : A} → ◌≡◌ {A = Option A} (some a) (some b) → a ≡ b
some_injective h = cc

abbrev service : Service
service = record { priv = 6 ∷ []; kid = "did:feed" }

-- All bytes but the last.
but_last : Bytes → Bytes
but_last [] = []
but_last (b ∷ []) = []
but_last (b ∷ c ∷ bs) = b ∷ but_last (c ∷ bs)

but_last-append : (v : Bytes) → but_last (v ++ 1 ∷ []) ≡ v
unfolding but_last
but_last-append [] = refl
but_last-append (b ∷ []) = refl
but_last-append (b ∷ c ∷ bs) = ap (λ (l : Bytes). b ∷ l) (but_last-append (c ∷ bs))

trim_newlines-append : (v : Bytes) → trim_newlines (v ++ 1 ∷ []) ≡ v ++ 1 ∷ []
unfolding trim_newlines before_rest
trim_newlines-append [] = refl
trim_newlines-append (b ∷ []) = refl
trim_newlines-append (b ∷ c ∷ bs) = rw (trim_newlines-append (c ∷ bs)) refl

or_empty : Option Bytes → Bytes
or_empty none = []
or_empty (some v) = v

-- A document is its title and its signatures, and a byte at the end.
abbrev two_members : Bytes → Signing.Members
two_members v = ("title", 8 ∷ []) ∷ ("signatures", v) ∷ []

-- Without the spaces; the empty text is no JSON.
without_spaces : Bytes → Bytes
without_spaces [] = []
without_spaces (b ∷ bs) = let rest = without_spaces bs in if nat_eq b 32 then rest else b ∷ rest

squeezed : Bytes → Option Bytes
unfolding without_spaces
squeezed [] = none
squeezed (b ∷ bs) = some (without_spaces (b ∷ bs))

with_end : Option Bytes → Option Bytes
with_end none = none
with_end (some v) = some (v ++ 1 ∷ [])

abbrev json : Documents
json = record {
  sign_multi = λ raw priv ts. some feed;
  decode_signatures = λ raw. some (alice ∷ []);
  decode_document = λ raw. some (two_members (but_last raw));
  encode_signatures = λ sigs. 3 ∷ 32 ∷ 4 ∷ [];
  encode_document = λ ms. with_end (squeezed (or_empty (Signing.member "signatures" ms)));
  compact = squeezed;
}

squeezed-members :
    (b : ℕ) (bs : Bytes) (k : String)
    → Signing.member k (two_members (without_spaces (b ∷ bs)))
      ≡ compacted json (Signing.member k (two_members (b ∷ bs)))
unfolding Signing.member squeezed without_spaces
squeezed-members b bs k = elim (Bool-cases ("title" == k)) [
  | inl t ↦ rw t refl
  | inr t ↦ elim (Bool-cases ("signatures" == k)) [
    | inl e ↦ rw (t, e) refl
    | inr e ↦ rw (t, e) refl
  ]
]

two_members-Rereads :
    (v text : Bytes) → with_end (squeezed v) ≡ some text → Rereads json (two_members v) text
unfolding squeezed with_end but_last
two_members-Rereads [] text e = cc
two_members-Rereads (b ∷ bs) text e =
    subst (λ (t : Bytes). Rereads json (two_members (b ∷ bs)) t) (some_injective e)
      (
        two_members (without_spaces (b ∷ bs)),
        rw
            (
              trim_newlines-append (without_spaces (b ∷ bs)),
              but_last-append (without_spaces (b ∷ bs)),
            )
            refl,
        squeezed-members b bs,
      )

rereads :
    (ms : Signing.Members) (v text : Bytes)
    → json.decode_document (9 ∷ 1 ∷ []) ≡ some ms
    → json.encode_document (Signing.set_member "signatures" v ms) ≡ some text
    → Rereads json (Signing.set_member "signatures" v ms) text
unfolding Signing.member Signing.set_member or_empty but_last
rereads ms v text h =
    subst
      (λ (l : Signing.Members).
        json.encode_document (Signing.set_member "signatures" v l) ≡ some text
        → Rereads json (Signing.set_member "signatures" v l) text)
      (some_injective h) (two_members-Rereads v text)

append_feed_signature-IsCosigned_example :
    IsCosigned json service (9 ∷ 1 ∷ []) "t0" (3 ∷ 4 ∷ 1 ∷ [])
unfolding append_feed_signature trim_newlines Signing.set_member Signing.member or_empty but_last
    squeezed with_end
append_feed_signature-IsCosigned_example =
    append_feed_signature-IsCosigned json service (9 ∷ 1 ∷ []) "t0" (3 ∷ 4 ∷ 1 ∷ []) rereads refl
