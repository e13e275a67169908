-- ===== src/Tests/Cursors.antt =====
-- A codec that writes a struct as a list of numbers and a number as that many letters, and the tokens
-- that it makes.
use dp1_feed_v.Shared.{
  ℕ, zero, suc, ℤ, pos, negsuc, ◌≡◌, refl, sym, ap, ◌∙◌, String, Bool, true, false, ◌||◌, ◌==◌,
  eq_iff, Option, none, some, [], ◌∷◌, nat_eq, if◌then◌else◌, Bool-cases, inl, inr, arith,
}
use Prim.Native.Char.{Char, code}
use Prim.Native.String.{[], ◌∷◌}
use dp1_feed_v.Models.{Bytes}
use dp1_feed_v.Store.Keyset.{SortOrder, unset, ascending, descending}
use dp1_feed_v.Store.Cursors.{
  Codec, RawFields, CursorPayload, MembershipCursorPayload, PlaylistItemCursorPayload,
  membership_kind_channel, membership_kind_playlist_group, show_sort,
}
use dp1_feed_v.Store.Cursors.Tokens.{IsCodec}

abbrev stroke : Char
stroke = "i"

abbrev stop : Char
stop = "."

letters : ℕ → String → String
letters zero s = stop ∷ s
letters (suc n) s = stroke ∷ letters n s

unfoldable pub write_bytes : Bytes → String
unfolding letters
write_bytes [] = []
write_bytes (n ∷ bs) = letters n (write_bytes bs)

one_more : Bytes → Bytes
one_more [] = []
one_more (n ∷ bs) = suc n ∷ bs

unfoldable pub read_bytes : String → Bytes
unfolding one_more
read_bytes [] = []
read_bytes (c ∷ s) =
    let rest = read_bytes s in if nat_eq (code c) b'i' then one_more rest else 0 ∷ rest

read-letters : (n : ℕ) (s : String) → read_bytes (letters n s) ≡ n ∷ read_bytes s
unfolding letters read_bytes one_more
read-letters zero s = refl
read-letters (suc n) s = rw (read-letters n s)

read-write : (bs : Bytes) → read_bytes (write_bytes bs) ≡ bs
unfolding write_bytes read_bytes
read-write [] = refl
read-write (n ∷ bs) = read-letters n (write_bytes bs) ∙ ap (n ∷◌) (read-write bs)

abbrev starts : String → Bool
starts [] = false
starts (c ∷ s) = true

starts-letters : (n : ℕ) (s : String) → starts (letters n s) ≡ true
unfolding letters
starts-letters zero s = refl
starts-letters (suc n) s = refl

letters-nonempty : (n : ℕ) (s : String) → (letters n s == "") ≡ false
letters-nonempty n s = elim (Bool-cases (letters n s == "")) [
  | inl e ↦
      let bad : true ≡ false =
        sym (starts-letters n s) ∙ ap starts ((eq_iff (letters n s) "").0 e) in
      cc
  | inr f ↦ f
]

write-nonempty : (n : ℕ) (bs : Bytes) → (write_bytes (n ∷ bs) == "") ≡ false
unfolding write_bytes
write-nonempty n bs = letters-nonempty n (write_bytes bs)

abbrev fields_of : Bytes → Option RawFields
fields_of [] = none
fields_of (zero ∷ bs) = some (("t", true) ∷ ("id", true) ∷ [])
fields_of (suc zero ∷ bs) =
    some (("kind", true) ∷ ("cid", true) ∷ ("sort", true) ∷ ("rev", true) ∷ ("pos", true) ∷ [])
fields_of (suc (suc n) ∷ bs) = some (("t", true) ∷ ("pos", true) ∷ ("iid", true) ∷ [])

abbrev number : ℤ → ℕ
number (pos n) = n
number (negsuc n) = 0

abbrev kind_number : String → ℕ
kind_number kind = if kind == membership_kind_channel then 0 else 1

abbrev kind_text : ℕ → String
kind_text zero = membership_kind_channel
kind_text (suc n) = membership_kind_playlist_group

abbrev sort_number : String → ℕ
sort_number s = if s == "" then 0 else if s == "asc" then 1 else 2

abbrev sort_name : ℕ → String
sort_name zero = ""
sort_name (suc zero) = "asc"
sort_name (suc (suc n)) = "desc"

abbrev read_cursor : Bytes → Option CursorPayload
read_cursor (tag ∷ t ∷ id ∷ []) = some (record { created_at = t; id = id })
read_cursor bs = none

abbrev read_membership : Bytes → Option (MembershipCursorPayload ℤ)
read_membership (tag ∷ kind ∷ container ∷ sort ∷ rev ∷ n ∷ []) = some (record {
  kind = kind_text kind;
  container = container;
  sort = sort_name sort;
  rev = rev;
  position = pos n;
})
read_membership bs = none

abbrev read_item : Bytes → Option (PlaylistItemCursorPayload ℤ)
read_item (tag ∷ t ∷ n ∷ id ∷ []) = some (record { created_at = t; position = pos n; item_id = id })
read_item bs = none

abbrev pub letters_codec : Codec
letters_codec = record {
  encode_base64 = write_bytes;
  decode_base64 = λ s. some (read_bytes s);
  raw_fields = fields_of;
  marshal_cursor = λ p. 0 ∷ p.created_at ∷ p.id ∷ [];
  unmarshal_cursor = read_cursor;
  marshal_membership_cursor = λ p.
      1 ∷ kind_number p.kind ∷ p.container ∷ sort_number p.sort ∷ p.rev ∷ number p.position ∷ [];
  unmarshal_membership_cursor = read_membership;
  marshal_playlist_item_cursor = λ p. 2 ∷ p.created_at ∷ number p.position ∷ p.item_id ∷ [];
  unmarshal_playlist_item_cursor = read_item;
}

kind_back :
    (kind : String)
    → (kind == membership_kind_channel || kind == membership_kind_playlist_group) ≡ true
    → kind_text (kind_number kind) ≡ kind
kind_back kind h = elim (Bool-cases (kind == membership_kind_channel)) [
  | inl e ↦ rw e (sym ((eq_iff kind membership_kind_channel).0 e))
  | inr n ↦
      let other : (kind == membership_kind_playlist_group) ≡ true = ground arith in
      rw n (sym ((eq_iff kind membership_kind_playlist_group).0 other))
]

sort_back : (o : SortOrder) → sort_name (sort_number (show_sort o)) ≡ show_sort o
unfolding show_sort
sort_back unset = refl
sort_back ascending = refl
sort_back descending = refl

pub letters_codec-IsCodec : IsCodec letters_codec
letters_codec-IsCodec = record {
  base64 = λ b. ap some (read-write b);
  cursor_nonempty = λ p u. write-nonempty 0 _;
  cursor_fields = λ p u. refl;
  cursor = λ p u v. refl;
  membership_nonempty = λ p u. write-nonempty 1 _;
  membership_fields = λ p u. refl;
  membership = λ p o k d u v n.
      ap
        (λ (kind : String). some (record {
          kind = kind;
          container = p.container;
          sort = sort_name (sort_number p.sort);
          rev = p.rev;
          position = pos p.position;
        }))
        (kind_back p.kind k)
      ∙ ap
          (λ (sort : String). some (record {
            kind = p.kind;
            container = p.container;
            sort = sort;
            rev = p.rev;
            position = pos p.position;
          }))
          (ap (λ (t : String). sort_name (sort_number t)) d ∙ sort_back o ∙ sym d);
  item_nonempty = λ p u. write-nonempty 2 _;
  item_fields = λ p u. refl;
  item = λ p u v n. refl;
}
