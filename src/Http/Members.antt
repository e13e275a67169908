-- ===== src/Http/Members.antt =====
-- internal/httpserver/bind.go, `exactMembers` and `jsonFields`: the walk over a decoded JSON value along the
-- Go type that it is decoded into, which refuses a member that the type does not name byte for byte.
use dp1_feed_v.Shared.{
  String, Bool, false, ◌==◌, Option, none, some, Outcome, ok, err, ◌>>◌, if◌then◌else◌, ◌≡◌, ◌≢◌,
  refl, subst, inl, inr, Option-cases, then-eq-ok, ◌↔◌,
}

-- A decoded value: an object holds each name once.
mutual
  pub data Json : Type 0 where
    json_scalar : Json
    json_array : Items → Json
    json_object : Members → Json

  pub data Items : Type 0 where
    no_items : Items
    item : Json → Items → Items

  pub data Members : Type 0 where
    no_members : Members
    member : String → Json → Members → Members

-- A Go type, its pointers removed: one whose contents are not looked at, a struct with its fields (the Go
-- name, whether it is exported, the name in its json tag, and the type), or a list.
mutual
  pub data Shape : Type 0 where
    opaque : Shape
    structure : Fields → Shape
    slice : Shape → Shape

  pub data Fields : Type 0 where
    no_fields : Fields
    field : String → Bool → String → Shape → Fields → Fields

-- The wire name of a field, empty where it has none: `-` drops it, and without a tag it is the Go name.
wire_name : String → Bool → String → Option String
wire_name go exported tag =
    if exported
    then (if tag == "-" then none else if tag == "" then some go else some tag)
    else none

named : String → Option String → Bool
named name none = false
named name (some n) = n == name

-- `jsonFields(typ)[name]`: the last field of that wire name.
unfoldable pub json_field : Fields → String → Option Shape
unfolding wire_name named
json_field no_fields name = none
json_field (field go exported tag s fs) name = elim (json_field fs name) [
  | some t ↦ some t
  | none ↦ if named name (wire_name go exported tag) then some s else none
]

-- A member is walked with the type of its field, if there is one.
unfoldable pub at_field :
    String → (Shape → Outcome String (Unit {0})) → Option Shape → Outcome String (Unit {0})
at_field name walk none = err name
at_field name walk (some s) = walk s

-- `exactMembers`: a value that is not of the type's kind is left to the decoder.
unfoldable mutual
  unfolding json_field at_field

  pub exact_members : Json → Shape → Outcome String (Unit {0})
  exact_members json_scalar s = ok tt
  exact_members (json_array is) opaque = ok tt
  exact_members (json_array is) (structure fs) = ok tt
  exact_members (json_array is) (slice s) = exact_items is s
  exact_members (json_object ms) opaque = ok tt
  exact_members (json_object ms) (structure fs) = exact_fields ms fs
  exact_members (json_object ms) (slice s) = ok tt

  pub exact_items : Items → Shape → Outcome String (Unit {0})
  exact_items no_items s = ok tt
  exact_items (item v is) s = let rest = exact_items is s in exact_members v s >> rest

  pub exact_fields : Members → Fields → Outcome String (Unit {0})
  exact_fields no_members fs = ok tt
  exact_fields (member name v ms) fs =
      let rest = exact_fields ms fs in at_field name (exact_members v) (json_field fs name) >> rest

-- A member somewhere in the value whose name the struct at its place does not have.
mutual
  pub data Misnamed : Json → Shape → Type 0 where
    in_object :
        {ms : Members} {fs : Fields}
        → MisnamedMember ms fs
        → Misnamed (json_object ms) (structure fs)
    in_array : {is : Items} {s : Shape} → MisnamedItem is s → Misnamed (json_array is) (slice s)

  pub data MisnamedItem : Items → Shape → Type 0 where
    this_item : {v : Json} {is : Items} {s : Shape} → Misnamed v s → MisnamedItem (item v is) s
    later_item :
        {v : Json} {is : Items} {s : Shape} → MisnamedItem is s → MisnamedItem (item v is) s

  pub data MisnamedMember : Members → Fields → Type 0 where
    unknown :
        {name : String} {v : Json} {ms : Members} {fs : Fields}
        → json_field fs name ≡ none
        → MisnamedMember (member name v ms) fs
    inside :
        {name : String} {v : Json} {ms : Members} {fs : Fields} {s : Shape}
        → json_field fs name ≡ some s
        → Misnamed v s
        → MisnamedMember (member name v ms) fs
    later_member :
        {name : String} {v : Json} {ms : Members} {fs : Fields}
        → MisnamedMember ms fs
        → MisnamedMember (member name v ms) fs

field_walk :
    (name : String) (walk : Shape → Outcome String (Unit {0})) (o q : Option Shape)
    (rest : Outcome String (Unit {0}))
    → o ≡ q
    → (at_field name walk o >> rest) ≡ ok tt
    → at_field name walk q ≡ ok tt
field_walk name walk o q rest e h =
    subst (λ (x : Option Shape). at_field name walk x ≡ ok tt) e
      (then-eq-ok (at_field name walk o) rest h).0

mutual
  unfolding exact_members exact_items exact_fields at_field

  refused : {v : Json} {s : Shape} → Misnamed v s → exact_members v s ≢ ok tt
  refused (in_object m) h = refused_fields m h
  refused (in_array m) h = refused_items m h

  refused_items : {is : Items} {s : Shape} → MisnamedItem is s → exact_items is s ≢ ok tt
  refused_items (this_item m) h = refused m (then-eq-ok _ _ h).0
  refused_items (later_item m) h = refused_items m (then-eq-ok _ _ h).1

  refused_fields : {ms : Members} {fs : Fields} → MisnamedMember ms fs → exact_fields ms fs ≢ ok tt
  refused_fields {fs} (unknown {name = name} {v = v} {ms = ms} e) h =
      let bad = field_walk name (exact_members v) _ none (exact_fields ms fs) e h in cc
  refused_fields {fs} (inside {name = name} {v = v} {ms = ms} {s = s} e m) h =
      refused m (field_walk name (exact_members v) _ (some s) (exact_fields ms fs) e h)
  refused_fields (later_member m) h = refused_fields m (then-eq-ok _ _ h).1

mutual
  unfolding exact_members exact_items exact_fields at_field

  accepted : (v : Json) (s : Shape) → ¬ Misnamed v s → exact_members v s ≡ ok tt
  accepted json_scalar s n = refl
  accepted (json_array is) opaque n = refl
  accepted (json_array is) (structure fs) n = refl
  accepted (json_array is) (slice s) n = accepted_items is s (λ m. n (in_array m))
  accepted (json_object ms) opaque n = refl
  accepted (json_object ms) (structure fs) n = accepted_fields ms fs (λ m. n (in_object m))
  accepted (json_object ms) (slice s) n = refl

  accepted_items : (is : Items) (s : Shape) → ¬ MisnamedItem is s → exact_items is s ≡ ok tt
  accepted_items no_items s n = refl
  accepted_items (item v is) s n =
      rw (accepted v s (λ m. n (this_item m))) (accepted_items is s (λ m. n (later_item m)))

  accepted_fields :
      (ms : Members) (fs : Fields) → ¬ MisnamedMember ms fs → exact_fields ms fs ≡ ok tt
  accepted_fields no_members fs n = refl
  accepted_fields (member name v ms) fs n = elim (Option-cases (json_field fs name)) [
    | inl e ↦ absurd (n (unknown e))
    | inr (s, e) ↦
        rw (e, accepted v s (λ m. n (inside e m))) (accepted_fields ms fs (λ m. n (later_member m)))
  ]

-- The walk accepts a body exactly when no object in it, at any depth that the type describes, has a member
-- that is not, byte for byte, a wire name of the struct at its place.
pub exact_members_iff : (v : Json) (s : Shape) → (exact_members v s ≡ ok tt) ↔ (¬ Misnamed v s)
exact_members_iff v s = (λ h m. refused m h, accepted v s)
