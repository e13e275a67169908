-- ===== src/Owner/Keys.antt =====
-- Key sets (`keySet`) as lists without repetition, and the sets that a document's members define.
use dp1_feed_v.Shared.{
  String, Bool, false, ◌||◌, Option, none, some, List, [], ◌∷◌, ◌==◌, if◌then◌else◌, trim_space,
}
use dp1_feed_v.Models.{Signature, Entity, role_feed}

abbrev pub KeySet : Type 0
KeySet = List String

-- `_, ok := set[k]`
unfoldable pub has : KeySet → String → Bool
has [] k = false
has (j ∷ set) k = j == k || has set k

-- `if k := strings.TrimSpace(s); k != "" { set[k] = struct{}{} }`
unfoldable pub add_key : String → KeySet → KeySet
add_key s set = let k = trim_space s in if k == "" then set else if has set k then set else k ∷ set

entity_keys : KeySet → List Entity → KeySet
entity_keys set [] = set
entity_keys set (e ∷ es) = entity_keys (add_key e.key set) es

unfoldable pub entity_key_set : List Entity → KeySet
unfolding entity_keys
entity_key_set entities = entity_keys [] entities

unfoldable pub publisher_key_set : Option Entity → KeySet
publisher_key_set none = []
publisher_key_set (some e) = add_key e.key []

-- The loop of `ownerSet`: the keys that signed in the role.
unfoldable pub role_signers : String → KeySet → List Signature → KeySet
role_signers role set [] = set
role_signers role set (s ∷ sigs) =
    role_signers role (if s.role == role then add_key s.kid set else set) sigs

unfoldable pub owner_set : KeySet → String → List Signature → KeySet
owner_set [] role sigs = role_signers role [] sigs
owner_set (k ∷ declared) role sigs = k ∷ declared

-- The loop of `clientSignerKeySet`.
unfoldable pub client_signers : KeySet → List Signature → KeySet
client_signers set [] = set
client_signers set (s ∷ sigs) =
    client_signers (if s.role == role_feed then set else add_key s.kid set) sigs

unfoldable pub client_signer_key_set : List Signature → KeySet
client_signer_key_set sigs = client_signers [] sigs
