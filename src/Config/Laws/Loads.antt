-- ===== src/Config/Laws/Loads.antt =====
-- What `Load` returns: a valid configuration whose key identifier is the signing key's.
use dp1_feed_v.Shared.{
  String, ◌==◌, Option, none, some, Outcome, ok, err, trim_space, ◌≡◌, refl, bind-eq-ok,
  ok-injective, Bool-cases, inl, inr, subst, ap,
}
use dp1_feed_v.Models.{Bytes}
use dp1_feed_v.Dp1svc.Keys.{Ed25519, ed25519_private_key_from_hex}
use dp1_feed_v.Notify.Webhook.Client.{Crypto, parse_p256_private_key_hex, p256_public_key_string}
use dp1_feed_v.Config.Settings.{Config, ServerConfig, PlaylistConfig, NotificationConfig}
use dp1_feed_v.Config.Environment.{apply_env}
use dp1_feed_v.Config.Checks.Parts.{Web, validate}
use dp1_feed_v.Config.Checks.Sound.{Notifies}
use dp1_feed_v.Config.Loading.{
  LoadError, environment, invalid, playlist_signing_key, webhook_key, Machine, labelled,
  read_config, with_kid, derive_signing_kid, derive_webhook_public_key, load,
}
use dp1_feed_v.Config.Laws.Valid.{IsValid, validate-IsValid}

-- The configuration with another key identifier.
abbrev kid_set : Config → String → Config
kid_set c kid = record c { playlist = record (c.playlist) { signing_kid = kid } }

abbrev public_set : Config → String → Config
public_set c text = record c { notifications = record (c.notifications) { public_key = text } }

Notifies-kid :
    (web : Web) (s : ServerConfig) (p : PlaylistConfig) (n : NotificationConfig) (kid : String)
    → Notifies web s p n
    → Notifies web s (record p { signing_kid = kid }) n
Notifies-kid web s p n kid h = record {
  waits = h.waits;
  outlasts = h.outlasts;
  keyed = h.keyed;
  based = h.based;
}

Notifies-public :
    (web : Web) (s : ServerConfig) (p : PlaylistConfig) (n : NotificationConfig) (text : String)
    → Notifies web s p n
    → Notifies web s p (record n { public_key = text })
Notifies-public web s p n text h = record {
  waits = h.waits;
  outlasts = h.outlasts;
  keyed = h.keyed;
  based = h.based;
}

kid_set-IsValid :
    (web : Web) (c : Config) (kid : String) → IsValid web c → IsValid web (kid_set c kid)
kid_set-IsValid web c kid h = record {
  stored = h.stored;
  fresh = h.fresh;
  bounded = h.bounded;
  logged = h.logged;
  signs = h.signs;
  in_time = record {
    fetches = h.in_time.fetches;
    reserves = h.in_time.reserves;
    answers = h.in_time.answers;
    outlasts = h.in_time.outlasts;
  };
  limited = record {
    references = h.limited.references;
    bytes = h.limited.bytes;
    one_fits = h.limited.one_fits;
  };
  clients = h.clients;
  notifies = elim (h.notifies) [
    | inl e ↦ inl e
    | inr n ↦ inr (Notifies-kid web c.server c.playlist c.notifications kid n)
  ];
}

public_set-IsValid :
    (web : Web) (c : Config) (text : String) → IsValid web c → IsValid web (public_set c text)
public_set-IsValid web c text h = record {
  stored = h.stored;
  fresh = h.fresh;
  bounded = h.bounded;
  logged = h.logged;
  signs = h.signs;
  in_time = h.in_time;
  limited = h.limited;
  clients = h.clients;
  notifies = elim (h.notifies) [
    | inl e ↦ inl e
    | inr n ↦ inr (Notifies-public web c.server c.playlist c.notifications text n)
  ];
}

-- The key that a configuration signs with, and its identifier.
abbrev pub HasKid : Ed25519 → Config → Type 0
HasKid e c =
    (priv : Bytes) × (ed25519_private_key_from_hex e c.playlist.signing_key_hex ≡ ok priv)
    × (e.did_key (e.public priv) ≡ some c.playlist.signing_kid)

with_kid_lem :
    (e : Ed25519) (c : Config) (priv : Bytes) (o : Option String) {d : Config}
    → ed25519_private_key_from_hex e c.playlist.signing_key_hex ≡ ok priv
    → e.did_key (e.public priv) ≡ o
    → with_kid c o ≡ ok d
    → (kid : String) × (kid_set c kid ≡ d) × HasKid e (kid_set c kid)
unfolding with_kid
with_kid_lem e c priv none p q h = cc
with_kid_lem e c priv (some kid) p q h = (kid, ok-injective h, (priv, p, q))

labelled_lem {ℓ κ} :
    {E : Type κ} {A : Type ℓ} (f : E → LoadError) (m : Outcome E A) {a : A}
    → labelled f m ≡ ok a
    → m ≡ ok a
unfolding labelled
labelled_lem f (ok b) h = ap (λ z. ok z) (ok-injective h)
labelled_lem f (err e) h = cc

kid_loaded :
    (web : Web) (e : Ed25519) (c d : Config)
    → IsValid web c
    → derive_signing_kid e c ≡ ok d
    → IsValid web d × HasKid e d
unfolding derive_signing_kid
kid_loaded web e c d h k =
    let (priv, p, k1) =
      bind-eq-ok (ed25519_private_key_from_hex e c.playlist.signing_key_hex) _ k in
    let (kid, made, has) = with_kid_lem e c priv _ p refl k1 in
    subst (λ (x : Config). IsValid web x × HasKid e x) made (kid_set-IsValid web c kid h, has)

public_loaded :
    (web : Web) (e : Ed25519) (k : Crypto) (c d : Config)
    → IsValid web c × HasKid e c
    → derive_webhook_public_key k c ≡ ok d
    → IsValid web d × HasKid e d
unfolding derive_webhook_public_key
public_loaded web e k c d (h, has) m =
    elim (Bool-cases (trim_space c.notifications.private_key_hex == "")) [
      | inl z ↦
          subst (λ (x : Config). IsValid web x × HasKid e x) (ok-injective (rw z at m)) (h, has)
      | inr z ↦
          let (key, _, m1) =
            bind-eq-ok (parse_p256_private_key_hex k c.notifications.private_key_hex) _
              (rw z at m) in
          let (text, _, made) = bind-eq-ok (p256_public_key_string k key) _ m1 in
          subst (λ (x : Config). IsValid web x × HasKid e x) (ok-injective made)
            (public_set-IsValid web c text h, has)
    ]

-- A configuration that `Load` returns, from whatever file and environment, is valid, and its key
-- identifier is the one of the key that it signs with.
pub load-IsValid :
    (m : Machine) (path : String) (c : Config)
    → load m path ≡ ok c
    → IsValid m.web c × HasKid m.ed25519 c
unfolding load
load-IsValid m path c h =
    let (a, _, h1) = bind-eq-ok (read_config m path) _ h in
    let (b, _, h2) = bind-eq-ok (labelled environment (apply_env m.readers m.getenv a)) _ h1 in
    let (v, checks, h3) = bind-eq-ok (labelled invalid (validate m.web b)) _ h2 in
    let (d, kid, h4) =
      bind-eq-ok (labelled playlist_signing_key (derive_signing_kid m.ed25519 v)) _ h3 in
    let valid = validate-IsValid m.web b v (labelled_lem invalid _ checks) in
    public_loaded m.web m.ed25519 m.crypto d c
      (kid_loaded m.web m.ed25519 v d valid (labelled_lem playlist_signing_key _ kid))
      (labelled_lem webhook_key _ h4)
