-- ===== src/Config/Laws/Variables.antt =====
-- Which environments `applyEnv` accepts.
use dp1_feed_v.Shared.{
  String, true, ◌==◌, Option, none, some, List, [], ◌∷◌, Outcome, ok, ◌≡◌, ◌≢◌, ◌↔◌, ◌⊎◌, refl, inl,
  inr, Bool-cases, Option-cases, All, bind-eq-ok, ◌>>=◌, ap, ◌∙◌,
}
use dp1_feed_v.Config.Settings.{Config}
use dp1_feed_v.Config.Environment.{
  Readers, EnvError, Override, plain, read, set_or, apply_override, apply_overrides, overrides,
  apply_env, mapped,
}
use dp1_feed_v.Http.Queries.{atoi}

-- A variable that must read as a value is empty, or reads as one.
abbrev Readable : (String → String) → Override → Type 0
Readable env (plain name f) = Unit
Readable env (read name f e) = ((env name == "") ≡ true) ⊎ (f (env name) ≢ none)

apply_override_lem :
    (env : String → String) (o : Override) (c : Config)
    → Readable env o
    → (d : Config) × (apply_override env o c ≡ ok d)
unfolding apply_override set_or
apply_override_lem env (plain name f) c h = elim (Bool-cases (env name == "")) [
  | inl e ↦ (c, rw e refl)
  | inr e ↦ (f (env name) c, rw e refl)
]
apply_override_lem env (read name f x) c (inl e) = (c, rw e refl)
apply_override_lem env (read name f x) c (inr n) = elim (Bool-cases (env name == "")) [
  | inl e ↦ (c, rw e refl)
  | inr e ↦ elim (Option-cases (f (env name))) [
    | inl z ↦ absurd (n z)
    | inr (g, z) ↦ (g c, rw (e, z) refl)
  ]
]

set_or_readable :
    (o : Option (Config → Config)) (e : EnvError) (c : Config) {d : Config}
    → set_or o e c ≡ ok d
    → o ≢ none
unfolding set_or
set_or_readable none e c h n = cc
set_or_readable (some f) e c h n = cc

Readable-override :
    (env : String → String) (o : Override) (c : Config) {d : Config}
    → apply_override env o c ≡ ok d
    → Readable env o
unfolding apply_override
Readable-override env (plain name f) c h = tt
Readable-override env (read name f x) c h = elim (Bool-cases (env name == "")) [
  | inl e ↦ inl e
  | inr e ↦ inr (set_or_readable (f (env name)) x c (rw e at h))
]

overrides_lem :
    (env : String → String) (os : List Override) (c : Config)
    → All (Readable env) os
    → (d : Config) × (apply_overrides env os c ≡ ok d)
unfolding apply_overrides
overrides_lem env [] c h = (c, refl)
overrides_lem env (o ∷ os) c (h, hs) =
    let (b, e) = apply_override_lem env o c h in
    let (d, e') = overrides_lem env os b hs in
    (d, ap (λ (m : Outcome EnvError Config). m >>= apply_overrides env os) e ∙ e')

Readable-overrides :
    (env : String → String) (os : List Override) (c : Config) {d : Config}
    → apply_overrides env os c ≡ ok d
    → All (Readable env) os
unfolding apply_overrides
Readable-overrides env [] c h = tt
Readable-overrides env (o ∷ os) c h =
    let (b, e, h') = bind-eq-ok (apply_override env o c) (apply_overrides env os) h in
    (Readable-override env o c e, Readable-overrides env os b h')

-- A text that is empty, or that a reader reads.
abbrev pub Reads : {A : Type 0} → String → (String → Option A) → Type 0
Reads v f = ((v == "") ≡ true) ⊎ (f v ≢ none)

-- The five variables that must read as a value, each with its reader.
pub record IsReadable (r : Readers) (env : String → String) : Type 0 where
  pub clock_skew : Reads (env "DP1_FEED_INTENT_MAX_CLOCK_SKEW") r.parse_duration
  pub request_bytes : Reads (env "DP1_FEED_MAX_REQUEST_BYTES") r.parse_int64
  pub playlist_references : Reads (env "DP1_FEED_MAX_PLAYLIST_REFERENCES") atoi
  pub resolved_bytes : Reads (env "DP1_FEED_MAX_RESOLVED_BYTES") r.parse_int64
  pub clients : Reads (env "DP1_FEED_NOTIFICATION_CLIENTS") r.decode_clients

mapped-none : {A : Type 0} (f : A → Config → Config) (o : Option A) → o ≡ none → mapped f o ≡ none
mapped-none f none h = refl
mapped-none f (some a) h = cc

none-mapped : {A : Type 0} (f : A → Config → Config) (o : Option A) → mapped f o ≡ none → o ≡ none
none-mapped f none h = refl
none-mapped f (some a) h = cc

Reads-of :
    {A : Type 0} (v : String) (g : String → Option A) (f : A → Config → Config)
    → ((v == "") ≡ true) ⊎ (mapped f (g v) ≢ none)
    → Reads v g
Reads-of v g f (inl e) = inl e
Reads-of v g f (inr n) = inr (λ z. n (mapped-none f (g v) z))

of-Reads :
    {A : Type 0} (v : String) (g : String → Option A) (f : A → Config → Config)
    → Reads v g
    → ((v == "") ≡ true) ⊎ (mapped f (g v) ≢ none)
of-Reads v g f (inl e) = inl e
of-Reads v g f (inr n) = inr (λ z. n (none-mapped f (g v) z))

All-IsReadable :
    (r : Readers) (env : String → String) → All (Readable env) (overrides r) → IsReadable r env
unfolding overrides
All-IsReadable r env h = record {
  clock_skew = Reads-of _ r.parse_duration _ h.1.0;
  request_bytes = Reads-of _ r.parse_int64 _ h.1.1.0;
  playlist_references = Reads-of _ atoi _ h.1.1.1.0;
  resolved_bytes = Reads-of _ r.parse_int64 _ h.1.1.1.1.0;
  clients = Reads-of _ r.decode_clients _ h.1.1.1.1.1.1.1.1.1.1.1.1.1.1.1.1.1.0;
}

IsReadable-All :
    (r : Readers) (env : String → String) → IsReadable r env → All (Readable env) (overrides r)
unfolding overrides
IsReadable-All r env h = (
  tt,
  (
    of-Reads _ r.parse_duration _ h.clock_skew,
    (
      of-Reads _ r.parse_int64 _ h.request_bytes,
      (
        of-Reads _ atoi _ h.playlist_references,
        (
          of-Reads _ r.parse_int64 _ h.resolved_bytes,
          (
            tt,
            (
              tt,
              (
                tt,
                (
                  tt,
                  (
                    tt,
                    (
                      tt,
                      (
                        tt,
                        (
                          tt,
                          (
                            tt,
                            (tt, (tt, (tt, (of-Reads _ r.decode_clients _ h.clients, (tt, tt))))),
                          ),
                        ),
                      ),
                    ),
                  ),
                ),
              ),
            ),
          ),
        ),
      ),
    ),
  ),
)

-- `applyEnv` succeeds exactly when each of the five variables that must read as a value (the clock skew,
-- the request size, the two playlist bounds and the notification clients) is empty or does; no other
-- variable, the port included, can make it fail.
pub apply_env_iff :
    (r : Readers) (env : String → String) (c : Config)
    → ((d : Config) × (apply_env r env c ≡ ok d)) ↔ IsReadable r env
unfolding apply_env
apply_env_iff r env c = (
  λ (d, h). All-IsReadable r env (Readable-overrides env (overrides r) c h),
  λ h. overrides_lem env (overrides r) c (IsReadable-All r env h),
)
