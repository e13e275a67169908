-- ===== src/Config/Laws/Timeouts.antt =====
-- The timeouts of an accepted configuration as numbers: they are in order as long as their sums are those of
-- int64 without a wrap-around, and a sum that wraps is not noticed.
use dp1_feed_v.Shared.{ℕ, ◌+◌, ◌≤◌, ◌<◌, ◌≡◌, pos, true, ok, ltb→lt, arith}
use dp1_feed_v.Config.Integers.{is_positive, z_ltb, z_add, z_add-pos, z_add_overflow}
use dp1_feed_v.Config.Settings.{Config, ServerConfig, PlaylistConfig}
use dp1_feed_v.Config.Checks.Parts.{Web, check_timeouts, validate}
use dp1_feed_v.Config.Laws.Valid.{validate-IsValid}

outlasts_lem :
    (f r w : ℕ)
    → f + r < 9223372036854775808
    → z_ltb (z_add (pos f) (pos r)) (pos w) ≡ true
    → f + r < w
unfolding z_ltb
outlasts_lem f r w fits h = ltb→lt _ _ (rw (z_add-pos f r fits) at h)

-- In a configuration that `validate` accepts, the write timeout is longer than the fetch timeout and the
-- response reserve together, given that their sum is an int64.
pub write_timeout_outlasts :
    (web : Web) (c d : Config) (f r w : ℕ)
    → validate web c ≡ ok d
    → d.playlist.fetch_timeout ≡ pos f
    → d.server.response_write_reserve ≡ pos r
    → d.server.write_timeout ≡ pos w
    → f + r < 9223372036854775808
    → (0 < f) × (0 < r) × (f + r < w)
unfolding is_positive
write_timeout_outlasts web c d f r w h ef er ew fits =
    let time = (validate-IsValid web c d h).in_time in
    (
      ltb→lt _ _ (rw ef at time.fetches),
      ltb→lt _ _ (rw er at time.reserves),
      outlasts_lem f r w fits (rw (ef, er, ew) at time.outlasts),
    )

-- Timeouts whose sum does not fit into an int64 pass the check, however short the write timeout is against
-- the fetch timeout: the sum wraps to a negative number.
pub check_timeouts_overflow :
    (s : ServerConfig) (p : PlaylistConfig) (f r w : ℕ)
    → p.fetch_timeout ≡ pos f
    → s.response_write_reserve ≡ pos r
    → s.write_timeout ≡ pos w
    → f < 9223372036854775808
    → 0 < r
    → r < w
    → w < 9223372036854775808
    → 9223372036854775808 ≤ f + r
    → check_timeouts s p ≡ ok tt
unfolding check_timeouts is_positive z_ltb
check_timeouts_overflow s p f r w ef er ew small some_r late fits over =
    rw (ef, er, ew) (rw (z_add_overflow f r small (omega arith) over) (ground arith))
