-- ===== src/Broker/Timeouts.antt =====
-- The deadline of a request to internal/broker/server.go.
use Prim.Native.Nat.{zero}
use zcr521_ai_mcp.Broker.Protocol.{Request}
use zcr521_ai_mcp.Broker.Server.{request_timeout, int_min, day}
use zcr521_ai_mcp.Common.{
  ℕ, ◌≤◌, ◌≡◌, ◌<◌, pos, negsuc, min, some, arith, ◌-◌, Bool-cases, ◌*◌, ltb, suc, inl, refl, ap,
  inr, to_int64_small, to_int64_large, ◌⊎◌, leb,
}

int_min_pos : (a b : ℕ) → int_min (pos a) (pos b) ≡ pos (min a b)
int_min_pos a b = elim (Bool-cases (ltb b a)) [
  | inl above ↦ let e : b ≡ min a b = ground arith in rw above (ap pos e)
  | inr below ↦ let e : a ≡ min a b = ground arith in rw below (ap pos e)
]

-- A timeout of 1 to 9223372036854 milliseconds is taken as it is, but at most as a day.
request_timeout_capped :
    (r : Request) (ms : ℕ)
    → r.timeout_ms ≡ pos ms
    → 0 < ms
    → ms ≤ 9223372036854
    → request_timeout r ≡ some (pos (min (ms * 1000000) day))
unfolding request_timeout
request_timeout_capped r zero e positive small = absurd (omega arith)
request_timeout_capped r (suc n) e positive small =
    rw (e, to_int64_small (suc n * 1000000) (omega arith), int_min_pos (suc n * 1000000) day) refl

-- A timeout of 9223372036855 to 18446744073709 milliseconds wraps around in int64: the deadline is
-- negative.
request_timeout_wraps :
    (r : Request) (ms : ℕ)
    → r.timeout_ms ≡ pos ms
    → 9223372036855 ≤ ms
    → ms ≤ 18446744073709
    → (n : ℕ) × (request_timeout r ≡ some (negsuc n))
unfolding request_timeout
request_timeout_wraps r zero e large small = absurd (omega arith)
request_timeout_wraps r (suc n) e large small = (
  18446744073709551615 - suc n * 1000000,
  rw (e, to_int64_large (suc n * 1000000) (omega arith) (omega arith)) refl,
)

-- A timeout of 1 to 9223372036854 milliseconds is taken as it is, but at most as a day; one of
-- 9223372036855 to 18446744073709 milliseconds wraps around in int64, and the deadline is negative.
pub request_timeout_outcome :
    (r : Request) (ms : ℕ)
    → r.timeout_ms ≡ pos ms
    → 0 < ms
    → ms ≤ 18446744073709
    → ((ms ≤ 9223372036854) × (request_timeout r ≡ some (pos (min (ms * 1000000) day))))
      ⊎ ((9223372036854 < ms) × ((n : ℕ) × (request_timeout r ≡ some (negsuc n))))
request_timeout_outcome r ms e positive small = elim (Bool-cases (leb ms 9223372036854)) [
  | inl fits ↦
      let below : ms ≤ 9223372036854 = ground arith in
      inl (below, request_timeout_capped r ms e positive below)
  | inr large ↦
      let above : 9223372036854 < ms = ground arith in
      inr (above, request_timeout_wraps r ms e (omega arith) small)
]
