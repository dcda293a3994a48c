-- ===== src/Supervisor/Backoff.antt =====
-- The restarts of internal/supervisor/supervisor.go: the waits between rounds, and the crash loop.
use mathlib.Core.Path.{ap₂, ap}
use native.Mathlib.Nat.{pow-suc}
use Prim.Native.Nat.{zero}
use zcr521_ai_mcp.Supervisor.Options.{Options}
use zcr521_ai_mcp.Supervisor.Restarts.{
  going, stopped, run_rounds, first_round, drop_old, decide, Round, Loop,
}
use zcr521_ai_mcp.Common.{
  inl, inr, [], ◌∷◌, ℕ, List, min, suc, ◌≤◌, All, ◌-◌, ◌*◌, ◌++◌, arith, ◌≡◌, ◌+◌, length, ◌<◌, ◌^◌,
  Bool-cases, false, ltb, leb, refl, length-append, ◌∙◌,
}

-- A round that was over before the pair counted as stable.
abbrev pub IsShort : Options → Round → Type 0
IsShort o r = (r.checked - r.started) < o.stable_after

-- The wait before the restart that follows k failures in a row.
unfoldable pub backoff : Options → ℕ → ℕ
backoff o k = min (o.initial_delay * 2 ^ k) o.max_delay

unfoldable pub backoffs : Options → ℕ → ℕ → List ℕ
backoffs o k zero = []
backoffs o k (suc n) = backoff o k ∷ backoffs o (suc k) n

backoff-suc : (o : Options) (k : ℕ) → min (backoff o k * 2) o.max_delay ≡ backoff o (suc k)
unfolding backoff
backoff-suc o k = rw pow-suc (omega arith)

short-waits :
    (o : Options) (l : Loop) (k : ℕ) (rs : List Round)
    → l.delay ≡ backoff o k
    → All (IsShort o) rs
    → (run_rounds o l rs).end ≡ going
    → (run_rounds o l rs).waits ≡ backoffs o k (length rs)
unfolding run_rounds decide backoffs
short-waits o l k [] e a s = refl
short-waits o l k (r ∷ rs) e a s =
    let failures = drop_old o.failure_window r.now (l.failures ++ r.now ∷ []) in
    elim (Bool-cases r.rolled_back) [
      | inl gone ↦ let s' = simp gone at s in cc
      | inr here ↦ elim (Bool-cases (leb o.max_failures (length failures))) [
        | inl stops ↦ let s' = simp (here, stops) at s in cc
        | inr goes ↦
            let short : leb o.stable_after (r.checked - r.started) ≡ false = ground (arith, a.0) in
            let l' : Loop = record { failures = failures; delay = min (l.delay * 2) o.max_delay } in
            let s' : (run_rounds o l' rs).end ≡ going = simp (here, goes, short) at s in
            simp (here, goes, short)
              (ap₂ ◌∷◌ e (
                short-waits o l' (suc k) rs (ap (λ d. min (d * 2) o.max_delay) e ∙ backoff-suc o k)
                  a.1 s'))
      ]
    ]

-- As long as rounds that are over before the pair is stable follow one another and the loop neither
-- stops nor is replaced by a rollback, the waits are the initial delay, doubled from one to the next,
-- up to the maximal delay, given that the initial one is not above the maximal.
pub restart_waits_double :
    (o : Options) (rs : List Round)
    → o.initial_delay ≤ o.max_delay
    → All (IsShort o) rs
    → (run_rounds o (first_round o) rs).end ≡ going
    → (run_rounds o (first_round o) rs).waits ≡ backoffs o 0 (length rs)
unfolding first_round
restart_waits_double o rs h a s =
    short-waits o (first_round o) 0 rs (unfold backoff in omega arith) a s

-- Failures that are all recent are all kept.
drop_old-recent :
    (window now base : ℕ) (fs : List ℕ)
    → now ≤ base + window
    → All (λ f. base ≤ f) fs
    → drop_old window now fs ≡ fs
unfolding drop_old
drop_old-recent window now base [] h a = refl
drop_old-recent window now base (f ∷ fs) h a =
    let recent : ltb (f + window) now ≡ false = ground (arith, a.0) in rw recent

All-snoc :
    (base now : ℕ) (fs : List ℕ)
    → All (λ f. base ≤ f) fs
    → base ≤ now
    → All (λ f. base ≤ f) (fs ++ now ∷ [])
All-snoc base now [] a h = (h, tt)
All-snoc base now (f ∷ fs) a h = (a.0, All-snoc base now fs a.1 h)

-- A round that ends between `base` and the end of the window that begins there, before the pair is
-- stable, and after which nothing is rolled back.
abbrev pub IsWithin : Options → ℕ → Round → Type 0
IsWithin o base r =
    (base ≤ r.now) × (r.now ≤ base + o.failure_window) × IsShort o r × (r.rolled_back ≡ false)

burst-stops :
    (o : Options) (base : ℕ) (l : Loop) (rs : List Round)
    → All (λ f. base ≤ f) l.failures
    → All (IsWithin o base) rs
    → length l.failures < o.max_failures
    → o.max_failures ≤ length l.failures + length rs
    → (run_rounds o l rs).end ≡ stopped
unfolding run_rounds decide
burst-stops o base l [] a w few h = absurd (omega arith)
burst-stops o base l (r ∷ rs) a w few h =
    let failures = l.failures ++ r.now ∷ [] in
    let kept =
      drop_old-recent o.failure_window r.now base failures w.0.1
        (All-snoc base r.now l.failures a w.0.0) in
    let counted = length-append l.failures (r.now ∷ []) in
    let short : leb o.stable_after (r.checked - r.started) ≡ false = ground (arith, w.0.2) in
    elim (Bool-cases (leb o.max_failures (length failures))) [
      | inl stops ↦ simp (w.0.3, kept, stops)
      | inr goes ↦
          simp (w.0.3, kept, goes, short)
            (burst-stops o base
              (record { failures = failures; delay = min (l.delay * 2) o.max_delay }) rs
              (All-snoc base r.now l.failures a w.0.0) w.1 (ground arith) (omega arith))
    ]

-- A crash loop ends: as many rounds as `MaxFailures`, which is positive, each over before the pair
-- is stable and all within one failure window, make the supervisor stop, given that after none of
-- them a rollback succeeds, which would replace the process.
pub crash_loop_stops :
    (o : Options) (base : ℕ) (rs : List Round)
    → 0 < o.max_failures
    → All (IsWithin o base) rs
    → o.max_failures ≤ length rs
    → (run_rounds o (first_round o) rs).end ≡ stopped
unfolding first_round
crash_loop_stops o base rs pos w h = burst-stops o base (first_round o) rs tt w pos (omega arith)
