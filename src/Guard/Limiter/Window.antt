-- ===== src/Guard/Limiter/Window.antt =====
-- The sliding window of pkg/ratelimit/limiter.go: how many requests are let through.
use fintech_ecosystem.Base.{
  ℕ, suc, ◌+◌, ◌-◌, ◌≤◌, ◌<◌, ◌≡◌, refl, sym, ◌∙◌, true, false, List, [], ◌∷◌, ◌++◌, length,
  length-append, select, leb, All, All-append, ltb, if◌then◌else◌, Bool-cases, inl, inr, arith,
}
use fintech_ecosystem.Guard.Limiter.{
  Config, Verdict, Member, milli, prune, zadd, check_window, record_request, allow_n,
}

length-prune : (b : ℕ) (ms : List Member) → length (prune b ms) ≤ length ms
unfolding prune
length-prune b [] = omega arith
length-prune b (m ∷ ms) = ground (arith, length-prune b ms)

prune-append : (b : ℕ) (xs ys : List Member) → prune b (xs ++ ys) ≡ prune b xs ++ prune b ys
unfolding prune
prune-append b [] ys = refl
prune-append b (x ∷ xs) ys = ground (arith, prune-append b xs ys)

-- An earlier, smaller bound is absorbed by a later one.
prune-prune : (a b : ℕ) (ms : List Member) → a ≤ b → prune b (prune a ms) ≡ prune b ms
unfolding prune
prune-prune a b [] h = refl
prune-prune a b (m ∷ ms) h = ground (arith, prune-prune a b ms h)

abbrev Before : ℕ → List Member → Type 0
Before now = All (λ (m : Member). m.nano < now)

prune-Before : (b now : ℕ) (ms : List Member) → Before now ms → Before now (prune b ms)
unfolding prune
prune-Before b now [] h = tt
prune-Before b now (m ∷ ms) h = ground (arith, prune-Before b now ms)

zadd-Before : (m : Member) (ms : List Member) → Before m.nano ms → zadd m ms ≡ ms ++ m ∷ []
unfolding zadd
zadd-Before m [] h = refl
zadd-Before m (x ∷ xs) (first, rest) = ground (arith, zadd-Before m xs rest)

abbrev member : ℕ → Member
member now = record { nano = now; index = 0; score = milli now }

-- The set of a key, all requests ever let through, and the time of the last call.
pub record History : Type 0 where
  pub set : List Member
  pub log : List Member
  pub last : ℕ

abbrev logged : Verdict → ℕ → List Member → List Member
logged v now log = if v.allowed then log ++ member now ∷ [] else log

-- One call of `Allow` at a time.
pub call : Config → ℕ → ℕ → History → History
call cfg now later h =
    let (v, set) = allow_n cfg now later 1 h.set in
    record { set = set; log = logged v now h.log; last = now }

-- What the scores keep of the log.
abbrev in_window : Config → ℕ → List Member → List Member
in_window cfg now log = prune (milli (now - cfg.window)) log

-- The requests of the log that came in the span of time that ends at a time, by their own times.
abbrev pub in_span : ℕ → ℕ → List Member → List Member
in_span span last = select (λ (m : Member). leb last (m.nano + span))

-- The score is the time in milliseconds, and not 0.
abbrev IsScored : Member → Type 0
IsScored m = (m.score ≡ milli m.nano) × (1000000 ≤ m.nano)

-- A request in a span that is a millisecond shorter than the window still has its score in it.
length-in_span :
    (cfg : Config) (last : ℕ) (log : List Member)
    → 1000000 ≤ cfg.window
    → All IsScored log
    → length (in_span (cfg.window - 1000000) last log) ≤ length (in_window cfg last log)
unfolding prune
length-in_span cfg last [] wide scored = omega arith
length-in_span cfg last (m ∷ log) wide ((score, young), scored) =
    let rest = length-in_span cfg last log wide scored in
    elim (Bool-cases (leb last (m.nano + (cfg.window - 1000000)))) [
      | inr early ↦ ground (arith, rest, early)
      | inl late ↦
          let kept : ltb (milli (last - cfg.window)) m.score ≡ true =
            rw score (ground (arith, late)) in
          ground (arith, rest, late, kept)
    ]

record IsFaithful (cfg : Config) (h : History) : Type 0 where
  kept : h.set ≡ in_window cfg h.last h.log
  bounded : length h.set ≤ cfg.limit
  past : Before (suc h.last) h.log
  scored : All IsScored h.log

Before-mono : (a b : ℕ) (ms : List Member) → a ≤ b → Before a ms → Before b ms
Before-mono a b [] h p = tt
Before-mono a b (m ∷ ms) h p = (omega arith, Before-mono a b ms h p.1)

new_in_window :
    (w now : ℕ)
    → 1000000 ≤ w
    → w ≤ now
    → prune (milli (now - w)) (member now ∷ []) ≡ member now ∷ []
unfolding prune
new_in_window w now h p = ground arith

call-IsFaithful :
    (cfg : Config) (now later : ℕ) (h : History)
    → 1000000 ≤ cfg.window
    → cfg.window ≤ now
    → h.last < now
    → IsFaithful cfg h
    → IsFaithful cfg (call cfg now later h)
unfolding call allow_n check_window record_request
call-IsFaithful cfg now later h wide epoch after f =
    let b = milli (now - cfg.window) in
    let pruned = prune b h.set in
    let same : pruned ≡ prune b h.log =
      rw f.kept (prune-prune (milli (h.last - cfg.window)) b h.log (omega arith)) in
    let older : Before now h.log = Before-mono (suc h.last) now h.log after f.past in
    let appended : zadd (member now) pruned ≡ pruned ++ member now ∷ [] =
      zadd-Before (member now) pruned (rw same (prune-Before b now h.log older)) in
    let windowed : prune b (h.log ++ member now ∷ []) ≡ pruned ++ member now ∷ [] =
      prune-append b h.log (member now ∷ [])
      ∙ rw (new_in_window cfg.window now wide epoch, same) refl in
    elim (Bool-cases (ltb cfg.limit (length pruned + 1))) [
      | inl full ↦ rw full (record {
        kept = same;
        bounded = omega (arith, length-prune b h.set, f.bounded);
        past = Before-mono now (suc now) h.log (omega arith) older;
        scored = f.scored;
      })
      | inr free ↦ rw free (record {
        kept = appended ∙ sym windowed;
        bounded = rw (appended, length-append pruned (member now ∷ [])) (ground arith);
        past =
            All-append (λ (m : Member). m.nano < suc now) h.log (member now ∷ [])
              (Before-mono now (suc now) h.log (omega arith) older) (omega arith, tt);
        scored = All-append IsScored h.log (member now ∷ []) f.scored ((refl, omega arith), tt);
      })
    ]

pub run : Config → List (ℕ × ℕ) → History → History
run cfg [] h = h
run cfg ((now, later) ∷ calls) h = run cfg calls (call cfg now later h)

-- Calls at strictly later and later times, none before a whole window has passed since time 0.
abbrev pub IsLater : Config → ℕ → List (ℕ × ℕ) → Type 0
IsLater cfg t [] = Unit
IsLater cfg t ((now, later) ∷ calls) = (t < now) × (cfg.window ≤ now) × IsLater cfg now calls

pub no_history : History
no_history = record { set = []; log = []; last = 0 }

run-IsFaithful :
    (cfg : Config) (calls : List (ℕ × ℕ)) (h : History)
    → 1000000 ≤ cfg.window
    → IsLater cfg h.last calls
    → IsFaithful cfg h
    → IsFaithful cfg (run cfg calls h)
unfolding run call
run-IsFaithful cfg [] h wide times f = f
run-IsFaithful cfg ((now, later) ∷ calls) h wide times f =
    run-IsFaithful cfg calls (call cfg now later h) wide times.2
      (call-IsFaithful cfg now later h wide times.1 times.0 f)

-- After any calls of `Allow` for one key, one after the other at different times, at most `limit` of
-- the requests that were let through came in the last stretch of time that is a millisecond shorter
-- than the window: the times are counted in whole milliseconds, so the bound is not for all of the
-- window, which is at least a millisecond long.
pub run-in_span :
    (cfg : Config) (calls : List (ℕ × ℕ))
    → 1000000 ≤ cfg.window
    → IsLater cfg 0 calls
    → let h = run cfg calls no_history in
      length (in_span (cfg.window - 1000000) h.last h.log) ≤ cfg.limit
unfolding no_history prune
run-in_span cfg calls wide times =
    let h = run cfg calls no_history in
    let f =
      run-IsFaithful cfg calls no_history wide times
        (record { kept = refl; bounded = omega arith; past = tt; scored = tt }) in
    let kept : length (in_window cfg h.last h.log) ≤ cfg.limit = rw (← f.kept) f.bounded in
    omega (arith, length-in_span cfg h.last h.log wide f.scored, kept)

-- The two pipelines of `AllowN` are two steps. Two calls whose counts were both taken before either
-- was recorded are both let through when only one more request was allowed, and the set then holds
-- one request more than the limit.
pub record_request_race :
    (cfg : Config) (now now' later later' : ℕ) (set : List Member)
    → Before now set
    → now < now'
    → length set + 1 ≡ cfg.limit
    → let (v, set1) = record_request cfg now later 1 (length set) set in
      let (v', set2) = record_request cfg now' later' 1 (length set) set1 in
      (v.allowed ≡ true) × (v'.allowed ≡ true) × (length set2 ≡ cfg.limit + 1)
unfolding record_request
record_request_race cfg now now' later later' set older apart last_one =
    let room : ltb cfg.limit (length set + 1) ≡ false = ground arith in
    let first : zadd (member now) set ≡ set ++ member now ∷ [] =
      zadd-Before (member now) set older in
    let older' : Before now' (set ++ member now ∷ []) =
      All-append (λ (m : Member). m.nano < now') set (member now ∷ [])
        (Before-mono now now' set (omega arith) older) (apart, tt) in
    let second : zadd (member now') (set ++ member now ∷ [])
        ≡ (set ++ member now ∷ []) ++ member now' ∷ [] =
      zadd-Before (member now') (set ++ member now ∷ []) older' in
    rw room (
      refl,
      refl,
      rw
          (
            first,
            second,
            length-append (set ++ member now ∷ []) (member now' ∷ []),
            length-append set (member now ∷ []),
          )
          (omega arith),
    )
