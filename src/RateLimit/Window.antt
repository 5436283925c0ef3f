-- ===== src/RateLimit/Window.antt =====
-- The rate limiter against its specification: a window that slides over the admitted requests.
use phone_app.Base.{
  starts_with, eqb_refl, replicate, ℕ, zero, suc, ◌+◌, ◌≤◌, ◌≡◌, inl, inr, refl, ap, Bool, true,
  false, some, List, [], ◌∷◌, ◌++◌, arith, ltb, leb, if◌then◌else◌, Bool-cases, Text, codes, length,
}
use phone_app.RateLimit.{
  Request, Limits, Hits, no_hits, evict, admit, limited, bucket, call, get_client_ip,
}

-- How many of the admitted times are no older than the window.
abbrev pub count_recent : ℕ → ℕ → List ℕ → ℕ
count_recent window now [] = 0
count_recent window now (t ∷ log) =
    (if ltb (t + window) now then 0 else 1) + count_recent window now log

-- The specification: of requests, each with its time and its limit, those are admitted that find
-- fewer than the limit admitted within the window before them. `log` holds all admitted times.
unfoldable pub spec_serve : ℕ → List (ℕ × ℕ) → List ℕ → List Bool
spec_serve window [] log = []
spec_serve window ((now, max) ∷ reqs) log =
    let passes = ltb (count_recent window now log) max in
    passes ∷ spec_serve window reqs (if passes then log ++ now ∷ [] else log)

-- One bucket of the middleware under the same requests.
unfoldable pub serve : ℕ → List (ℕ × ℕ) → List ℕ → List Bool
serve window [] dq = []
serve window ((now, max) ∷ reqs) dq =
    let (passes, dq') = admit window max now dq in passes ∷ serve window reqs dq'

abbrev Ascending : ℕ → List ℕ → Type 0
Ascending lo [] = Unit
Ascending lo (t ∷ ts) = (lo ≤ t) × Ascending t ts

-- The requests come in the order of their times, none before `lo`.
abbrev pub InOrder : ℕ → List (ℕ × ℕ) → Type 0
InOrder lo [] = Unit
InOrder lo ((now, _) ∷ reqs) = (lo ≤ now) × InOrder now reqs

abbrev Until : ℕ → List ℕ → Type 0
Until hi [] = Unit
Until hi (t ∷ ts) = (t ≤ hi) × Until hi ts

evict-evict :
    (w now now' : ℕ) (log : List ℕ) → now ≤ now' → evict w now' (evict w now log) ≡ evict w now' log
unfolding evict
evict-evict w now now' [] le = refl
evict-evict w now now' (t ∷ log) le = ground (arith, evict-evict w now now' log le)

evict-snoc :
    (w now : ℕ) (log : List ℕ) → evict w now (log ++ now ∷ []) ≡ evict w now log ++ now ∷ []
unfolding evict
evict-snoc w now [] = ground arith
evict-snoc w now (t ∷ log) = ground (arith, evict-snoc w now log)

count_recent_all :
    (w now lo : ℕ) (log : List ℕ)
    → Ascending lo log
    → now ≤ lo + w
    → count_recent w now log ≡ length log
count_recent_all w now lo [] up h = refl
count_recent_all w now lo (t ∷ log) up h = ground (arith, count_recent_all w now t log up.1)

length-evict :
    (w now lo : ℕ) (log : List ℕ)
    → Ascending lo log
    → length (evict w now log) ≡ count_recent w now log
unfolding evict
length-evict w now lo [] up = refl
length-evict w now lo (t ∷ log) up =
    ground (arith, length-evict w now t log up.1, count_recent_all w now t log up.1)

Ascending-snoc :
    (lo now : ℕ) (log : List ℕ)
    → lo ≤ now
    → Ascending lo log
    → Until now log
    → Ascending lo (log ++ now ∷ [])
Ascending-snoc lo now [] le up h = (le, tt)
Ascending-snoc lo now (t ∷ log) le up h = (up.0, Ascending-snoc t now log h.0 up.1 h.1)

Until-snoc : (now : ℕ) (log : List ℕ) → Until now log → Until now (log ++ now ∷ [])
Until-snoc now [] h = (omega arith, tt)
Until-snoc now (t ∷ log) h = (h.0, Until-snoc now log h.1)

Until-weaken : (a b : ℕ) (log : List ℕ) → a ≤ b → Until a log → Until b log
Until-weaken a b [] le h = tt
Until-weaken a b (t ∷ log) le h = (omega arith, Until-weaken a b log le h.1)

serve_from :
    (w last : ℕ) (reqs : List (ℕ × ℕ)) (log : List ℕ)
    → Ascending 0 log
    → Until last log
    → InOrder last reqs
    → serve w reqs (evict w last log) ≡ spec_serve w reqs log
unfolding serve spec_serve admit
serve_from w last [] log up old order = refl
serve_from w last ((now, max) ∷ reqs) log up old order =
    let live = evict-evict w last now log order.0 in
    let size = length-evict w now 0 log up in
    let old' = Until-weaken last now log order.0 old in
    elim (Bool-cases (ltb (count_recent w now log) max)) [
      | inl passes ↦
          let full : leb max (length (evict w now log)) ≡ false = ground arith in
          rw (live, full, passes, ← evict-snoc w now log)
            (ap (λ (l : List Bool). true ∷ l)
              (serve_from w now reqs (log ++ now ∷ [])
                (Ascending-snoc 0 now log (omega arith) up old') (Until-snoc now log old') order.1))
      | inr fails ↦
          let full : leb max (length (evict w now log)) ≡ true = ground arith in
          rw (live, full, fails)
            (ap (λ (l : List Bool). false ∷ l) (serve_from w now reqs log up old' order.1))
    ]

-- On one bucket, whatever the limit of each request, requests that come in the order of their times
-- are answered as the specification says: one passes exactly if, within the window before it, fewer
-- requests than its limit have passed.
pub serve-eq-spec_serve :
    (w : ℕ) (reqs : List (ℕ × ℕ)) → InOrder 0 reqs → serve w reqs [] ≡ spec_serve w reqs []
unfolding evict
serve-eq-spec_serve w reqs order = serve_from w 0 reqs [] tt tt order

evict_recent : (w now n : ℕ) → evict w now (replicate n now) ≡ replicate n now
unfolding evict
evict_recent w now zero = refl
evict_recent w now (suc n) = ground arith

replicate-snoc : (n t : ℕ) → replicate n t ++ t ∷ [] ≡ t ∷ replicate n t
replicate-snoc zero t = refl
replicate-snoc (suc n) t = ap (λ (l : List ℕ). t ∷ l) (replicate-snoc n t)

-- The same request, `n` times at once.
abbrev pub call_many : Limits → ℕ → Request → ℕ → Hits → Hits
call_many l now r zero hits = hits
call_many l now r (suc n) hits = (call l now r (call_many l now r n hits)).1

length-replicate : (n t : ℕ) → length (replicate n t) ≡ n
length-replicate zero t = refl
length-replicate (suc n) t = ap suc (length-replicate n t)

admit_recent :
    (w max now n : ℕ)
    → admit w max now (replicate n now)
      ≡ (if leb max n then (false, replicate n now) else (true, replicate (suc n) now))
unfolding admit
admit_recent w max now n = rw (evict_recent w now n, length-replicate n now, replicate-snoc n now)

call_many_hits :
    (l : Limits) (now n : ℕ) (r : Request) (key : Text) (max : ℕ)
    → bucket l r ≡ some (key, max)
    → n ≤ max
    → call_many l now r n no_hits key ≡ replicate n now
unfolding call limited
call_many_hits l now zero r key max e le = refl
call_many_hits l now (suc n) r key max e le =
    let room : leb max n ≡ false = ground arith in
    rw (
      e,
      call_many_hits l now n r key max e (omega arith),
      admit_recent l.window max now n,
      room,
      eqb_refl key,
    )

full_bucket :
    (l : Limits) (now n : ℕ) (r : Request) (key : Text) (max : ℕ) (hits : Hits)
    → bucket l r ≡ some (key, max)
    → hits key ≡ replicate n now
    → max ≤ n
    → (call l now r hits).0 ≡ false
unfolding call limited
full_bucket l now n r key max hits e full le =
    let no_room : leb max n ≡ true = ground arith in
    rw (e, full, admit_recent l.window max now n, no_room)

-- Reads and writes under /plc/ share one bucket: a client that has made as many GETs as the limit for
-- writes, and no POST at all, is refused its first POST.
pub reads_block_writes :
    (l : Limits) (now n : ℕ) (r : Request)
    → starts_with r.path (codes "/plc/") ≡ true
    → r.is_post ≡ false
    → l.write_limit ≤ n
    → n ≤ l.limit
    → (call l now (record r { is_post = true }) (call_many l now r n no_hits)).0 ≡ false
unfolding bucket
reads_block_writes l now n r plc get many few =
    let key = codes "plc:" ++ get_client_ip r in
    full_bucket l now n (record r { is_post = true }) key l.write_limit
      (call_many l now r n no_hits) (ground arith)
      (call_many_hits l now n r key l.limit (ground arith) few) many

-- A login attempt whose X-Forwarded-For header begins with the loopback address passes always, and
-- is not counted, whatever the header holds after that.
pub spoofed_login_passes :
    (l : Limits) (now : ℕ) (r : Request) (hits : Hits) (rest : Text)
    → r.path ≡ codes "/auth/login/"
    → r.forwarded_for ≡ some (codes "127.0.0.1," ++ rest)
    → call l now r hits ≡ (true, hits)
unfolding call limited bucket get_client_ip
spoofed_login_passes l now r hits rest login spoofed = rw (login, spoofed)
