-- ===== src/RateLimit.antt =====
-- find_device/middleware.py: `RateLimitMiddleware` with `_get_client_ip`. Times are in milliseconds;
-- `get_response` is the rest of the program, so a request either passes or is answered with 429.
pub mod Window
use phone_app.Base.{
  ℕ, zero, suc, ◌+◌, ◌-◌, ◌*◌, ◌≤◌, ◌<◌, ◌≡◌, ◌≢◌, ◌⊎◌, inl, inr, refl, sym, ap, ◌∙◌, Bool, true,
  false, not, ◌&&◌, ◌||◌, Option, none, some, List, [], ◌∷◌, ◌++◌, map, arith, tests, ltb, leb,
  ◌==◌, if◌then◌else◌, Bool-cases, Option-cases, Text, codes, eqb, length,
}
use phone_app.Base.{is_in, starts_with, strip, before, is_some}

pub record Request : Type 0 where
  pub path : Text
  pub is_post : Bool
  -- `HTTP_X_FORWARDED_FOR` and `REMOTE_ADDR` in `request.META`.
  pub forwarded_for : Option Text
  pub remote_addr : Option Text

pub record Limits : Type 0 where
  pub limit : ℕ
  pub write_limit : ℕ
  pub window : ℕ

-- `_DEFAULT_LIMIT`, `_WRITE_LIMIT` and `_WINDOW_SECONDS`.
abbrev pub default_limits : Limits
default_limits = record { limit = 200; write_limit = 60; window = 60_000 }

-- `_AUTH_LIMIT`
abbrev pub auth_limit : ℕ
auth_limit = 10

-- `_AUTH_PATHS`
abbrev pub auth_paths : List Text
auth_paths = codes "/auth/login/" ∷ codes "/auth/refresh/" ∷ []

-- `_AUTH_EXEMPT_IPS`
abbrev pub auth_exempt_ips : List Text
auth_exempt_ips = codes "127.0.0.1" ∷ codes "::1" ∷ []

abbrev pub remote_or_unknown : Option Text → Text
remote_or_unknown none = codes "unknown"
remote_or_unknown (some addr) = addr

abbrev pub ip_of : Option Text → Option Text → Text
ip_of none addr = remote_or_unknown addr
ip_of (some []) addr = remote_or_unknown addr
ip_of (some (c ∷ s)) addr = strip (before b',' (c ∷ s))

-- `_get_client_ip`: the first entry of a header that is there and not empty.
unfoldable pub get_client_ip : Request → Text
get_client_ip r = ip_of r.forwarded_for r.remote_addr

-- The bucket and the limit of a request; `none` where it is not limited.
unfoldable pub bucket : Limits → Request → Option (Text × ℕ)
unfolding get_client_ip
bucket l r =
    if starts_with r.path (codes "/plc/")
    then some (codes "plc:" ++ get_client_ip r, (if r.is_post then l.write_limit else l.limit))
    else if is_in r.path auth_paths && not (is_in (get_client_ip r) auth_exempt_ips)
    then some (codes "auth:" ++ get_client_ip r, auth_limit)
    else none

-- `self._hits`, a defaultdict of deques, the oldest hit first.
abbrev pub Hits : Type 0
Hits = Text → List ℕ

abbrev pub no_hits : Hits
no_hits key = []

-- `while dq and dq[0] < cutoff: dq.popleft()` with `cutoff = now - window`.
unfoldable pub evict : ℕ → ℕ → List ℕ → List ℕ
evict window now [] = []
evict window now (t ∷ dq) = if ltb (t + window) now then evict window now dq else t ∷ dq

abbrev pub set_hits : Text → List ℕ → Hits → Hits
set_hits key dq hits k = if eqb key k then dq else hits k

-- The code under the lock: true means that the request passes.
unfoldable pub admit : ℕ → ℕ → ℕ → List ℕ → Bool × List ℕ
unfolding evict
admit window max now dq =
    let live = evict window now dq in
    if leb max (length live) then (false, live) else (true, live ++ now ∷ [])

unfoldable pub limited : Limits → ℕ → Option (Text × ℕ) → Hits → Bool × Hits
unfolding admit
limited l now none hits = (true, hits)
limited l now (some (key, max)) hits =
    let (passes, dq) = admit l.window max now (hits key) in (passes, set_hits key dq hits)

-- `RateLimitMiddleware.__call__`
unfoldable pub call : Limits → ℕ → Request → Hits → Bool × Hits
unfolding bucket limited
call l now r hits = limited l now (bucket l r) hits
