-- ===== src/Api/Refresh.antt =====
-- Requests at the same time that meet a 401 in `doRequest` of frontend/src/lib/api.ts: the module's
-- `isRefreshing` and `refreshPromise`, with a step between any two `await`s.
pub mod Sharing
use noant.Base.{ℕ, ◌+◌, ◌==◌, Bool, true, false, Option, none, some, List, [], ◌∷◌, if◌then◌else◌}

-- Where a request stands: before its answer; at `await import('./auth')`; at `await refreshPromise`,
-- with the promise that it read there (`none` is null); and behind it, sent again or ended.
pub data Phase : Type 0 where
  pending importing : Phase
  waiting retried expired : Option ℕ → Phase

-- The calls of `refreshToken` are numbered in their order. A call may send nothing and give null at
-- once, after a refresh that failed: what a call gives is an argument.
pub record Module : Type 0 where
  pub is_refreshing : Bool
  pub refresh_promise : Option ℕ
  pub refreshes : ℕ
  pub phase : ℕ → Phase

abbrev pub update : (ℕ → Phase) → ℕ → Phase → ℕ → Phase
update f i p j = if i == j then p else f j

-- `if (!isRefreshing) { isRefreshing = true; … await import … }`, else `await refreshPromise`
enter : ℕ → Module → Module
enter i m =
    if m.is_refreshing
    then record m { phase = update m.phase i (waiting m.refresh_promise) }
    else record m { is_refreshing = true; phase = update m.phase i importing }

-- A 401 arrives.
unauthorized_at : Phase → ℕ → Module → Module
unauthorized_at pending i m = enter i m
unauthorized_at _ i m = m

pub unauthorized : ℕ → Module → Module
unfolding unauthorized_at enter
unauthorized i m = unauthorized_at (m.phase i) i m

-- `refreshPromise = refreshToken()`, then `await refreshPromise`
imported_at : Phase → ℕ → Module → Module
imported_at importing i m = record m {
  refresh_promise = some m.refreshes;
  refreshes = m.refreshes + 1;
  phase = update m.phase i (waiting (some m.refreshes));
}
imported_at _ i m = m

pub imported : ℕ → Module → Module
unfolding imported_at
imported i m = imported_at (m.phase i) i m

-- Whether the promise gave a string; `null` does not.
abbrev pub gives : (ℕ → Bool) → Option ℕ → Bool
gives outcome none = false
gives outcome (some p) = outcome p

-- `isRefreshing = false; refreshPromise = null; if (refreshed) …`
resumed_at : (ℕ → Bool) → Phase → ℕ → Module → Module
resumed_at outcome (waiting p) i m = record m {
  is_refreshing = false;
  refresh_promise = none;
  phase = update m.phase i (if gives outcome p then retried p else expired p);
}
resumed_at outcome _ i m = m

pub resumed : (ℕ → Bool) → ℕ → Module → Module
unfolding resumed_at
resumed outcome i m = resumed_at outcome (m.phase i) i m
