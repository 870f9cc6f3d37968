-- ===== src/Times/Same.antt =====
-- The functions show the same.
mod Tests
use noant.Base.{
  ℕ, zero, suc, ◌+◌, ◌*◌, ◌/◌, ◌≤◌, ◌<◌, ltb, Bool, true, false, ◌≡◌, refl, ◌∙◌, arith, if_intro,
  if◌then◌else◌,
}
use noant.Times.{
  Ago, just_now, date, minutes, hours, days, time_ago, audit_time_ago, notifications_time_ago,
  admin_time_ago, leads_time_ago,
}

-- What an age in milliseconds comes to, by its bounds.
abbrev pub IsAgo : ℕ → Ago → Type 0
IsAgo ms just_now = ms < 60000
IsAgo ms (minutes n) = (n * 60000 ≤ ms) × (ms < (n + 1) * 60000) × (1 ≤ n) × (n < 60)
IsAgo ms (hours n) = (n * 3600000 ≤ ms) × (ms < (n + 1) * 3600000) × (1 ≤ n) × (n < 24)
IsAgo ms (days n) = (n * 86400000 ≤ ms) × (ms < (n + 1) * 86400000) × (1 ≤ n) × (n < 30)
IsAgo ms date = 30 * 86400000 ≤ ms

audit_lem : (ms : ℕ) → audit_time_ago ms ≡ time_ago ms
unfolding audit_time_ago time_ago
audit_lem ms = ground arith

notifications_lem : (ms : ℕ) → ms < 30 * 86400000 → notifications_time_ago ms ≡ time_ago ms
unfolding notifications_time_ago time_ago
notifications_lem ms h = ground arith

admin_lem : (ms : ℕ) → ms < 30 * 86400000 → admin_time_ago ms ≡ time_ago ms
unfolding admin_time_ago time_ago
admin_lem ms h =
    let a : ms / 1000 / 60 ≡ ms / 60000 = omega arith in
    let b : ms / 1000 / 3600 ≡ ms / 1000 / 60 / 60 = omega arith in
    let c : ms / 1000 / 86400 ≡ ms / 1000 / 60 / 60 / 24 = omega arith in ground arith

leads_lem : (ms : ℕ) → leads_time_ago ms ≡ admin_time_ago ms
unfolding leads_time_ago admin_time_ago
leads_lem ms = refl

time_ago-IsAgo : (ms : ℕ) → IsAgo ms (time_ago ms)
unfolding time_ago
time_ago-IsAgo ms =
    let m = ms / 1000 / 60 in
    let h = m / 60 in
    let d = h / 24 in
    if_intro (λ a. IsAgo ms a) (ltb (ms / 1000) 60) just_now
      (if ltb m 60
        then minutes m
        else if ltb h 24
        then hours h
        else if ltb d 30
        then days d
        else date)
      (λ e. ground arith)
      (λ e.
        if_intro (λ a. IsAgo ms a) (ltb m 60) (minutes m)
          (if ltb h 24 then hours h else if ltb d 30 then days d else date) (λ f. ground arith)
          (λ f.
            if_intro (λ a. IsAgo ms a) (ltb h 24) (hours h) (if ltb d 30 then days d else date)
              (λ g. ground arith)
              (λ g.
                if_intro (λ a. IsAgo ms a) (ltb d 30) (days d) date (λ k. ground arith)
                  (λ k. ground arith))))

-- For an age below thirty days all five functions show the same: the whole minutes, hours or days of
-- the age in the largest unit that it fills, and `just now` below a minute.
pub time_ago_lem :
    (ms : ℕ)
    → ms < 30 * 86400000
    → IsAgo ms (time_ago ms)
      × (audit_time_ago ms ≡ time_ago ms)
      × (notifications_time_ago ms ≡ time_ago ms)
      × (admin_time_ago ms ≡ time_ago ms)
      × (leads_time_ago ms ≡ time_ago ms)
time_ago_lem ms h = (
  time_ago-IsAgo ms,
  audit_lem ms,
  notifications_lem ms h,
  admin_lem ms h,
  leads_lem ms ∙ admin_lem ms h,
)
