-- ===== src/Times/Same/Tests.antt =====
-- An hour and a half.
use noant.Base.{ℕ, ◌≡◌, arith}
use noant.Times.{time_ago, audit_time_ago, notifications_time_ago, admin_time_ago, leads_time_ago}
use noant.Times.Same.{IsAgo, time_ago_lem}

abbrev age : ℕ
age = 5400000

time_ago_lem_test :
    IsAgo age (time_ago age)
    × (audit_time_ago age ≡ time_ago age)
    × (notifications_time_ago age ≡ time_ago age)
    × (admin_time_ago age ≡ time_ago age)
    × (leads_time_ago age ≡ time_ago age)
time_ago_lem_test = time_ago_lem age (omega arith)
