-- ===== src/Times.antt =====
-- The five functions timeAgo: frontend/src/lib/utils.ts, frontend/src/components/settings/AuditLogTab.tsx,
-- frontend/src/app/(dashboard)/notifications/page.tsx, frontend/src/app/(dashboard)/leads/page.tsx and
-- admin/src/lib/utils.ts. They take the milliseconds since the time that is shown; for a time to come
-- these are 0 here, and negative there, with the same result.
pub mod Same
use noant.Base.{ℕ, ◌+◌, ◌*◌, ◌/◌, ltb, Bool, true, false, if◌then◌else◌}

-- The text that is shown; `date` is that of `toLocaleDateString`.
pub data Ago : Type 0 where
  just_now date : Ago
  minutes hours days : ℕ → Ago

pub time_ago : ℕ → Ago
time_ago ms =
    let seconds = ms / 1000 in
    let m = seconds / 60 in
    let h = m / 60 in
    let d = h / 24 in
    if ltb seconds 60
    then just_now
    else if ltb m 60
    then minutes m
    else if ltb h 24
    then hours h
    else if ltb d 30
    then days d
    else date

pub audit_time_ago : ℕ → Ago
audit_time_ago diff =
    let m = diff / 60000 in
    let h = m / 60 in
    let d = h / 24 in
    if ltb m 1
    then just_now
    else if ltb m 60
    then minutes m
    else if ltb h 24
    then hours h
    else if ltb d 30
    then days d
    else date

pub notifications_time_ago : ℕ → Ago
notifications_time_ago diff =
    let m = diff / 60000 in
    let h = m / 60 in
    if ltb m 1
    then just_now
    else if ltb m 60
    then minutes m
    else if ltb h 24
    then hours h
    else days (h / 24)

pub admin_time_ago : ℕ → Ago
admin_time_ago ms =
    let seconds = ms / 1000 in
    if ltb seconds 60
    then just_now
    else if ltb seconds 3600
    then minutes (seconds / 60)
    else if ltb seconds 86400
    then hours (seconds / 3600)
    else days (seconds / 86400)

pub leads_time_ago : ℕ → Ago
leads_time_ago ms =
    let diff = ms / 1000 in
    if ltb diff 60
    then just_now
    else if ltb diff 3600
    then minutes (diff / 60)
    else if ltb diff 86400
    then hours (diff / 3600)
    else days (diff / 86400)
