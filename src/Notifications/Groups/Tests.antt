-- ===== src/Notifications/Groups/Tests.antt =====
-- Three notifications of two days, one of them read.
use noant.Base.{Text, codes, true, false, List, [], ◌∷◌, ◌≡◌}
use noant.Notifications.{Notification, unread, group_by_date, filtered}
use noant.Notifications.Groups.{group_at, group_at-group_by_date}

abbrev on : Text → Notification
on day = record { id = []; link = []; is_read = false; created_at = day }

abbrev notifications : List Notification
notifications =
    on (codes "Mon") ∷ on (codes "Sun") ∷ record (on (codes "Mon")) { is_read = true } ∷ []

group_at-group_by_date_example :
    group_at
      (codes "Yesterday")
      (group_by_date (λ d. d) (λ d. d) (codes "Mon") (codes "Sun") (filtered unread notifications))
    ≡ on (codes "Sun") ∷ []
unfolding filtered group_by_date
group_at-group_by_date_example =
    group_at-group_by_date (λ d. d) (λ d. d) (codes "Mon") (codes "Sun") (codes "Yesterday") unread
      notifications
