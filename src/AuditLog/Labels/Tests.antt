-- ===== src/AuditLog/Labels/Tests.antt =====
-- A login to an account that is locked.
use noant.Base.{Text, codes, ◌≡◌, refl}
use noant.AuditLog.{get_action_info, get_action_color}
use noant.AuditLog.Labels.{failed_info, get_action_info-failed}

abbrev locked : Text
locked = codes "user.login.failed.account_locked"

get_action_info-failed_test :
    (get_action_info locked ≡ failed_info locked) × (get_action_color locked ≡ codes "text-success")
get_action_info-failed_test = get_action_info-failed (codes ".account_locked") locked refl
