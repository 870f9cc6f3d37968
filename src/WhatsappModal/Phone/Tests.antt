-- ===== src/WhatsappModal/Phone/Tests.antt =====
-- A number with blanks and brackets.
use noant.Base.{codes, ◌===◌, [], ◌≡◌}
use noant.WhatsappModal.{cleaned, validate_phone}
use noant.WhatsappModal.Phone.{is_accepted, validate_phone_lem}

validate_phone_lem_example :
    (validate_phone (codes "+44 (7700) 900-123") === [])
    ≡ is_accepted (cleaned (codes "+44 (7700) 900-123"))
validate_phone_lem_example = validate_phone_lem (codes "+44 (7700) 900-123")
