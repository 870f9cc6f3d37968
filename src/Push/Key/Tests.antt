-- ===== src/Push/Key/Tests.antt =====
-- A key of three letters.
use noant.Base.{codes}
use noant.Push.{url_base64}
use noant.Push.Key.{IsPadded, url_base64-IsPadded}

url_base64-IsPadded_test : IsPadded (url_base64 (codes "a-_"))
url_base64-IsPadded_test = url_base64-IsPadded (codes "a-_")
