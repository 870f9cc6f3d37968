-- ===== src/AdminApi/Query/Tests.antt =====
-- An encoding that moves the codes behind the marks.
use noant.Base.{ℕ, ◌+◌, ◌-◌, ◌==◌, Text, codes, false, [], ◌∷◌, ◌≡◌, refl, arith}
use noant.AdminApi.{get_users, get_audit_logs, get_knowledge_base, get_sales_leads}
use noant.AdminApi.Query.{read, Lacks, IsEncoding, read-lists}

abbrev encode : Text → Text
encode [] = []
encode (c ∷ s) = (c + 64) ∷ encode s

abbrev decode : Text → Text
decode [] = []
decode (c ∷ s) = (c - 64) ∷ decode s

decode-encode : (s : Text) → decode (encode s) ≡ s
decode-encode [] = refl
decode-encode (c ∷ s) = ground (arith, decode-encode s)

encode-Lacks : (c : ℕ) (s : Text) → (b : (d : ℕ) → (d + 64 == c) ≡ false) → Lacks c (encode s)
encode-Lacks c [] b = tt
encode-Lacks c (d ∷ s) b = (b d, encode-Lacks c s b)

encode-IsEncoding : IsEncoding encode decode
encode-IsEncoding = record {
  undone = decode-encode;
  no_equals_sign = λ s. encode-Lacks 61 s (λ d. ground arith);
  no_ampersand = λ s. encode-Lacks 38 s (λ d. ground arith);
}

-- Numbers of one digit.
abbrev digit : ℕ → Text
digit n = (48 + n) ∷ []

read-lists_example :
    (read decode (get_users encode (codes "a&b") []).path
      ≡ (codes "/api/v1/admin/users", (codes "search", codes "a&b") ∷ []))
    × (read decode (get_audit_logs encode digit (codes "a&b") [] (codes "u1") 5).path ≡ (
      codes "/api/v1/admin/audit-logs",
      (codes "search", codes "a&b")
          ∷ (codes "user_id", codes "u1")
          ∷ (codes "limit", codes "5")
          ∷ [],
    ))
    × (read decode (get_knowledge_base encode digit (codes "open") (codes "a&b") 5).path ≡ (
      codes "/api/v1/admin/knowledge-base",
      (codes "status", codes "open")
          ∷ (codes "search", codes "a&b")
          ∷ (codes "limit", codes "5")
          ∷ [],
    ))
    × (read decode (get_sales_leads encode (codes "open")).path
        ≡ (codes "/api/v1/admin/sales-leads", (codes "status", codes "open") ∷ []))
read-lists_example =
    read-lists encode decode encode-IsEncoding digit (codes "a&b") [] [] (codes "u1") (codes "open")
      5 refl
