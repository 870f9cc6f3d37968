-- ===== src/AdminApi/Query.antt =====
-- What a server reads in the address of a list: the path up to the first `?`, and the pairs behind it.
mod Tests
use noant.Base.{
  ℕ, ◌==◌, Text, codes, ◌===◌, keep_if, All, All-append, Bool, true, false, not, ◌||◌, List, [],
  ◌∷◌, ◌++◌, if◌then◌else◌, ◌≡◌, ◌≢◌, refl, sym, ap, ◌∙◌, subst, arith, Bool-cases, inl, inr,
  append_assoc, append-nil, if_intro, ==_refl,
}
use noant.AdminApi.{
  Request, set_if, set_limit, with_query, users_query, get_users, logs_query, get_audit_logs,
  knowledge_query, get_knowledge_base, leads_query, get_sales_leads,
}
use noant.AdminApi.Search.{set, drop_key, pair_text, to_string}

-- The text before the first `c`, and the one behind it.
abbrev pub cut : ℕ → Text → Text × Text
cut c [] = ([], [])
cut c (d ∷ s) = let rest = cut c s in if d == c then ([], s) else (d ∷ rest.0, rest.1)

abbrev pub prepend : ℕ → List Text → List Text
prepend d [] = (d ∷ []) ∷ []
prepend d (s ∷ ss) = (d ∷ s) ∷ ss

-- The pieces of a text between one `c` and the next.
abbrev pub pieces : ℕ → Text → List Text
pieces c [] = [] ∷ []
pieces c (d ∷ s) = let rest = pieces c s in if d == c then [] ∷ rest else prepend d rest

abbrev pub Lacks : ℕ → Text → Type 0
Lacks c s = All (λ d. (d == c) ≡ false) s

abbrev includes_code : ℕ → Text → Bool
includes_code c [] = false
includes_code c (d ∷ s) = d == c || includes_code c s

-- What a text lacks can be computed.
computed-Lacks : (c : ℕ) (s : Text) → includes_code c s ≡ false → Lacks c s
computed-Lacks c [] h = tt
computed-Lacks c (d ∷ s) h = (ground arith, computed-Lacks c s (ground arith))

cut-append : (c : ℕ) (s t : Text) → Lacks c s → cut c (s ++ (c ∷ t)) ≡ (s, t)
cut-append c [] t h = ap (λ b. if b then ([], t) else (c ∷ (cut c t).0, (cut c t).1)) (==_refl c)
cut-append c (d ∷ s) t h =
    ap
      (λ b.
        if b then ([], s ++ (c ∷ t)) else (d ∷ (cut c (s ++ (c ∷ t))).0, (cut c (s ++ (c ∷ t))).1))
      h.0
    ∙ ap (λ p. (d ∷ p.0, p.1)) (cut-append c s t h.1)

cut_lem : (c : ℕ) (s : Text) → Lacks c s → cut c s ≡ (s, [])
cut_lem c [] h = refl
cut_lem c (d ∷ s) h =
    ap (λ b. if b then ([], s) else (d ∷ (cut c s).0, (cut c s).1)) h.0
    ∙ ap (λ p. (d ∷ p.0, p.1)) (cut_lem c s h.1)

pieces-append : (c : ℕ) (s t : Text) → Lacks c s → pieces c (s ++ (c ∷ t)) ≡ s ∷ pieces c t
pieces-append c [] t h = ap (λ b. if b then [] ∷ pieces c t else prepend c (pieces c t)) (==_refl c)
pieces-append c (d ∷ s) t h =
    ap (λ b. if b then [] ∷ pieces c (s ++ (c ∷ t)) else prepend d (pieces c (s ++ (c ∷ t)))) h.0
    ∙ ap (prepend d) (pieces-append c s t h.1)

pieces_lem : (c : ℕ) (s : Text) → Lacks c s → pieces c s ≡ s ∷ []
pieces_lem c [] h = refl
pieces_lem c (d ∷ s) h =
    ap (λ b. if b then [] ∷ pieces c s else prepend d (pieces c s)) h.0
    ∙ ap (prepend d) (pieces_lem c s h.1)

abbrev pub equals_sign : ℕ
equals_sign = 61

abbrev pub ampersand : ℕ
ampersand = 38

abbrev pub question_mark : ℕ
question_mark = 63

module _ (decode : Text → Text) where
  abbrev pub read_pair : Text → Text × Text
  read_pair s = let p = cut equals_sign s in (decode p.0, decode p.1)

  abbrev pub read_pairs : List Text → List (Text × Text)
  read_pairs [] = []
  read_pairs (s ∷ ss) = read_pair s ∷ read_pairs ss

  abbrev pub read_query : Text → List (Text × Text)
  read_query [] = []
  read_query (c ∷ s) = read_pairs (pieces ampersand (c ∷ s))

  -- The path of an address, and the pairs of its query.
  abbrev pub read : Text → Text × List (Text × Text)
  read address = let p = cut question_mark address in (p.0, read_query p.1)

-- The pairs with a value.
abbrev pub given : List (Text × Text) → List (Text × Text)
given ps = keep_if (λ p. not (p.1 === [])) ps

-- An encoding that can be undone and whose texts have no mark of a query.
pub record IsEncoding (encode decode : Text → Text) : Type 0 where
  pub undone : (s : Text) → decode (encode s) ≡ s
  pub no_equals_sign : (s : Text) → Lacks equals_sign (encode s)
  pub no_ampersand : (s : Text) → Lacks ampersand (encode s)

-- No pair has the key.
abbrev pub IsNew : Text → List (Text × Text) → Type 0
IsNew key ps = All (λ p. (p.0 === key) ≡ false) ps

set-given :
    (key value : Text) (ps : List (Text × Text))
    → IsNew key ps
    → (value === []) ≡ false
    → set key value (given ps) ≡ given (ps ++ ((key, value) ∷ []))
set-given key value [] n h = ap (λ b. if not b then (key, value) ∷ [] else []) (sym h)
set-given key value (p ∷ ps) n h = elim (Bool-cases (p.1 === [])) [
  | inl e ↦
      ap (λ b. set key value (if not b then p ∷ given ps else given ps)) e
      ∙ set-given key value ps n.1 h
      ∙ ap
          (λ b.
            if not b
            then p ∷ given (ps ++ ((key, value) ∷ []))
            else given (ps ++ ((key, value) ∷ [])))
          (sym e)
  | inr e ↦
      ap (λ b. set key value (if not b then p ∷ given ps else given ps)) e
      ∙ ap (λ b. if b then (key, value) ∷ drop_key key (given ps) else p ∷ set key value (given ps))
          n.0
      ∙ ap (λ qs. p ∷ qs) (set-given key value ps n.1 h)
      ∙ ap
          (λ b.
            if not b
            then p ∷ given (ps ++ ((key, value) ∷ []))
            else given (ps ++ ((key, value) ∷ [])))
          (sym e)
]

given-append_empty :
    (key : Text) (ps : List (Text × Text)) → given (ps ++ ((key, []) ∷ [])) ≡ given ps
given-append_empty key [] = refl
given-append_empty key (p ∷ ps) = ground (arith, given-append_empty key ps)

set_if-given :
    (key value : Text) (ps : List (Text × Text))
    → IsNew key ps
    → set_if key value (given ps) ≡ given (ps ++ ((key, value) ∷ []))
set_if-given key [] ps n = sym (given-append_empty key ps)
set_if-given key (c ∷ value) ps n = set-given key (c ∷ value) ps n refl

set_limit-eq-set_if :
    (to_text : ℕ → Text) (limit : ℕ) (query : List (Text × Text))
    → (to_text limit === []) ≡ false
    → set_limit to_text limit query
      ≡ set_if (codes "limit") (if limit == 0 then [] else to_text limit) query
set_limit-eq-set_if to_text limit query h = ground arith

two :
    (k l v w : Text) → (k === l) ≡ false → set_if l w (set_if k v []) ≡ given ((k, v) ∷ (l, w) ∷ [])
two k l v w h = ap (set_if l w) (set_if-given k v [] tt) ∙ set_if-given l w ((k, v) ∷ []) (h, tt)

three :
    (k l m v w x : Text)
    → (k === l) ≡ false
    → (k === m) ≡ false
    → (l === m) ≡ false
    → set_if m x (set_if l w (set_if k v [])) ≡ given ((k, v) ∷ (l, w) ∷ (m, x) ∷ [])
three k l m v w x h i j =
    ap (set_if m x) (two k l v w h) ∙ set_if-given m x ((k, v) ∷ (l, w) ∷ []) (i, (j, tt))

read_query_lem :
    (decode : Text → Text) (s : Text)
    → (s === []) ≡ false
    → read_query decode s ≡ read_pairs decode (pieces ampersand s)
read_query_lem decode [] h = ground arith
read_query_lem decode (c ∷ s) h = refl

===-append : (s : Text) (c : ℕ) (t : Text) → ((s ++ (c ∷ t)) === []) ≡ false
===-append [] c t = refl
===-append (d ∷ s) c t = refl

module _ (encode decode : Text → Text) (e : IsEncoding encode decode) where
  read_pair-pair_text : (p : Text × Text) → read_pair decode (pair_text encode p) ≡ p
  read_pair-pair_text p =
      ap (λ c. (decode c.0, decode c.1))
        (cut-append equals_sign (encode p.0) (encode p.1) (e.no_equals_sign p.0))
      ∙ ap (λ k. (k, decode (encode p.1))) (e.undone p.0)
      ∙ ap (λ v. (p.0, v)) (e.undone p.1)

  pair_text-Lacks : (p : Text × Text) → Lacks ampersand (pair_text encode p)
  pair_text-Lacks p =
      All-append (λ d. (d == ampersand) ≡ false) (encode p.0) (codes "=" ++ encode p.1)
        (e.no_ampersand p.0) (refl, e.no_ampersand p.1)

  read_pairs-to_string :
      (p : Text × Text) (ps : List (Text × Text))
      → read_pairs decode (pieces ampersand (to_string encode (p ∷ ps))) ≡ p ∷ ps
  read_pairs-to_string p [] =
      ap (read_pairs decode) (pieces_lem ampersand (pair_text encode p) (pair_text-Lacks p))
      ∙ ap (λ q. q ∷ []) (read_pair-pair_text p)
  read_pairs-to_string p (q ∷ ps) =
      ap (read_pairs decode) (
        pieces-append ampersand (pair_text encode p) (to_string encode (q ∷ ps))
          (pair_text-Lacks p))
      ∙ ap (λ k. k ∷ read_pairs decode (pieces ampersand (to_string encode (q ∷ ps))))
          (read_pair-pair_text p)
      ∙ ap (λ l. p ∷ l) (read_pairs-to_string q ps)

  to_string-neq-nil :
      (p : Text × Text) (ps : List (Text × Text)) → (to_string encode (p ∷ ps) === []) ≡ false
  to_string-neq-nil p [] = ===-append (encode p.0) equals_sign (encode p.1)
  to_string-neq-nil p (q ∷ ps) =
      ===-append (pair_text encode p) ampersand (to_string encode (q ∷ ps))

  read_query-to_string : (ps : List (Text × Text)) → read_query decode (to_string encode ps) ≡ ps
  read_query-to_string [] = refl
  read_query-to_string (p ∷ ps) =
      read_query_lem decode (to_string encode (p ∷ ps)) (to_string-neq-nil p ps)
      ∙ read_pairs-to_string p ps

  pub read-with_query :
      (path : Text) (ps : List (Text × Text))
      → Lacks question_mark path
      → read decode (with_query encode path ps) ≡ (path, ps)
  unfolding with_query
  read-with_query path [] h = ap (λ p. (p.0, read_query decode p.1)) (cut_lem question_mark path h)
  read-with_query path (p ∷ ps) h =
      let qs = to_string encode (p ∷ ps) in
      ap (λ b. read decode (if b then path else path ++ (codes "?" ++ qs))) (to_string-neq-nil p ps)
      ∙ ap (λ c. (c.0, read_query decode c.1)) (cut-append question_mark path qs h)
      ∙ ap (λ l. (path, l)) (read_query-to_string (p ∷ ps))

  -- A server that reads the address of a list as a query finds its path and the parameters that are
  -- given, each with its value and in their order, and no other; a limit of 0 is not given. The encoding
  -- can be undone, and its texts have no mark of a query.
  pub read-lists :
      (to_text : ℕ → Text) (search plan action user_id status : Text) (limit : ℕ)
      → (to_text limit === []) ≡ false
      → let bound = if limit == 0 then [] else to_text limit in
        (read decode (get_users encode search plan).path ≡ (
          codes "/api/v1/admin/users",
          given ((codes "search", search) ∷ (codes "plan", plan) ∷ []),
        ))
        × (read decode (get_audit_logs encode to_text search action user_id limit).path ≡ (
          codes "/api/v1/admin/audit-logs",
          given (
              (codes "search", search)
              ∷ (codes "action", action)
              ∷ (codes "user_id", user_id)
              ∷ (codes "limit", bound)
              ∷ []),
        ))
        × (read decode (get_knowledge_base encode to_text status search limit).path ≡ (
          codes "/api/v1/admin/knowledge-base",
          given ((codes "status", status) ∷ (codes "search", search) ∷ (codes "limit", bound) ∷ []),
        ))
        × (read decode (get_sales_leads encode status).path
            ≡ (codes "/api/v1/admin/sales-leads", given ((codes "status", status) ∷ [])))
  unfolding get_users users_query get_audit_logs logs_query get_knowledge_base knowledge_query
      get_sales_leads leads_query
  read-lists to_text search plan action user_id status limit h =
      let bound = if limit == 0 then [] else to_text limit in
      (
        read-with_query (codes "/api/v1/admin/users") _
              (computed-Lacks question_mark (codes "/api/v1/admin/users") refl)
            ∙ ap (λ q. (codes "/api/v1/admin/users", q))
                (two (codes "search") (codes "plan") search plan refl),
        read-with_query (codes "/api/v1/admin/audit-logs") _
              (computed-Lacks question_mark (codes "/api/v1/admin/audit-logs") refl)
            ∙ ap (λ q. (codes "/api/v1/admin/audit-logs", q))
                (set_limit-eq-set_if to_text limit _ h
                  ∙ ap (set_if (codes "limit") bound) (
                      three (codes "search") (codes "action") (codes "user_id") search action
                        user_id refl refl refl)
                  ∙ set_if-given (codes "limit") bound
                      ((codes "search", search)
                        ∷ (codes "action", action)
                        ∷ (codes "user_id", user_id)
                        ∷ [])
                      (refl, (refl, (refl, tt)))),
        read-with_query (codes "/api/v1/admin/knowledge-base") _
              (computed-Lacks question_mark (codes "/api/v1/admin/knowledge-base") refl)
            ∙ ap (λ q. (codes "/api/v1/admin/knowledge-base", q))
                (set_limit-eq-set_if to_text limit _ h
                  ∙ three (codes "status") (codes "search") (codes "limit") status search bound refl
                      refl refl),
        read-with_query (codes "/api/v1/admin/sales-leads") _
              (computed-Lacks question_mark (codes "/api/v1/admin/sales-leads") refl)
            ∙ ap (λ q. (codes "/api/v1/admin/sales-leads", q))
                (set_if-given (codes "status") status [] tt),
      )
