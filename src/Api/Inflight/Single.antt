-- ===== src/Api/Inflight/Single.antt =====
-- At most one GET of an address is under way.
mod Tests
use noant.Base.{
  ℕ, ◌+◌, ◌==◌, Text, ◌===◌, ===_iff, ===_refl, Bool, true, false, Bool-cases, inl, inr, Option,
  none, some, List, [], ◌∷◌, if◌then◌else◌, if_intro, ◌≡◌, refl, sym, ap, ◌∙◌, subst, arith,
}
use noant.Api.Inflight.{
  Promises, Pool, get_promise, delete_key, shared, request, address_of, without, finally_at, settle,
  Event, called, settled, step, run, empty,
}

abbrev pub Absent : Text → Promises → Type 0
Absent key [] = Unit
Absent key ((k, p) ∷ l) = ((k === key) ≡ false) × Absent key l

abbrev pub IsDistinct : Promises → Type 0
IsDistinct [] = Unit
IsDistinct ((k, p) ∷ l) = Absent k l × IsDistinct l

-- The map has just the promises that are not settled, and those have different addresses.
pub record IsValid (s : Pool) : Type 0 where
  pub agree : s.inflight_requests ≡ s.pending
  pub single : IsDistinct s.pending

get_promise-Absent : (key : Text) (l : Promises) → get_promise key l ≡ none → Absent key l
unfolding get_promise
get_promise-Absent key [] e = tt
get_promise-Absent key ((k, p) ∷ l) e = elim (Bool-cases (k === key)) [
  | inl h ↦ cc (e, ap (λ b. if b then some p else get_promise key l) h)
  | inr h ↦
      (h, get_promise-Absent key l (sym (ap (λ b. if b then some p else get_promise key l) h) ∙ e))
]

Absent-without : (key : Text) (p : ℕ) (l : Promises) → Absent key l → Absent key (without p l)
unfolding without
Absent-without key p [] a = tt
Absent-without key p ((k, q) ∷ l) a =
    if_intro (Absent key) (q == p) l ((k, q) ∷ without p l) (λ _. a.1)
      (λ _. (a.0, Absent-without key p l a.1))

IsDistinct-without : (p : ℕ) (l : Promises) → IsDistinct l → IsDistinct (without p l)
unfolding without
IsDistinct-without p [] d = tt
IsDistinct-without p ((k, q) ∷ l) d =
    if_intro IsDistinct (q == p) l ((k, q) ∷ without p l) (λ _. d.1)
      (λ _. (Absent-without k p l d.0, IsDistinct-without p l d.1))

-- The address of a promise of the list is none that is absent from it.
address_of-Absent :
    (j k : Text) (p : ℕ) (l : Promises) → Absent j l → address_of p l ≡ some k → (j === k) ≡ false
unfolding address_of
address_of-Absent j k p [] a e = cc
address_of-Absent j k p ((i, q) ∷ l) a e =
    ground (arith, address_of-Absent j k p l, ===_iff i j, ===_iff j k)

delete_key_of_address :
    (k : Text) (p : ℕ) (l : Promises)
    → IsDistinct l
    → address_of p l ≡ some k
    → delete_key k l ≡ without p l
unfolding address_of delete_key without
delete_key_of_address k p [] d e = refl
delete_key_of_address k p ((j, q) ∷ l) d e =
    ground (arith, delete_key_of_address k p l, address_of-Absent j k p l, ===_iff j k)

shared-IsValid :
    (endpoint : Text) (o : Option ℕ) (s : Pool)
    → get_promise endpoint s.inflight_requests ≡ o
    → IsValid s
    → IsValid (shared endpoint o s).1
unfolding shared
shared-IsValid endpoint (some p) s e v = v
shared-IsValid endpoint none s e v = record {
  agree = ap (λ l. (endpoint, s.next) ∷ l) v.agree;
  single = (
    subst (Absent endpoint) v.agree (get_promise-Absent endpoint s.inflight_requests e),
    v.single,
  );
}

finally-IsValid :
    (o : Option Text) (p : ℕ) (s : Pool)
    → address_of p s.pending ≡ o
    → IsValid s
    → IsValid (finally_at o p s)
unfolding finally_at
finally-IsValid none p s e v = v
finally-IsValid (some k) p s e v = record {
  agree = ap (delete_key k) v.agree ∙ delete_key_of_address k p s.pending v.single e;
  single = IsDistinct-without p s.pending v.single;
}

step-IsValid : (e : Event) (s : Pool) → IsValid s → IsValid (step e s)
unfolding step request settle
step-IsValid (called true endpoint) s v = shared-IsValid endpoint _ s refl v
step-IsValid (called false endpoint) s v = record { agree = v.agree; single = v.single }
step-IsValid (settled p) s v = finally-IsValid _ p s refl v

run_from-IsValid : (es : List Event) (s : Pool) → IsValid s → IsValid (run es s)
unfolding run
run_from-IsValid [] s v = v
run_from-IsValid (e ∷ es) s v = run_from-IsValid es (step e s) (step-IsValid e s v)

-- After any sequence of calls and settled promises the GET requests under way are just those of
-- the map, and no two of them have the same address.
pub run-empty-IsValid : (es : List Event) → IsValid (run es empty)
run-empty-IsValid es = run_from-IsValid es empty (record { agree = refl; single = tt })
