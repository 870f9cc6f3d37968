-- ===== src/Api/Stream/Chunks.antt =====
-- The calls of the callbacks do not depend on how the network divides the body, and end once.
mod Tests
use noant.Base.{
  ℕ, Text, Bool, true, false, not, Bool-cases, Option, none, some, List, [], ◌∷◌, ◌++◌, ◌≡◌, ◌≢◌,
  refl, sym, ◌∙◌, ap, arith, ◌⊎◌, inl, inr, if◌then◌else◌, append_assoc, append-nil,
}
use noant.Json.{Value}
use noant.Api.Stream.{
  Event, chunk, done, error, Ending, finished, aborted, failed, Response, cancelled, refused,
  not_ok, not_ok_events, error_of, bodyless, body, Scan, scan, Step, continue, emit, finish, fail,
  follow, read_line, terminal, pump, stream_post, pop, split,
}
use noant.Api.Stream.Lines.{cut, cut-append, cut-rest}

-- `reads.join('')`
abbrev pub concat : List Text → Text
concat [] = []
concat (r ∷ rs) = r ++ concat rs

-- A scan, and the calls that follow if it did not stop.
abbrev pub close : Scan → List Event → List Event
close s es = if s.stopped then s.events else s.events ++ es

-- A scan, and another one if the first did not stop.
abbrev then_scan : Scan → Scan → Scan
then_scan s t =
    if s.stopped then s else record { events = s.events ++ t.events; stopped = t.stopped }

follow-then_scan :
    (step : Step) (s t : Scan) → follow step (then_scan s t) ≡ then_scan (follow step s) t
follow-then_scan continue s t = refl
follow-then_scan (emit text) s t = ground arith
follow-then_scan (finish meta) s t = refl
follow-then_scan (fail f) s t = refl

close-then_scan : (s t : Scan) (es : List Event) → close (then_scan s t) es ≡ close s (close t es)
close-then_scan s t es = ground (arith, append_assoc s.events t.events es)

module _ (parse : Text → Option Value) where
  -- The calls for a whole body.
  abbrev all_at_once : Text → Ending → List Event
  all_at_once t ending = close (scan parse (cut t).0) (terminal parse ending)

  scan-append :
      (xs ys : List Text) → scan parse (xs ++ ys) ≡ then_scan (scan parse xs) (scan parse ys)
  unfolding scan
  scan-append [] ys = refl
  scan-append (x ∷ xs) ys =
      rw (scan-append xs ys) (follow-then_scan (read_line parse x) (scan parse xs) (scan parse ys))

  pump-eq-all_at_once :
      (buffer : Text) (reads : List Text) (ending : Ending)
      → (cut buffer).0 ≡ []
      → pump parse buffer reads ending ≡ all_at_once (buffer ++ concat reads) ending
  unfolding pump scan
  pump-eq-all_at_once buffer [] ending h = rw (append-nil buffer, h)
  pump-eq-all_at_once buffer (r ∷ rs) ending h =
      let p = cut (buffer ++ r) in
      let ih = pump-eq-all_at_once p.1 rs ending (cut-rest (buffer ++ r)) in
      rw
        (
          ih,
          sym (append_assoc buffer r (concat rs)),
          cut-append (buffer ++ r) (concat rs),
          scan-append p.0,
        )
        (sym (
          close-then_scan (scan parse p.0) (scan parse (cut (p.1 ++ concat rs)).0)
            (terminal parse ending)))

pub stream_post-eq-close :
    (parse : Text → Option Value) (reads : List Text) (ending : Ending)
    → stream_post parse (body reads ending)
      ≡ close (scan parse (cut (concat reads)).0) (terminal parse ending)
unfolding stream_post split pop
stream_post-eq-close parse reads ending = pump-eq-all_at_once parse [] reads ending refl

-- Two divisions of the same body make the same calls, in the same order.
pub stream_post_of_concat :
    (parse : Text → Option Value) (reads reads' : List Text) (ending : Ending)
    → concat reads ≡ concat reads'
    → stream_post parse (body reads ending) ≡ stream_post parse (body reads' ending)
unfolding stream_post split pop
stream_post_of_concat parse reads reads' ending h =
    pump-eq-all_at_once parse [] reads ending refl
    ∙ ap (λ t. all_at_once parse t ending) h
    ∙ sym (pump-eq-all_at_once parse [] reads' ending refl)

-- One last call of `onDone` or `onError`, and before it none but `onChunk`.
abbrev pub EndsOnce : List Event → Type 0
EndsOnce [] = ⊥
EndsOnce (chunk text ∷ es) = EndsOnce es
EndsOnce (e ∷ []) = Unit
EndsOnce (e ∷ _ ∷ _) = ⊥

-- Only calls of `onChunk`.
abbrev pub IsOpen : List Event → Type 0
IsOpen [] = Unit
IsOpen (chunk text ∷ es) = IsOpen es
IsOpen (e ∷ es) = ⊥

abbrev Ended : Scan → Type 0
Ended s = if s.stopped then EndsOnce s.events else IsOpen s.events

EndsOnce-append :
    (es : List Event) (fs : List Event) → IsOpen es → EndsOnce fs → EndsOnce (es ++ fs)
EndsOnce-append [] fs h k = k
EndsOnce-append (chunk text ∷ es) fs h k = EndsOnce-append es fs h k
EndsOnce-append (done v ∷ es) fs h k = elim h [ ]
EndsOnce-append (error f ∷ es) fs h k = elim h [ ]

IsOpen-append : (es : List Event) (fs : List Event) → IsOpen es → IsOpen fs → IsOpen (es ++ fs)
IsOpen-append [] fs h k = k
IsOpen-append (chunk text ∷ es) fs h k = IsOpen-append es fs h k
IsOpen-append (done v ∷ es) fs h k = elim h [ ]
IsOpen-append (error f ∷ es) fs h k = elim h [ ]

Ended-emit :
    (b : Bool) (text : Text) (es : List Event)
    → Ended (record { events = es; stopped = b })
    → Ended (record { events = chunk text ∷ es; stopped = b })
Ended-emit true text es e = e
Ended-emit false text es e = e

Ended-follow : (step : Step) (s : Scan) → Ended s → Ended (follow step s)
Ended-follow continue s e = e
Ended-follow (emit text) s e = Ended-emit s.stopped text s.events e
Ended-follow (finish meta) s e = tt
Ended-follow (fail f) s e = tt

EndsOnce-close :
    (b : Bool) (es fs : List Event)
    → Ended (record { events = es; stopped = b })
    → EndsOnce fs
    → EndsOnce (close (record { events = es; stopped = b }) fs)
EndsOnce-close true es fs e k = e
EndsOnce-close false es fs e k = EndsOnce-append es fs e k

IsOpen-close :
    (b : Bool) (es : List Event)
    → Ended (record { events = es; stopped = b })
    → EndsOnce (close (record { events = es; stopped = b }) [])
      ⊎ IsOpen (close (record { events = es; stopped = b }) [])
IsOpen-close true es e = inl e
IsOpen-close false es e = inr (IsOpen-append es [] e tt)

module _ (parse : Text → Option Value) where
  scan-Ended : (lines : List Text) → Ended (scan parse lines)
  unfolding scan
  scan-Ended [] = tt
  scan-Ended (l ∷ ls) = Ended-follow (read_line parse l) (scan parse ls) (scan-Ended ls)

  body-EndsOnce :
      (reads : List Text) (ending : Ending)
      → EndsOnce (terminal parse ending)
      → EndsOnce (pump parse [] reads ending)
  unfolding split pop
  body-EndsOnce reads ending k =
      let s = scan parse (cut (concat reads)).0 in
      rw (pump-eq-all_at_once parse [] reads ending refl) (
        EndsOnce-close s.stopped s.events (terminal parse ending)
          (scan-Ended (cut (concat reads)).0) k)

  body_aborted :
      (reads : List Text)
      → EndsOnce (pump parse [] reads aborted) ⊎ IsOpen (pump parse [] reads aborted)
  unfolding split pop terminal
  body_aborted reads =
      let s = scan parse (cut (concat reads)).0 in
      rw (pump-eq-all_at_once parse [] reads aborted refl)
        (IsOpen-close s.stopped s.events (scan-Ended (cut (concat reads)).0))

-- The request's own abort, before or while the body is read.
abbrev pub IsAborted : Response → Type 0
IsAborted cancelled = Unit
IsAborted (body reads aborted) = Unit
IsAborted _ = ⊥

-- A request that is not aborted calls `onDone` or `onError` exactly once, and nothing after it;
-- one that is aborted calls one of them at most once, and nothing after it.
pub stream_post-EndsOnce :
    (parse : Text → Option Value) (response : Response)
    → EndsOnce (stream_post parse response)
      ⊎ (IsAborted response × IsOpen (stream_post parse response))
unfolding stream_post
stream_post-EndsOnce parse cancelled = inr (tt, tt)
stream_post-EndsOnce parse (refused err) = inl tt
stream_post-EndsOnce parse (not_ok status json) = inl (rejected_request (error_of json))
  where
    rejected_request : (v : Option Value) → EndsOnce (not_ok_events parse status v)
    rejected_request none = tt
    rejected_request (some v) = tt
stream_post-EndsOnce parse bodyless = inl tt
stream_post-EndsOnce parse (body reads finished) = inl (body-EndsOnce parse reads finished tt)
stream_post-EndsOnce parse (body reads (failed err)) =
    inl (body-EndsOnce parse reads (failed err) tt)
stream_post-EndsOnce parse (body reads aborted) = elim (body_aborted parse reads) [
  | inl e ↦ inl e
  | inr o ↦ inr (tt, o)
]
