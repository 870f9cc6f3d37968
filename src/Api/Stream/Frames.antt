-- ===== src/Api/Stream/Frames.antt =====
-- What the client makes of the frames that the server writes (the stream of
-- backend/internal/handler/chat_handler.go, `data: %s\n\n`).
mod Tests
use noant.Base.{
  ℕ, ◌==◌, Text, codes, ◌===◌, ===_iff, starts_with, starts_with-append, slice, slice-append, Bool,
  true, false, not, Bool-cases, Option, none, some, List, [], ◌∷◌, ◌++◌, map, ◌≡◌, ◌≢◌, refl, sym,
  ◌∙◌, ap, All, All-append, arith, inl, inr, if◌then◌else◌, append_assoc, append-nil,
}
use mathlib.Core.Path.{subst}
use noant.Json.{Value}
use noant.Api.Stream.{
  Event, chunk, done, error, server_error, Ending, body, Scan, scan, Step, continue, emit, finish,
  follow, read_line, pump, terminal, stream_post, newline, split, pop,
}
use noant.Api.Stream.Lines.{cut, cut-line, cut-newline, HasNoNewline}
use noant.Api.Stream.Chunks.{concat, close, stream_post-eq-close}

abbrev pub frame : Text → Text
frame text = (codes "data: " ++ text) ++ newline ∷ newline ∷ []

abbrev pub frames : List Text → Text
frames [] = []
frames (t ∷ ts) = frame t ++ frames ts

-- How the server's generation ends: with a message, whose metadata follow the mark as JSON; with none,
-- when the reply is a duplicate; or with an error.
pub data Generation : Type 0 where
  message : (metadata : Text) → Generation
  skipped failed : Generation

pub last_frame : Generation → Text
last_frame (message metadata) = frame (codes "[DONE]" ++ metadata)
last_frame skipped = frame (codes "[DONE]")
last_frame failed = frame (codes "[ERROR]")

-- All that the server writes for an answer in these pieces.
pub written : List Text → Generation → Text
unfolding last_frame
written ts g = frames ts ++ last_frame g

-- A piece of the answer that is one line and is none of the stream's own marks.
pub record IsPiece (t : Text) : Type 0 where
  pub one_line : HasNoNewline t
  pub not_done : starts_with (codes "[DONE]") t ≡ false
  pub not_error : (t === codes "[ERROR]") ≡ false

HasNoNewline-data : (t : Text) → HasNoNewline t → HasNoNewline (codes "data: " ++ t)
HasNoNewline-data t h = All-append (λ c. c ≢ newline) (codes "data: ") t (omega arith) h

cut-frame :
    (t rest : Text)
    → HasNoNewline t
    → (cut (frame t ++ rest)).0 ≡ (codes "data: " ++ t) ∷ [] ∷ (cut rest).0
cut-frame t rest h = rw (
  append_assoc (codes "data: " ++ t) (newline ∷ newline ∷ []) rest,
  cut-line (codes "data: " ++ t) (newline ∷ rest) (HasNoNewline-data t h),
  cut-newline rest,
)

not_done_mark : (t : Text) → starts_with (codes "[DONE]") t ≡ false → (t === codes "[DONE]") ≡ false
not_done_mark t h = elim (Bool-cases (t === codes "[DONE]")) [
  | inl e ↦
      let same : t ≡ codes "[DONE]" = (===_iff t (codes "[DONE]")).0 e in
      let clash = subst (λ u. starts_with (codes "[DONE]") u ≡ false) same h in cc
  | inr e ↦ e
]

module _ (parse : Text → Option Value) where
  read_line_nil : read_line parse [] ≡ continue
  unfolding read_line
  read_line_nil = refl

  scan-frame :
      (t rest : Text)
      → HasNoNewline t
      → scan parse (cut (frame t ++ rest)).0
        ≡ follow (read_line parse (codes "data: " ++ t)) (scan parse (cut rest).0)
  unfolding scan
  scan-frame t rest h = rw (cut-frame t rest h, read_line_nil)

  read_line_of_IsPiece : (t : Text) → IsPiece t → read_line parse (codes "data: " ++ t) ≡ emit t
  unfolding read_line
  read_line_of_IsPiece t p =
      let e : (t === codes "[DONE]") ≡ false = not_done_mark t p.not_done in
      rw (e, p.not_done, p.not_error)

  read_line_of_other :
      (t : Text) → starts_with (codes "data: ") t ≡ false → read_line parse t ≡ continue
  unfolding read_line
  read_line_of_other t h = rw h

  scan-frames :
      (ts : List Text) (rest : Text)
      → All IsPiece ts
      → scan parse (cut (frames ts ++ rest)).0 ≡ record {
        events = map chunk ts ++ (scan parse (cut rest).0).events;
        stopped = (scan parse (cut rest).0).stopped;
      }
  scan-frames [] rest h = refl
  scan-frames (t ∷ ts) rest (p, h) = rw (
    append_assoc (frame t) (frames ts) rest,
    scan-frame t (frames ts ++ rest) p.one_line,
    read_line_of_IsPiece t p,
    scan-frames ts rest h,
  )

  scan_done :
      scan parse (cut (frame (codes "[DONE]"))).0
      ≡ record { events = done none ∷ []; stopped = true }
  unfolding scan read_line split pop
  scan_done = refl

  scan_failed :
      scan parse (cut (frame (codes "[ERROR]"))).0
      ≡ record { events = error server_error ∷ []; stopped = true }
  unfolding scan read_line split pop
  scan_failed = refl

  scan-frame_last :
      (t : Text)
      → HasNoNewline t
      → scan parse (cut (frame t)).0
        ≡ follow (read_line parse (codes "data: " ++ t)) (record { events = []; stopped = false })
  unfolding scan split pop
  scan-frame_last t h = rw append-nil at (scan-frame t [] h)

  read_line_metadata :
      (first : ℕ) (rest : Text)
      → read_line parse (codes "data: " ++ (codes "[DONE]" ++ first ∷ rest)) ≡ finish (parse rest)
  unfolding read_line
  read_line_metadata first rest = refl

  -- A piece in two lines, the second of which is passed over.
  scan-frame-newline :
      (t lost rest : Text)
      → IsPiece t
      → HasNoNewline lost
      → starts_with (codes "data: ") lost ≡ false
      → scan parse (cut (frame (t ++ newline ∷ lost) ++ rest)).0
        ≡ follow (emit t) (scan parse (cut rest).0)
  unfolding scan
  scan-frame-newline t lost rest p n s = rw (
    append_assoc (codes "data: " ++ (t ++ newline ∷ lost)) (newline ∷ newline ∷ []) rest,
    append_assoc (codes "data: ") (t ++ newline ∷ lost) (newline ∷ newline ∷ rest),
    append_assoc t (newline ∷ lost) (newline ∷ newline ∷ rest),
    sym (append_assoc (codes "data: ") t (newline ∷ (lost ++ newline ∷ newline ∷ rest))),
    cut-line (codes "data: " ++ t) (lost ++ newline ∷ newline ∷ rest)
        (HasNoNewline-data t p.one_line),
    cut-line lost (newline ∷ rest) n,
    cut-newline rest,
    read_line_of_IsPiece t p,
    read_line_of_other lost s,
    read_line_nil,
  )

stream_post-failed :
    (parse : Text → Option Value) (ts reads : List Text) (ending : Ending)
    → All IsPiece ts
    → concat reads ≡ frames ts ++ frame (codes "[ERROR]")
    → stream_post parse (body reads ending) ≡ map chunk ts ++ error server_error ∷ []
stream_post-failed parse ts reads ending h e = rw (
  stream_post-eq-close parse reads ending,
  e,
  scan-frames parse ts (frame (codes "[ERROR]")) h,
  scan_failed parse,
)

stream_post-skipped :
    (parse : Text → Option Value) (ts reads : List Text) (ending : Ending)
    → All IsPiece ts
    → concat reads ≡ frames ts ++ frame (codes "[DONE]")
    → stream_post parse (body reads ending) ≡ map chunk ts ++ done none ∷ []
stream_post-skipped parse ts reads ending h e = rw (
  stream_post-eq-close parse reads ending,
  e,
  scan-frames parse ts (frame (codes "[DONE]")) h,
  scan_done parse,
)

-- When the server adds metadata to its last mark, the client parses it without its first character,
-- which for the server's JSON object is the opening brace.
pub stream_post-metadata :
    (parse : Text → Option Value) (ts reads : List Text) (ending : Ending) (first : ℕ) (rest : Text)
    → All IsPiece ts
    → HasNoNewline (first ∷ rest)
    → concat reads ≡ frames ts ++ frame (codes "[DONE]" ++ first ∷ rest)
    → stream_post parse (body reads ending) ≡ map chunk ts ++ done (parse rest) ∷ []
stream_post-metadata parse ts reads ending first rest h n e =
    let mark = codes "[DONE]" ++ first ∷ rest in
    let one_line = All-append (λ c. c ≢ newline) (codes "[DONE]") (first ∷ rest) (omega arith) n in
    rw (
      stream_post-eq-close parse reads ending,
      e,
      scan-frames parse ts (frame mark) h,
      scan-frame_last parse mark one_line,
      read_line_metadata parse first rest,
    )

-- The last call for a generation. Metadata are parsed without their first character.
abbrev pub last_event : (Text → Option Value) → Generation → Event
last_event parse (message []) = done none
last_event parse (message (c ∷ rest)) = done (parse rest)
last_event parse skipped = done none
last_event parse failed = error server_error

-- Metadata are one line of text, as the JSON that the server writes is.
abbrev pub IsLine : Generation → Type 0
IsLine (message metadata) = HasNoNewline metadata
IsLine skipped = Unit
IsLine failed = Unit

-- What the server writes for an answer arrives as the pieces of the answer, in their order, and one
-- call behind them, however the network divides it: `onError` when the generation failed, `onDone`
-- without metadata when it was skipped, and otherwise `onDone` with what JSON.parse makes of the
-- metadata without their first character. Each piece is one line and no
-- mark of the stream: it does not begin with DONE in brackets, and is not ERROR in brackets. The
-- metadata are one line.
pub stream_post-frames :
    (parse : Text → Option Value) (ts reads : List Text) (g : Generation) (ending : Ending)
    → All IsPiece ts
    → IsLine g
    → concat reads ≡ written ts g
    → stream_post parse (body reads ending) ≡ map chunk ts ++ last_event parse g ∷ []
unfolding written last_frame
stream_post-frames parse ts reads (message []) ending h n e =
    stream_post-skipped parse ts reads ending h e
stream_post-frames parse ts reads (message (c ∷ rest)) ending h n e =
    stream_post-metadata parse ts reads ending c rest h n e
stream_post-frames parse ts reads skipped ending h n e =
    stream_post-skipped parse ts reads ending h e
stream_post-frames parse ts reads failed ending h n e = stream_post-failed parse ts reads ending h e

-- Of a piece that holds a newline, followed by no `data: `, the client delivers what stands before
-- the newline.
pub stream_post-newline :
    (parse : Text → Option Value) (t lost : Text) (reads : List Text) (ending : Ending)
    → IsPiece t
    → HasNoNewline lost
    → starts_with (codes "data: ") lost ≡ false
    → concat reads ≡ frame (t ++ newline ∷ lost) ++ frame (codes "[DONE]")
    → stream_post parse (body reads ending) ≡ chunk t ∷ done none ∷ []
stream_post-newline parse t lost reads ending p n s e = rw (
  stream_post-eq-close parse reads ending,
  e,
  scan-frame-newline parse t lost (frame (codes "[DONE]")) p n s,
  scan_done parse,
)
