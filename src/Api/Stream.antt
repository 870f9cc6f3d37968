-- ===== src/Api/Stream.antt =====
-- `api.streamPost` of frontend/src/lib/api.ts: the reading of a stream of server-sent events. The
-- response's body arrives as the texts that the decoder makes of it; `parse` is `JSON.parse`, and
-- `none` is its SyntaxError. The callbacks are taken to return.
pub mod Lines
pub mod Chunks
pub mod Frames
use noant.Base.{
  ℕ, ◌==◌, Text, codes, ◌===◌, starts_with, slice, Bool, true, false, not, Option, none, some, List,
  [], ◌∷◌, ◌++◌, if◌then◌else◌,
}
use noant.Json.{Value, undefined, str, or, member}

abbrev pub newline : ℕ
newline = 10

-- The arguments of `onError`; an error that is passed on goes by its name.
pub data Failure : Type 0 where
  request_failed : Value → ℕ → Failure
  no_body server_error : Failure
  rejected : Text → Failure

-- The calls of `onChunk`, `onDone` and `onError`.
pub data Event : Type 0 where
  chunk : Text → Event
  done : Option Value → Event
  error : Failure → Event

-- How the reading ends, if no line ends it: `done`, an abort, or another error.
pub data Ending : Type 0 where
  finished aborted : Ending
  failed : Text → Ending

-- What becomes of `fetch`: an abort, another rejection, or a response, with its body.
pub data Response : Type 0 where
  cancelled : Response
  refused : Text → Response
  not_ok : ℕ → Option Value → Response
  bodyless : Response
  body : List Text → Ending → Response

abbrev pub prepend : ℕ → List Text → List Text
prepend c [] = (c ∷ []) ∷ []
prepend c (l ∷ ls) = (c ∷ l) ∷ ls

-- `buffer.split('\n')`
pub split : Text → List Text
split [] = [] ∷ []
split (c ∷ s) = let ls = split s in if c == newline then [] ∷ ls else prepend c ls

-- `lines.pop() || ''`: the lines that are left, and the last one.
pub pop : List Text → List Text × Text
pop [] = ([], [])
pop (l ∷ []) = ([], l)
pop (l ∷ k ∷ ls) = let p = pop (k ∷ ls) in (l ∷ p.0, p.1)

-- The calls of a loop over lines, and whether it returned from the whole stream.
pub record Scan : Type 0 where
  pub events : List Event
  pub stopped : Bool

-- What the loop does at a line: `continue`, a call of `onChunk`, or the last call of
-- `onDone` or `onError` and `return`.
pub data Step : Type 0 where
  continue : Step
  emit : Text → Step
  finish : Option Value → Step
  fail : Failure → Step

abbrev pub follow : Step → Scan → Scan
follow continue rest = rest
follow (emit text) rest = record rest { events = chunk text ∷ rest.events }
follow (finish meta) rest = record { events = done meta ∷ []; stopped = true }
follow (fail failure) rest = record { events = error failure ∷ []; stopped = true }

-- `const data = await res.json().catch(() => ({}))` and `data.error`, which throws on `null`.
error_of : Option Value → Option Value
error_of none = some undefined
error_of (some v) = member v (codes "error")

module _ (parse : Text → Option Value) where
  -- the body of the `for` loop over the lines of one read
  pub read_line : Text → Step
  read_line line =
      let text = slice 6 line in
      if not (starts_with (codes "data: ") line)
      then continue
      else if text === codes "[DONE]"
      then finish none
      else if starts_with (codes "[DONE]") text
      then finish (parse (slice 7 text))
      else if text === codes "[ERROR]"
      then fail server_error
      else emit text

  -- that loop
  pub scan : List Text → Scan
  scan [] = record { events = []; stopped = false }
  scan (line ∷ lines) = let rest = scan lines in follow (read_line line) rest

  -- What is called when the reader says `done`, and in the `catch` behind the promise.
  pub terminal : Ending → List Event
  terminal finished = done none ∷ []
  terminal aborted = []
  terminal (failed err) = error (rejected err) ∷ []

  -- the `while` loop, with the buffer
  pub pump : Text → List Text → Ending → List Event
  unfolding terminal
  pump buffer [] ending = terminal ending
  pump buffer (value ∷ reads) ending =
      let p = pop (split (buffer ++ value)) in
      let s = scan p.0 in
      let rest = pump p.1 reads ending in if s.stopped then s.events else s.events ++ rest

  not_ok_events : ℕ → Option Value → List Event
  not_ok_events status none = terminal (failed (codes "TypeError"))
  not_ok_events status (some e) =
      error (request_failed (or e (str (codes "Stream request failed"))) status) ∷ []

  -- All calls of the callbacks for one request.
  pub stream_post : Response → List Event
  unfolding pump not_ok_events
  stream_post cancelled = terminal aborted
  stream_post (refused err) = terminal (failed err)
  stream_post (not_ok status json) = not_ok_events status (error_of json)
  stream_post bodyless = error no_body ∷ []
  stream_post (body reads ending) = pump [] reads ending
