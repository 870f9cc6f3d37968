-- ===== src/Api/Stream/Chunks/Tests.antt =====
-- Two divisions of one short stream, and its calls.
use noant.Base.{Text, codes, Option, none, some, [], ◌∷◌, ◌++◌, ◌≡◌, ◌⊎◌, refl}
use noant.Json.{Value, null}
use noant.Api.Stream.{
  chunk, done, Response, body, finished, stream_post, pump, scan, read_line, split, pop, newline,
}
use noant.Api.Stream.Chunks.{
  EndsOnce, IsAborted, IsOpen, stream_post_of_concat, stream_post-EndsOnce,
}

abbrev parse : Text → Option Value
parse s = some null

abbrev whole : Text
whole = codes "data: hi" ++ newline ∷ newline ∷ codes "data: [DO" ++ codes "NE]" ++ newline ∷ []

abbrev halves : Response
halves =
    body
      ((codes "data: hi" ++ newline ∷ newline ∷ codes "data: [DO")
        ∷ (codes "NE]" ++ newline ∷ [])
        ∷ [])
      finished

halves_calls : stream_post parse halves ≡ chunk (codes "hi") ∷ done none ∷ []
unfolding stream_post pump scan read_line split pop
halves_calls = refl

stream_post_of_concat_example :
    stream_post parse halves ≡ stream_post parse (body (whole ∷ []) finished)
stream_post_of_concat_example = stream_post_of_concat parse _ (whole ∷ []) finished refl

unended_calls : stream_post parse (body (codes "data: lost" ∷ []) finished) ≡ done none ∷ []
unfolding stream_post pump scan read_line split pop
unended_calls = refl

stream_post-EndsOnce_example :
    EndsOnce (stream_post parse halves) ⊎ (IsAborted halves × IsOpen (stream_post parse halves))
stream_post-EndsOnce_example = stream_post-EndsOnce parse halves
