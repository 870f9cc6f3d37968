-- ===== src/Api/Stream/Frames/Tests.antt =====
-- Two pieces in uneven reads, metadata, and a piece with a newline.
use noant.Base.{Text, codes, Option, none, some, List, [], ◌∷◌, ◌++◌, ◌≡◌, refl, arith}
use noant.Json.{Value, str}
use noant.Api.Stream.{chunk, done, body, finished, stream_post, newline}
use noant.Api.Stream.Chunks.{concat}
use noant.Api.Stream.Frames.{
  frame, message, last_frame, written, IsPiece, stream_post-frames, stream_post-metadata,
  stream_post-newline,
}

abbrev parse : Text → Option Value
parse s = some (str s)

abbrev pieces : List Text
pieces = codes "Hello" ∷ codes " you" ∷ []

Hello-IsPiece : IsPiece (codes "Hello")
Hello-IsPiece = record { one_line = omega arith; not_done = refl; not_error = refl }

you-IsPiece : IsPiece (codes " you")
you-IsPiece = record { one_line = omega arith; not_done = refl; not_error = refl }

abbrev metadata : Text
metadata = codes "{\"id\":\"m1\"}"

abbrev reads : List Text
reads =
    codes "data: Hel"
    ∷ (codes "lo" ++ newline ∷ newline ∷ codes "data:")
    ∷ (codes "  you" ++ newline ∷ newline ∷ frame (codes "[DONE]" ++ metadata))
    ∷ []

reads-eq-written : concat reads ≡ written pieces (message metadata)
unfolding written last_frame
reads-eq-written = refl

stream_post-frames_example :
    stream_post parse (body reads finished)
    ≡ chunk (codes "Hello") ∷ chunk (codes " you") ∷ done (some (str (codes "\"id\":\"m1\"}"))) ∷ []
stream_post-frames_example =
    stream_post-frames parse pieces reads (message metadata) finished
      (Hello-IsPiece, (you-IsPiece, tt)) (omega arith) reads-eq-written

stream_post-metadata_test :
    stream_post parse (body ((frame (codes "Hello") ++ frame (codes "[DONE]{x}")) ∷ []) finished)
    ≡ chunk (codes "Hello") ∷ done (some (str (codes "x}"))) ∷ []
stream_post-metadata_test =
    stream_post-metadata parse (codes "Hello" ∷ []) _ finished b'{' (codes "x}") (Hello-IsPiece, tt)
      (omega arith) refl

stream_post-newline_test :
    stream_post parse (
      body
        ((frame (codes "Hello" ++ newline ∷ codes "- you") ++ frame (codes "[DONE]")) ∷ [])
        finished)
    ≡ chunk (codes "Hello") ∷ done none ∷ []
stream_post-newline_test =
    stream_post-newline parse (codes "Hello") (codes "- you") _ finished Hello-IsPiece (omega arith)
      refl refl
