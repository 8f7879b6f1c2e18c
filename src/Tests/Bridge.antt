-- ===== src/Tests/Bridge.antt =====
-- A request of the mobile bridge.
use parda.Base.{ℕ, ◌≡◌, Bool, true, some, List, [], ◌∷◌, arith, replicate, nat_key}
use parda.HashMap.{lookup}
use parda.Mesh.Error.{MeshError, link}
use parda.Bridge.{empty, bytes, failed, nothing_pending}
use parda.Bridge.Radio.{Call, accept, connect, request}
use parda.Bridge.Answers.{Event, requested, resolved, happen, first_answer, request-answered}

abbrev platform : ℕ → Call → Bool
platform id call = true

abbrev refusal : MeshError
refusal = link "JNI connect failed"

-- another request and its answer, then two answers to the first
abbrev callbacks : List Event
callbacks =
    requested refusal accept
    ∷ resolved 2 empty
    ∷ resolved 1 (bytes (replicate 8 0))
    ∷ resolved 1 (failed "late")
    ∷ []

request-answered_example :
    let p' =
      happen platform callbacks (request platform refusal (connect (4 ∷ [])) nothing_pending).1 in
    lookup 1 p'.oneshots ≡ some (first_answer 1 callbacks)
request-answered_example =
    request-answered platform refusal (connect (4 ∷ [])) callbacks nothing_pending (omega arith)
