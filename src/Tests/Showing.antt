-- ===== src/Tests/Showing.antt =====
-- The peer that shows its frames.
use node_ipc.Base.{◌≡◌, List, [], ◌∷◌, ◌++◌}
use node_ipc.Text.{Text, text}
use node_ipc.Outcome.{returned, Run}
use node_ipc.Json.{Value}
use node_ipc.Parser.Reading.{read_fast}
use node_ipc.Demo.Tracing.{read_traced, forget, read_traced-read_fast}

abbrev collect : Value → Run (List Value) (Unit {0})
collect v vs = (vs ++ v ∷ [], returned tt)

abbrev chunk : Text
chunk = text "{\"type\":\"a\"}" ++ 12 ∷ text "{}"

read_traced-read_fast_example :
    forget (12 ∷ []) collect (read_traced (12 ∷ []) collect [] chunk ([], []))
    ≡ read_fast collect (12 ∷ []) [] chunk []
read_traced-read_fast_example = read_traced-read_fast (12 ∷ []) collect [] chunk ([], [])
