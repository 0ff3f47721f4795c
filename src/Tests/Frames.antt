-- ===== src/Tests/Frames.antt =====
-- Frames and sessions of src/net, at concrete bytes.
use bandchain_legacy.Common.{◌≡◌, refl, [], ◌∷◌, ◌++◌, List, arith}
use bandchain_legacy.Thrown.{ok, err, error}
use bandchain_legacy.Buffer.{Bytes}
use bandchain_legacy.Application.Frame.{incomplete, complete, read_ahead, read_loop, write_frame}
use bandchain_legacy.Application.Frame.RoundTrip.{read_ahead-write_frame}
use bandchain_legacy.Application.Requests.{Request, echo_request, Answer, echo_answer}
use bandchain_legacy.Application.Session.{Session, process_all, process_read}
use bandchain_legacy.Application.Session.Runs.{frames, serve_each, process_read-frames}
use bandchain_legacy.Application.Session.Fuel.{Ends, process_all-Ends}
use bandchain_legacy.Application.Requests.{respond}
use bandchain_legacy.Application.Session.Answered.{Answers, write_answers, process_read-Answers}
use bandchain_legacy.Tests.Boost.{boost}
use bandchain_legacy.Tests.Applications.{silent, idle, no_hash}

read_ahead-write_frame_example :
    read_ahead (write_frame [] (7 ∷ 8 ∷ []) ++ 9 ∷ []) ≡ ok (complete 2 (7 ∷ 8 ∷ 9 ∷ []))
read_ahead-write_frame_example = read_ahead-write_frame (7 ∷ 8 ∷ []) (9 ∷ []) (omega arith)

-- Every request is an echo, and so is every answer.
abbrev echo_of : Bytes → Request
echo_of bytes = echo_request bytes

abbrev bytes_of : Answer → Bytes
bytes_of (echo_answer message) = message
bytes_of _ = []

abbrev quiet : Session (Unit {0})
quiet = record { app = idle; read_buffer = []; write_buffer = [] }

abbrev two_messages : List Bytes
two_messages = (1 ∷ []) ∷ (2 ∷ 3 ∷ []) ∷ []

nothing_waits : read_ahead [] ≡ ok incomplete
unfolding read_ahead read_loop
nothing_waits = refl

process_read-frames_example :
    process_read ⦃u = boost⦄ silent no_hash
      (err error)
      echo_of
      bytes_of
      (frames two_messages ++ [])
      quiet
    ≡ serve_each ⦃u = boost⦄ silent no_hash (err error) echo_of bytes_of two_messages [] quiet
process_read-frames_example =
    process_read-frames ⦃u = boost⦄ silent no_hash (err error) echo_of bytes_of two_messages []
      (frames two_messages ++ []) quiet (omega arith, (omega arith, tt)) nothing_waits refl

abbrev waiting : Session (Unit {0})
waiting = record { app = idle; read_buffer = 2 ∷ 1 ∷ []; write_buffer = [] }

process_all-Ends_example :
    Ends ⦃u = boost⦄ silent no_hash
      (err error)
      echo_of
      bytes_of
      waiting
      (process_all ⦃u = boost⦄ silent no_hash (err error) echo_of bytes_of 3 waiting)
process_all-Ends_example =
    process_all-Ends ⦃u = boost⦄ silent no_hash (err error) echo_of bytes_of 3 waiting (omega arith)

both_answered :
    Answers ⦃u = boost⦄ silent no_hash
      (err error)
      echo_of
      bytes_of
      idle
      two_messages
      (echo_answer (1 ∷ []) ∷ echo_answer (2 ∷ 3 ∷ []) ∷ [])
      idle
unfolding Answers respond
both_answered = (idle, refl, (idle, refl, refl))

process_read-Answers_example :
    process_read ⦃u = boost⦄ silent no_hash
      (err error)
      echo_of
      bytes_of
      (frames two_messages ++ [])
      quiet
    ≡ (
      ok tt,
      record {
        app = idle;
        read_buffer = [];
        write_buffer =
            write_answers ⦃u = boost⦄ silent no_hash
              (err error)
              echo_of
              bytes_of
              []
              (echo_answer (1 ∷ []) ∷ echo_answer (2 ∷ 3 ∷ []) ∷ []);
      },
    )
process_read-Answers_example =
    process_read-Answers ⦃u = boost⦄ silent no_hash (err error) echo_of bytes_of two_messages
      (echo_answer (1 ∷ []) ∷ echo_answer (2 ∷ 3 ∷ []) ∷ []) [] (frames two_messages ++ []) quiet
      idle (omega arith, (omega arith, tt)) nothing_waits refl both_answered
