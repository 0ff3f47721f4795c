-- ===== src/Application/Session/Answered.antt =====
-- The session of src/net/session.cc on requests that do not throw.
use bandchain_legacy.Common.{◌++◌, ◌≡◌, refl, ap, ◌∙◌, List, [], ◌∷◌, All}
use bandchain_legacy.Thrown.{Result, ok}
use bandchain_legacy.Uint256.{CheckedUint}
use bandchain_legacy.Buffer.{Bytes}
use bandchain_legacy.Ledger.Action.{continue_with}
use bandchain_legacy.Listener.Manager.{BaseListener}
use bandchain_legacy.Application.{Application}
use bandchain_legacy.Application.Frame.{incomplete, read_ahead, write_frame}
use bandchain_legacy.Application.Requests.{Request, Answer, respond}
use bandchain_legacy.Application.Session.{Session, on_app, answer_request, process_read}
use bandchain_legacy.Application.Session.Runs.{frames, IsShort, serve_each, process_read-frames}

module _ ⦃u : CheckedUint⦄ {L : Type 0} (base : BaseListener L) (sha256 : Bytes → Bytes)
    (abi : Result Bytes) (parse : Bytes → Request) (serialize : Answer → Bytes) where
  -- The application answers the messages one after the other, and no request throws.
  unfoldable pub Answers : Application L → List Bytes → List Answer → Application L → Type 0
  Answers app [] [] app' = app' ≡ app
  Answers app [] (a ∷ answers) app' = ⊥
  Answers app (message ∷ messages) [] app' = ⊥
  Answers app (message ∷ messages) (a ∷ answers) app' =
      (app1 : Application L) × (respond base sha256 abi (parse message) app ≡ (ok a, app1))
      × Answers app1 messages answers app'

  -- The frames of the answers, behind what is in the buffer.
  unfoldable pub write_answers : Bytes → List Answer → Bytes
  write_answers buf [] = buf
  write_answers buf (a ∷ answers) = write_answers (write_frame buf (serialize a)) answers

  answer_request-ok :
      (message : Bytes) (a : Answer) (s : Session L) (app1 : Application L)
      → respond base sha256 abi (parse message) s.app ≡ (ok a, app1)
      → answer_request base sha256 abi parse serialize message s
        ≡ (ok tt, record s { app = app1; write_buffer = write_frame s.write_buffer (serialize a) })
  unfolding answer_request on_app
  answer_request-ok message a s app1 e = rw e refl

  serve_each-Answers :
      (messages : List Bytes) (answers : List Answer) (rest : Bytes) (s : Session L)
      (app' : Application L)
      → Answers s.app messages answers app'
      → serve_each base sha256 abi parse serialize messages rest s ≡ (
        ok tt,
        record {
          app = app';
          read_buffer = rest;
          write_buffer = write_answers s.write_buffer answers;
        },
      )
  unfolding serve_each Answers write_answers
  serve_each-Answers [] [] rest s app' h = rw h refl
  serve_each-Answers [] (a ∷ answers) rest s app' h = absurd h
  serve_each-Answers (message ∷ messages) [] rest s app' h = absurd h
  serve_each-Answers (message ∷ messages) (a ∷ answers) rest s app' (app1, e, more) =
      let t : Session L = record s { read_buffer = frames messages ++ rest } in
      ap
        (λ (p : Result (Unit {0}) × Session L).
          continue_with (λ _. serve_each base sha256 abi parse serialize messages rest) p.0 p.1)
        (answer_request-ok message a t app1 e)
      ∙ serve_each-Answers messages answers rest
          (record t { app = app1; write_buffer = write_frame s.write_buffer (serialize a) }) app'
          more

  -- Where the bytes that a session holds, and those it receives, are the frames of messages below
  -- 2 ^ 30 bytes, followed by bytes in which no frame is complete, and the application answers
  -- the messages in turn without throwing: reading returns, the frames of all the answers stand
  -- in order behind what was to be written, and the bytes that follow are kept.
  pub process_read-Answers :
      (messages : List Bytes) (answers : List Answer) (rest received : Bytes) (s : Session L)
      (app' : Application L)
      → All IsShort messages
      → read_ahead rest ≡ ok incomplete
      → s.read_buffer ++ received ≡ frames messages ++ rest
      → Answers s.app messages answers app'
      → process_read base sha256 abi parse serialize received s ≡ (
        ok tt,
        record {
          app = app';
          read_buffer = rest;
          write_buffer = write_answers s.write_buffer answers;
        },
      )
  process_read-Answers messages answers rest received s app' short waits e h =
      process_read-frames base sha256 abi parse serialize messages rest received s short waits e
      ∙ serve_each-Answers messages answers rest s app' h
