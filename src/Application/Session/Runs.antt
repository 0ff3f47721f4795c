-- ===== src/Application/Session/Runs.antt =====
-- The session of src/net/session.cc on the frames that it receives.
use bandchain_legacy.Common.{
  ℕ, zero, suc, ◌^◌, ◌≤◌, ◌<◌, ◌≡◌, refl, ap, ◌∙◌, true, false, List, [], ◌∷◌, ◌++◌, append_assoc,
  length, length-append, take-append_length, drop-append_length, All, arith,
}
use bandchain_legacy.Thrown.{Result, ok, err}
use bandchain_legacy.Uint256.{CheckedUint}
use bandchain_legacy.Buffer.{Bytes, write_span, consume}
use bandchain_legacy.Ledger.Action.{Action, >>=-step, ◌>>=◌, ◌>>◌, pure, lift, continue_with}
use bandchain_legacy.Listener.Manager.{BaseListener}
use bandchain_legacy.Application.Frame.{Ahead, incomplete, read_ahead, write_frame}
use bandchain_legacy.Application.Frame.RoundTrip.{read_ahead-write_frame, length-write_frame_pos}
use bandchain_legacy.Application.Requests.{Request, Answer, respond}
use bandchain_legacy.Application.Session.{
  Session, on_app, set_read, put_write, answer_request, process_ahead, process, process_all,
  process_read,
}

-- The frames of messages, one behind the other.
unfoldable pub frames : List Bytes → Bytes
frames [] = []
frames (message ∷ messages) = write_frame [] message ++ frames messages

-- A message that its frame can announce.
abbrev pub IsShort : Bytes → Type 0
IsShort message = length message < 2 ^ 30

consume-append : (message left : Bytes) → consume (length message) (message ++ left) ≡ ok left
unfolding consume
consume-append message left =
    ground (arith, length-append message left, drop-append_length message left)

>>-same_end :
    {S : Type 0} (f g : Action S (Unit {0})) (r : Result (Unit {0})) (s : S)
    → f s ≡ g s
    → continue_with (λ _. f) r s ≡ continue_with (λ _. g) r s
>>-same_end f g (ok done) s e = e
>>-same_end f g (err thrown) s e = refl

frames_longer : (messages : List Bytes) → length messages ≤ length (frames messages)
unfolding frames
frames_longer [] = omega arith
frames_longer (message ∷ messages) = omega (
  arith,
  frames_longer messages,
  length-append (write_frame [] message) (frames messages),
  length-write_frame_pos message,
)

module _ ⦃u : CheckedUint⦄ {L : Type 0} (base : BaseListener L) (sha256 : Bytes → Bytes)
    (abi : Result Bytes) (parse : Bytes → Request) (serialize : Answer → Bytes) where
  -- Message by message: each is taken out of the buffer, answered, and its answer written.
  unfoldable pub serve_each : List Bytes → Bytes → Action (Session L) (Unit {0})
  unfolding frames
  serve_each [] rest = set_read rest
  serve_each (message ∷ messages) rest =
      set_read (frames messages ++ rest)
      >> (answer_request base sha256 abi parse serialize message >> serve_each messages rest)

  written-keeps :
      (res : Result Answer) (s : Session L)
      → (continue_with (λ answer. put_write (serialize answer)) res s).1.read_buffer ≡ s.read_buffer
  written-keeps (ok answer) s = refl
  written-keeps (err thrown) s = refl

  set_aside :
      (messages : List Bytes) (rest buf : Bytes) (s : Session L)
      → serve_each messages rest (record s { read_buffer = buf }) ≡ serve_each messages rest s
  unfolding serve_each
  set_aside [] rest buf s = refl
  set_aside (message ∷ messages) rest buf s = refl

  -- Answering leaves the bytes that wait to be read.
  pub answer_request-keeps :
      (message : Bytes) (s : Session L)
      → (answer_request base sha256 abi parse serialize message s).1.read_buffer ≡ s.read_buffer
  unfolding answer_request on_app
  answer_request-keeps message s =
      let p = respond base sha256 abi (parse message) s.app in
      written-keeps p.0 (record s { app = p.1 })

  process_frame :
      (message left : Bytes) (s : Session L)
      → IsShort message
      → s.read_buffer ≡ write_frame [] message ++ left
      → process base sha256 abi parse serialize s
        ≡ (answer_request base sha256 abi parse serialize message >> pure true)
            (record s { read_buffer = left })
  unfolding process process_ahead
  process_frame message left s small e =
      rw
        (
          e,
          read_ahead-write_frame message left small,
          consume-append message left,
          take-append_length message left,
        )
        refl

  -- What follows an answer, on either outcome of it.
  process_round :
      (fuel : ℕ) (message left : Bytes) (s : Session L)
      → IsShort message
      → s.read_buffer ≡ write_frame [] message ++ left
      → process_all base sha256 abi parse serialize (suc fuel) s
        ≡ (answer_request base sha256 abi parse serialize message
              >> process_all base sha256 abi parse serialize fuel)
            (record s { read_buffer = left })
  unfolding process_all
  process_round fuel message left s small e = rw (process_frame message left s small e) (
      after_answer fuel
        (answer_request base sha256 abi parse serialize message (record s { read_buffer = left })))
    where
      after_answer :
          (fuel : ℕ) (p : Result (Unit {0}) × Session L)
          → continue_with
              (λ more. elim more [
                | true ↦ process_all base sha256 abi parse serialize fuel
                | false ↦ pure tt
              ])
              (continue_with (λ _. pure true) p.0 p.1).0
              (continue_with (λ _. pure true) p.0 p.1).1
            ≡ continue_with (λ _. process_all base sha256 abi parse serialize fuel) p.0 p.1
      after_answer fuel (ok tt, t) = refl
      after_answer fuel (err thrown, t) = refl

  nothing_ahead :
      (s : Session L) (rest : Bytes)
      → s.read_buffer ≡ rest
      → read_ahead rest ≡ ok incomplete
      → process base sha256 abi parse serialize s ≡ (ok false, s)
  unfolding process process_ahead
  nothing_ahead s rest e waits =
      ap (λ (r : Result Ahead). (lift r >>= process_ahead base sha256 abi parse serialize) s)
        (ap read_ahead e ∙ waits)

  -- The loop, on the frames that the buffer holds.
  process_all-frames :
      (fuel : ℕ) (messages : List Bytes) (rest : Bytes) (s : Session L)
      → length messages < fuel
      → All IsShort messages
      → read_ahead rest ≡ ok incomplete
      → s.read_buffer ≡ frames messages ++ rest
      → process_all base sha256 abi parse serialize fuel s ≡ serve_each messages rest s
  unfolding process_all process process_ahead serve_each frames
  process_all-frames zero messages rest s enough short waits e = absurd (omega arith)
  process_all-frames (suc fuel) [] rest s enough short waits e =
      >>=-step (process base sha256 abi parse serialize) _ (nothing_ahead s rest e waits)
      ∙ ap (λ (buf : Bytes). (ok tt, record s { read_buffer = buf })) e
  process_all-frames (suc fuel) (message ∷ messages) rest s enough (h, short) waits e =
      let left : Bytes = frames messages ++ rest in
      let t : Session L = record s { read_buffer = left } in
      let answer = answer_request base sha256 abi parse serialize message in
      process_round fuel message left s h
        (e ∙ append_assoc (write_frame [] message) (frames messages) rest)
      ∙ >>-same_end _ _ (answer t).0 (answer t).1 (
          process_all-frames fuel messages rest (answer t).1 (omega arith) short waits
            (answer_request-keeps message t))

  -- Where the bytes that a session holds, and those it receives, are the frames of messages below
  -- 2 ^ 30 bytes, followed by bytes in which no frame is complete, reading answers the messages
  -- one after the other, each answer written behind the last, until one throws, and keeps the
  -- bytes that follow.
  pub process_read-frames :
      (messages : List Bytes) (rest received : Bytes) (s : Session L)
      → All IsShort messages
      → read_ahead rest ≡ ok incomplete
      → s.read_buffer ++ received ≡ frames messages ++ rest
      → process_read base sha256 abi parse serialize received s ≡ serve_each messages rest s
  unfolding process_read write_span
  process_read-frames messages rest received s short waits e =
      process_all-frames (suc (length (s.read_buffer ++ received))) messages rest
        (record s { read_buffer = s.read_buffer ++ received })
        (rw e (omega (arith, length-append (frames messages) rest, frames_longer messages))) short
        waits e
      ∙ set_aside messages rest (s.read_buffer ++ received) s
