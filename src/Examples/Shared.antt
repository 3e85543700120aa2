-- ===== src/Examples/Shared.antt =====
-- The theorems on connections, with lists for shared memory and for streams.
use laic.Prelude.{
  ℕ, zero, suc, ◌≡◌, ◌≢◌, ◌⊎◌, inl, refl, none, some, Bool, true, false, List, [], ◌∷◌, ◌++◌, All,
  ok, err, done, arith,
}
use laic.Protocol.Message.{Message}
use laic.Transport.Framing.{write_frame}
use laic.Transport.Framing.Stream.{buffer_write, buffer_write_laws, buffer_read, buffer_read_laws}
use laic.Transport.Framing.RoundTrip.{frame_bytes, encode-IsValid}
use laic.Transport.Shm.{
  ShmPort, Poll, sample, empty, Wait, yield_now, sleep, last, list_shm, list_shm_laws,
}
use laic.Transport
use laic.Transport.{ipc, quic}
use laic.Transport.Lifecycle.{close_final}
use laic.Transport.Ipc
use laic.Transport.Ipc.{IpcFrame, IpcConnection, PollStats, open_frame, receive_loop}
use laic.Transport.Ipc.Frame.{frame_of, make_frame_lem}
use laic.Transport.Ipc.Polling.{receive_loop_lem}
use laic.Transport.Ipc.Delivery.{FitsSlot, send_all, receive_all, receive_all-send_all}
use laic.Transport.Quic
use laic.Transport.Quic.{Quinn, QuicConnection}
use laic.Gateway.{Gateway, forward_ipc_to_quic, forward_quic_to_ipc}
use laic.Gateway.Forward.{
  forward_ipc_to_quic_lem, forward_quic_to_ipc_lem, forward_quic_to_ipc_lost,
}
use laic.Emergency
use laic.Emergency.{EmergencyFrame, EmergencyChannel}
use laic.Emergency.Delivery as EmergencyDelivery
use laic.Error.{LaicError, transport}
use laic.Error.Transport.{shutting_down}
use laic.Examples.Sample as S

abbrev port : ShmPort IpcFrame
port = list_shm IpcFrame

-- A connection with what its publisher has published and its subscriber holds.
abbrev ipc_with : List IpcFrame → List IpcFrame → IpcConnection port
ipc_with published held = record { publisher = published; subscriber = held; closed = false }

abbrev clock : ℕ → ℕ
clock n = n

abbrev three : List Message
three = S.sample ∷ S.request ∷ S.sample ∷ []

three-FitsSlot : All FitsSlot three
three-FitsSlot = (
  (S.sample-IsValid, omega arith),
  ((S.request-IsValid, omega arith), ((S.sample-IsValid, omega arith), tt)),
)

three_sent : (send_all port (list_shm_laws IpcFrame) three (ipc_with [] [])).0 ≡ done
unfolding send_all Ipc.send
three_sent =
    rw
      (
        make_frame_lem S.sample S.sample-IsValid,
        make_frame_lem S.request S.request-IsValid,
        make_frame_lem S.sample S.sample-IsValid,
      )
      refl

abbrev newest : List IpcFrame
newest = last 2 (send_all port (list_shm_laws IpcFrame) three (ipc_with [] [])).1.publisher

receive_all-send_all_example :
    receive_all port (list_shm_laws IpcFrame) clock none 1 2 (ipc_with [] newest)
    ≡ some (ok (S.request ∷ S.sample ∷ []))
receive_all-send_all_example =
    receive_all-send_all port (list_shm_laws IpcFrame) 2 clock none 1 three (ipc_with [] [])
      (ipc_with [] newest) three-FitsSlot (omega arith) refl refl three_sent refl

-- A subscriber that counts down, has a frame at zero, and keeps its waits.
abbrev Countdown : Type 0
Countdown = ℕ × List Wait

abbrev countdown_receive : Countdown → Poll IpcFrame × Countdown
countdown_receive (zero, waits) = (sample (frame_of S.sample), (0, waits))
countdown_receive (suc n, waits) = (empty, (n, waits))

abbrev countdown_wait : Wait → Countdown → Countdown
countdown_wait w (n, waits) = (n, waits ++ w ∷ [])

abbrev stats : PollStats
stats = record { empty_polls = 0; active_yields = 0; requested_sleep = 0; actual_sleep = 0 }

abbrev countdown : ShmPort IpcFrame
countdown = record {
  Publisher = Unit {0};
  Subscriber = Countdown;
  loan_uninit = λ p. (done, p);
  send = λ f p. (done, p);
  receive = countdown_receive;
  wait = countdown_wait;
}

-- The clock passes the deadline between the two empty polls.
receive_loop_lem_example :
    receive_loop countdown clock (some 1) 5 stats (2, [])
    ≡ some (open_frame (frame_of S.sample), (0, yield_now ∷ sleep 100 ∷ []))
receive_loop_lem_example =
    receive_loop_lem countdown 2 5 clock (some 1) stats (2, []) (frame_of S.sample) (omega arith)
      (refl, (refl, tt)) refl

-- QUIC over buffers in memory.
abbrev quinn : Quinn
quinn = record {
  send_stream = buffer_write;
  recv_stream = buffer_read;
  Connection = Bool;
  finish = λ s. (done, s);
  close = λ _. false;
}

abbrev quic_with : List ℕ → List ℕ → QuicConnection quinn
quic_with sent queued = record { send = sent; recv = queued; conn = true; closed = false }

close_final_example :
    (Transport.send port quinn S.sample (Transport.close port quinn (quic (quic_with [] []))).1
      ≡ (err (transport shutting_down), (Transport.close port quinn (quic (quic_with [] []))).1))
    × (Transport.receive port quinn clock none 0
          (Transport.close port quinn (quic (quic_with [] []))).1
        ≡ some (
          err (transport shutting_down),
          (Transport.close port quinn (quic (quic_with [] []))).1,
        ))
    × (Transport.close port quinn (Transport.close port quinn (quic (quic_with [] []))).1
        ≡ (done, (Transport.close port quinn (quic (quic_with [] []))).1))
close_final_example = close_final port quinn (quic (quic_with [] [])) S.sample clock none 0

abbrev gateway : Gateway port quinn
gateway = record {
  ipc = ipc_with [] (frame_of S.sample ∷ []);
  quic = quic_with [] (frame_bytes S.request ++ 9 ∷ []);
}

sample_forwarded : (Quic.send quinn S.sample gateway.quic).0 ≡ done
unfolding Quic.send write_frame
sample_forwarded = rw (encode-IsValid S.sample S.sample-IsValid) refl

forward_ipc_to_quic_lem_example :
    (g' : Gateway port quinn) × (forward_ipc_to_quic port quinn clock none 1 gateway
      ≡ some (done, g'))
    × (g'.ipc.subscriber ≡ [])
    × (g'.quic.send ≡ frame_bytes S.sample)
forward_ipc_to_quic_lem_example =
    forward_ipc_to_quic_lem port (list_shm_laws IpcFrame) quinn buffer_write_laws clock none 1
      S.sample [] gateway (S.sample-IsValid, omega arith) (omega arith) refl refl refl
      sample_forwarded

forward_quic_to_ipc_lem_example :
    ((forward_quic_to_ipc port quinn gateway).1.quic.recv ≡ 9 ∷ [])
    × ((forward_quic_to_ipc port quinn gateway).0 ≡ (Ipc.send port S.request gateway.ipc).0)
    × ((forward_quic_to_ipc port quinn gateway).1.ipc ≡ (Ipc.send port S.request gateway.ipc).1)
    × ((((forward_quic_to_ipc port quinn gateway).0 ≡ done)
          × ((forward_quic_to_ipc port quinn gateway).1.ipc.publisher ≡ frame_of S.request ∷ []))
        ⊎ ((forward_quic_to_ipc port quinn gateway).0 ≢ done))
forward_quic_to_ipc_lem_example =
    forward_quic_to_ipc_lem port (list_shm_laws IpcFrame) quinn buffer_read_laws S.request (9 ∷ [])
      gateway (S.request-IsValid, omega arith) refl refl

-- The gateway with its local side closed.
abbrev half_closed : Gateway port quinn
half_closed = record gateway { ipc = record gateway.ipc { closed = true } }

forward_quic_to_ipc_lost_example :
    (e : LaicError) × ((forward_quic_to_ipc port quinn half_closed).0 ≡ err e)
    × ((forward_quic_to_ipc port quinn half_closed).1.quic.recv ≡ 9 ∷ [])
    × ((forward_quic_to_ipc port quinn half_closed).1.ipc ≡ half_closed.ipc)
forward_quic_to_ipc_lost_example =
    forward_quic_to_ipc_lost port (list_shm_laws IpcFrame) quinn buffer_read_laws S.request (9 ∷ [])
      half_closed (S.request-IsValid, omega arith) refl refl (inl refl)

abbrev alarm : List ℕ
alarm = 1 ∷ 2 ∷ 3 ∷ []

abbrev alarm_port : ShmPort EmergencyFrame
alarm_port = list_shm EmergencyFrame

abbrev channel : List EmergencyFrame → EmergencyChannel alarm_port
channel held = record { publisher = []; subscriber = held; closed = false }

alarm_sent : (Emergency.send alarm_port alarm (channel [])).0 ≡ done
unfolding Emergency.send
alarm_sent = refl

receive-send_example :
    ((Emergency.send alarm_port alarm (channel [])).1.publisher ≡ Emergency.make_frame alarm ∷ [])
    × (c : EmergencyChannel alarm_port) × (Emergency.receive alarm_port 1
          (channel (Emergency.make_frame alarm ∷ []))
        ≡ some (ok alarm, c))
    × (c.subscriber ≡ [])
receive-send_example =
    EmergencyDelivery.receive-send alarm_port (list_shm_laws EmergencyFrame) alarm [] 1 (channel [])
      (channel (Emergency.make_frame alarm ∷ [])) (omega arith) (omega arith) refl alarm_sent refl
