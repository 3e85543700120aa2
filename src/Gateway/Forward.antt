-- ===== src/Gateway/Forward.antt =====
-- A message crosses the gateway unchanged.
use laic.Prelude.{
  ℕ, ◌≡◌, ◌≢◌, ◌<◌, ◌⊎◌, inl, inr, refl, ◌∙◌, true, false, Option, some, List, [], ◌∷◌, ◌++◌,
  length, Bool-cases, lt→ltb, Result, ok, err, panicked, done, arith,
}
use laic.Protocol.Message.{Message}
use laic.Protocol.Message.Valid.{IsValid}
use laic.Transport.Framing.Stream.{WriteLaws, ReadLaws}
use laic.Transport.Framing.RoundTrip.{WithinLimit, frame_bytes, write_frame_lem, read_frame_lem}
use laic.Transport.Ipc
use laic.Transport.Ipc.{IpcFrame, IpcConnection, max_ipc_payload_len}
use laic.Transport.Ipc.Frame.{frame_of}
use laic.Transport.Ipc.Delivery.{FitsSlot, receive_lem, send_lem}
use laic.Transport.Quic
use laic.Transport.Quic.{Quinn, QuicConnection}
use laic.Transport.Quic.Lifecycle.{close-closed}
use laic.Transport.Shm.{ShmPort, ShmLaws}
use laic.Gateway.{Gateway, forward_ipc_to_quic, forward_quic_to_ipc, close}
use laic.Error.{LaicError}

done-cases : (r : Result (Unit {0}) LaicError) → (r ≡ done) ⊎ (r ≢ done)
done-cases (ok _) = inl refl
done-cases (err e) = inr (ground arith)
done-cases panicked = inr (ground arith)

module _ (b : ShmPort IpcFrame) (laws : ShmLaws b) (q : Quinn) where
  open laws use {published, pending}

  quic_send_lem :
      (writes : WriteLaws q.send_stream) (m : Message) (c : QuicConnection q)
      → IsValid m
      → c.closed ≡ false
      → (Quic.send q m c).0 ≡ done
      → writes.sent (Quic.send q m c).1.send ≡ writes.sent c.send ++ frame_bytes m
  unfolding Quic.send
  quic_send_lem writes m c v is_open =
      rw is_open λ sent. write_frame_lem q.send_stream writes m c.send v sent

  -- What arrives locally leaves remotely: where the IPC side of an open gateway holds the frame of
  -- a message and QUIC sends it, `forward_ipc_to_quic` succeeds, takes that frame off, and has
  -- appended the message's bytes to the QUIC stream.
  pub forward_ipc_to_quic_lem :
      (writes : WriteLaws q.send_stream) (now : ℕ → ℕ) (env : Option ℕ) (fuel : ℕ) (m : Message)
      (rest : List IpcFrame) (g : Gateway b q)
      → FitsSlot m
      → 0 < fuel
      → g.ipc.closed ≡ false
      → g.quic.closed ≡ false
      → pending g.ipc.subscriber ≡ frame_of m ∷ rest
      → (Quic.send q m g.quic).0 ≡ done
      → (g' : Gateway b q) × (forward_ipc_to_quic b q now env fuel g ≡ some (done, g'))
        × (pending g'.ipc.subscriber ≡ rest)
        × (writes.sent g'.quic.send ≡ writes.sent g.quic.send ++ frame_bytes m)
  unfolding forward_ipc_to_quic
  forward_ipc_to_quic_lem writes now env fuel m rest g (v, fits) some_fuel ipc_open quic_open holds
        sent =
      let (c, got, _, left) =
        receive_lem b laws now env fuel m rest g.ipc (v, fits) some_fuel ipc_open holds in
      (
        record { ipc = c; quic = (Quic.send q m g.quic).1 },
        rw (got, sent) refl,
        left,
        quic_send_lem writes m g.quic v quic_open sent,
      )

  -- A send over IPC publishes the message's frame or does not succeed.
  sent_or_failed :
      (m : Message) (c : IpcConnection b)
      → IsValid m
      → (((Ipc.send b m c).0 ≡ done)
          × (published (Ipc.send b m c).1.publisher ≡ published c.publisher ++ frame_of m ∷ []))
        ⊎ ((Ipc.send b m c).0 ≢ done)
  sent_or_failed m c v = elim (done-cases (Ipc.send b m c).0) [
    | inl sent ↦ inl (sent, send_lem b laws m c v sent)
    | inr failed ↦ inr failed
  ]

  -- A closed connection, or one whose slots are too small, refuses a message and stays as it is.
  send_refused :
      (m : Message) (c : IpcConnection b)
      → (c.closed ≡ true) ⊎ (max_ipc_payload_len < length m.payload)
      → (e : LaicError) × ((Ipc.send b m c).0 ≡ err e) × ((Ipc.send b m c).1 ≡ c)
  unfolding Ipc.send
  send_refused m c (inl closed) = rw closed (_, refl, refl)
  send_refused m c (inr long) = elim (Bool-cases c.closed) [
    | inl closed ↦ rw closed (_, refl, refl)
    | inr is_open ↦ rw (is_open, lt→ltb max_ipc_payload_len (length m.payload) long) (_, refl, refl)
  ]

  -- What arrives remotely leaves locally: where the QUIC side of a gateway is open and holds the
  -- bytes of a valid message within the framing limit, `forward_quic_to_ipc` takes them off in any
  -- case, and its result and the IPC side are those of sending that message there. Either it
  -- succeeds and has published the message's frame, or it does not succeed.
  pub forward_quic_to_ipc_lem :
      (reads : ReadLaws q.recv_stream) (m : Message) (rest : List ℕ) (g : Gateway b q)
      → WithinLimit m
      → g.quic.closed ≡ false
      → reads.queued g.quic.recv ≡ frame_bytes m ++ rest
      → (reads.queued (forward_quic_to_ipc b q g).1.quic.recv ≡ rest)
        × ((forward_quic_to_ipc b q g).0 ≡ (Ipc.send b m g.ipc).0)
        × ((forward_quic_to_ipc b q g).1.ipc ≡ (Ipc.send b m g.ipc).1)
        × ((((forward_quic_to_ipc b q g).0 ≡ done)
              × (published (forward_quic_to_ipc b q g).1.ipc.publisher
                  ≡ published g.ipc.publisher ++ frame_of m ∷ []))
            ⊎ ((forward_quic_to_ipc b q g).0 ≢ done))
  unfolding forward_quic_to_ipc Quic.receive
  forward_quic_to_ipc_lem reads m rest g (v, small) quic_open holds =
      let (got, left) = read_frame_lem q.recv_stream reads m rest g.quic.recv v small holds in
      rw (quic_open, got) (left, refl, refl, sent_or_failed m g.ipc v)

  -- The message that a failed forward loses: where the IPC side is closed, or the payload does not
  -- fit a slot, the bytes of a message that the open QUIC side holds are gone from it after
  -- `forward_quic_to_ipc`, which returns an error, and the IPC side is as before.
  pub forward_quic_to_ipc_lost :
      (reads : ReadLaws q.recv_stream) (m : Message) (rest : List ℕ) (g : Gateway b q)
      → WithinLimit m
      → g.quic.closed ≡ false
      → reads.queued g.quic.recv ≡ frame_bytes m ++ rest
      → (g.ipc.closed ≡ true) ⊎ (max_ipc_payload_len < length m.payload)
      → (e : LaicError) × ((forward_quic_to_ipc b q g).0 ≡ err e)
        × (reads.queued (forward_quic_to_ipc b q g).1.quic.recv ≡ rest)
        × ((forward_quic_to_ipc b q g).1.ipc ≡ g.ipc)
  forward_quic_to_ipc_lost reads m rest g limit quic_open holds refused =
      let (left, result, after, _) = forward_quic_to_ipc_lem reads m rest g limit quic_open holds in
      let (e, error, same) = send_refused m g.ipc refused in (e, result ∙ error, left, after ∙ same)

  -- `close` closes both sides, even where the QUIC side fails to finish its stream.
  pub close_both :
      (g : Gateway b q) → ((close b q g).1.ipc.closed ≡ true) × ((close b q g).1.quic.closed ≡ true)
  unfolding close Ipc.close
  close_both g = (refl, close-closed q g.quic)
