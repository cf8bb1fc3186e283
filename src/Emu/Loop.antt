-- ===== src/Emu/Loop.antt =====
-- loop.go: one inform of a device and the tracking of its HTTP status.
-- The network is a function from the request to its outcome.
pub mod Handshake
pub mod Runs
mod Tests
use unifi_emu.Common.{
  ℕ, ◌+◌, ◌-◌, ◌*◌, ◌≡◌, Bool, true, false, ◌&&◌, List, [], ◌∷◌, ◌++◌, Text, Bytes, ltb, ◌==◌,
  if◌then◌else◌, Result, ok, err,
}
use unifi_emu.Common.Int.{nanoseconds}
use unifi_emu.Inform.Session.{Decoder}
use unifi_emu.Inform.Crypto.{Ciphers}
use unifi_emu.Inform.Crypto
use unifi_emu.Inform.Packet.{Packet, decode}
use unifi_emu.Inform.Payload.{Payload, encode_inform}
use unifi_emu.Emu.Device.{
  Device, DeviceState, pending, adopting, connected, Log, encode_failed, request_failed,
  status_not_found, status_first, status_after, status_still, unexpected_status, decode_failed,
  handshake_complete, apply_response,
}

abbrev pub inform_status_heartbeat : ℕ
inform_status_heartbeat = 60 * nanoseconds

abbrev pub status_not_found_code : ℕ
status_not_found_code = 404

abbrev pub status_ok_code : ℕ
status_ok_code = 200

abbrev pub transition_log : ℕ → ℕ → ℕ → Log
transition_log status prev run =
    if status == status_not_found_code
    then status_not_found status
    else if prev == 0
    then status_first status
    else status_after status run prev

-- `noteStatus`, at the time `now`.
unfoldable pub note_status : Device → ℕ → ℕ → Device × List Log
note_status d status now =
    if status == d.last_status
    then (let run = d.status_run + 1 in
        if ltb (now - d.last_status_log) inform_status_heartbeat
        then (record d { status_run = run }, [])
        else (record d { status_run = run; last_status_log = now }, status_still status run ∷ []))
    else (
      record d { last_status = status; status_run = 1; last_status_log = now },
      transition_log status d.last_status d.status_run ∷ [],
    )

abbrev pub is_adopting : DeviceState → Bool
is_adopting adopting = true
is_adopting _ = false

-- The end of `informOnce`: CONNECTED, if the inform was sent adopting and the session is adopted.
unfoldable pub complete : Bool → Device → Device × List Log
complete was_adopting d =
    if was_adopting && (d.session.adopted && is_adopting d.state)
    then (record d { state = connected }, handshake_complete ∷ [])
    else (d, [])

-- The outcome of a request: none (or a reply that could not be read), the cancellation of the
-- context, or a status with a body.
pub data Exchange : Type 0 where
  unanswered : Exchange
  cancelled : Exchange
  answered : ℕ → Bytes → Exchange

-- What stays the same over the informs of a device: the ciphers and the two JSON directions.
pub record World : Type 0 where
  pub ciphers : Ciphers
  pub decoder : Decoder
  pub marshal : Payload → Bytes

-- The reply that arrived while the device was in `was_adopting`.
unfoldable pub handle_payload : World → Device → ℕ → Bytes → Device × List Log
handle_payload w d now payload =
    let (d1, logs1) = apply_response w.decoder d now payload in
    let (d2, logs2) = complete (is_adopting d.state) d1 in (d2, logs1 ++ logs2)

abbrev pub handle_decoded : World → Device → ℕ → Result Crypto.Error Packet → Device × List Log
handle_decoded w d now (err e) = (d, decode_failed ∷ [])
handle_decoded w d now (ok p) = handle_payload w d now p.payload

-- The body of a 200 that is not empty.
abbrev pub handle_body : World → Device → Text → ℕ → Bytes → Device × List Log
handle_body w d key now [] = (d, [])
handle_body w d key now (b ∷ body) = handle_decoded w d now (decode w.ciphers (b ∷ body) key)

unfoldable pub handle_status : World → Device → Text → ℕ → ℕ → Bytes → Device × List Log
handle_status w d key now status body =
    if status == status_not_found_code
    then (d, [])
    else if status == status_ok_code
    then handle_body w d key now body
    else (d, unexpected_status status ∷ [])

abbrev pub handle_exchange : World → Device → Text → ℕ → Exchange → Device × List Log
handle_exchange w d key now unanswered = (d, request_failed ∷ [])
handle_exchange w d key now cancelled = (d, [])
handle_exchange w d key now (answered status body) =
    let (d1, logs1) = note_status d status now in
    let (d2, logs2) = handle_status w d1 key now status body in (d2, logs1 ++ logs2)

abbrev pub send :
    World → Device → ℕ → (Text → Bytes → Exchange) → Result Crypto.Error Bytes → Device × List Log
send w d now network (err e) = (d, encode_failed ∷ [])
send w d now network (ok enc) =
    handle_exchange w d d.session.key now (network d.session.inform_url enc)

-- `informOnce`: the clock, the random IV and the network are given. One reading of the clock stands
-- for the three of the source.
unfoldable pub inform_once :
    World → Device → ℕ → Bytes → (Text → Bytes → Exchange) → Device × List Log
inform_once w d now iv network =
    send w d now network (encode_inform w.ciphers w.marshal d.session now iv)
