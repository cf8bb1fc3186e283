-- ===== src/Emu/Loop/Handshake.antt =====
-- loop.go: how an inform moves a device between PENDING, ADOPTING and CONNECTED.
use unifi_emu.Common.{
  ℕ, ◌≡◌, ◌≢◌, refl, sym, ◌∙◌, ◌⊎◌, inl, inr, Bool, true, false, List, [], ◌∷◌, Text, Bytes, codes,
  text_eq, Result, ok, err, arith, Bool-cases, ◌==◌,
}
use unifi_emu.Inform.Session.{
  Session, Response, Decoder, Effect, default_key, apply_setparam, apply_setstate, setstate_decoded,
  apply_upgrade, apply_noop, dispatch, apply,
}
use unifi_emu.Inform.Crypto
use unifi_emu.Inform.Packet.{Packet, decode}
use unifi_emu.Inform.Payload.{encode_inform}
use unifi_emu.Emu.Device.{
  Device, DeviceState, pending, adopting, connected, reflect, reflect_all, apply_response,
}
use unifi_emu.Emu.Device.Laws.{IsCoherent, reflected, apply_response-IsCoherent}
use unifi_emu.Inform.Session.Rules.{text_ne}
use unifi_emu.Emu.Loop.{
  World, Exchange, unanswered, cancelled, answered, note_status, complete, is_adopting,
  handle_payload, handle_decoded, handle_body, handle_status, handle_exchange, send, inform_once,
  status_ok_code, status_not_found_code,
}

-- The status bookkeeping touches neither the session nor the state.
note_status_keeps :
    (d : Device) (status now : ℕ)
    → ((note_status d status now).0.session ≡ d.session)
      × ((note_status d status now).0.state ≡ d.state)
unfolding note_status
note_status_keeps d status now = ground arith

-- What an inform establishes of the session and the state, it is enough to establish of a device
-- that stays as it was and of the handling of a payload.
module _ {ℓ} (P Q : Session → DeviceState → Type ℓ) (w : World) (now : ℕ)
    (on_stay : (s : Session) (st : DeviceState) → P s st → Q s st)
    (on_payload : (d : Device) (payload : Bytes)
      → P d.session d.state
      → Q (handle_payload w d now payload).0.session (handle_payload w d now payload).0.state) where
  abbrev Before : Device → Type ℓ
  Before d = P d.session d.state

  abbrev After : Device → Type ℓ
  After d = Q d.session d.state

  stays : (d : Device) → Before d → After d
  stays d h = on_stay d.session d.state h

  decoded_keeps :
      (d : Device) (o : Result Crypto.Error Packet) → Before d → After (handle_decoded w d now o).0
  decoded_keeps d (err e) h = stays d h
  decoded_keeps d (ok p) h = on_payload d p.payload h

  body_keeps :
      (d : Device) (key : Text) (body : Bytes) → Before d → After (handle_body w d key now body).0
  body_keeps d key [] h = stays d h
  body_keeps d key (b ∷ body) h = decoded_keeps d (decode w.ciphers (b ∷ body) key) h

  status_keeps :
      (d : Device) (key : Text) (status : ℕ) (body : Bytes)
      → Before d
      → After (handle_status w d key now status body).0
  unfolding handle_status
  status_keeps d key status body h = elim (Bool-cases (status == status_not_found_code)) [
    | inl e ↦ rw e (stays d h)
    | inr e ↦ elim (Bool-cases (status == status_ok_code)) [
      | inl f ↦ rw (e, f) (body_keeps d key body h)
      | inr f ↦ rw (e, f) (stays d h)
    ]
  ]

  exchange_keeps :
      (d : Device) (key : Text) (x : Exchange) → Before d → After (handle_exchange w d key now x).0
  exchange_keeps d key unanswered h = stays d h
  exchange_keeps d key cancelled h = stays d h
  exchange_keeps d key (answered status body) h =
      let (e, f) = note_status_keeps d status now in
      status_keeps (note_status d status now).0 key status body (rw (e, f) h)

  send_keeps :
      (d : Device) (network : Text → Bytes → Exchange) (o : Result Crypto.Error Bytes)
      → Before d
      → After (send w d now network o).0
  send_keeps d network (err e) h = stays d h
  send_keeps d network (ok enc) h =
      exchange_keeps d d.session.key (network d.session.inform_url enc) h

  pub inform_keeps :
      (d : Device) (iv : Bytes) (network : Text → Bytes → Exchange)
      → Before d
      → After (inform_once w d now iv network).0
  unfolding inform_once
  inform_keeps d iv network h =
      send_keeps d network (encode_inform w.ciphers w.marshal d.session now iv) h

complete-IsCoherent : (b : Bool) (d : Device) → IsCoherent d → IsCoherent (complete b d).0
unfolding complete
complete-IsCoherent b d h = ground arith

handle_payload-IsCoherent :
    (w : World) (now : ℕ) (d : Device) (payload : Bytes)
    → IsCoherent d
    → IsCoherent (handle_payload w d now payload).0
unfolding handle_payload
handle_payload-IsCoherent w now d payload h =
    complete-IsCoherent (is_adopting d.state) (apply_response w.decoder d now payload).0
      (apply_response-IsCoherent w.decoder d now payload h)

abbrev Agrees : Session → DeviceState → Type 0
Agrees s st = (st ≡ pending → s.adopted ≡ false) × (s.adopted ≡ false → st ≡ pending)

-- An inform, whatever the network answers, leaves the device PENDING exactly when its session is not
-- adopted, if it was so before.
pub inform_once-IsCoherent :
    (w : World) (d : Device) (now : ℕ) (iv : Bytes) (network : Text → Bytes → Exchange)
    → IsCoherent d
    → IsCoherent (inform_once w d now iv network).0
inform_once-IsCoherent w d now iv network h =
    let (a, b) =
      inform_keeps Agrees Agrees w now (λ s st g. g)
        (λ e payload g.
          let k =
            handle_payload-IsCoherent w now e payload
              (record { pending_unadopted = g.0; unadopted_pending = g.1 }) in
          (k.pending_unadopted, k.unadopted_pending))
        d iv network (h.pending_unadopted, h.unadopted_pending) in
    record { pending_unadopted = a; unadopted_pending = b }

reflect_connected :
    (d : Device) (e : Effect) → (reflect d e).0.state ≡ connected → d.state ≡ connected
unfolding reflect
reflect_connected d e h = ground arith

reflect_all_connected :
    (d : Device) (es : List Effect) → (reflect_all d es).0.state ≡ connected → d.state ≡ connected
reflect_all_connected d [] h = unfold reflect_all in h
reflect_all_connected d (e ∷ es) h =
    reflect_connected d e (reflect_all_connected (reflect d e).0 es (unfold reflect_all in h))

handle_payload_connected :
    (w : World) (now : ℕ) (d : Device) (payload : Bytes)
    → (handle_payload w d now payload).0.state ≡ connected
    → (d.state ≡ connected) ⊎ (d.state ≡ adopting)
unfolding handle_payload apply_response complete
handle_payload_connected w now d payload h =
    let (s, es) = apply w.decoder d.session now payload in
    ground (arith, reflect_all_connected (record d { session = s }) es)

-- An inform never takes a device from PENDING to CONNECTED: after it a device is CONNECTED only if it
-- was CONNECTED or ADOPTING before.
pub connected_from_adopting :
    (w : World) (d : Device) (now : ℕ) (iv : Bytes) (network : Text → Bytes → Exchange)
    → (inform_once w d now iv network).0.state ≡ connected
    → (d.state ≡ connected) ⊎ (d.state ≡ adopting)
connected_from_adopting w d now iv network =
    inform_keeps (λ s st. st ≡ d.state)
      (λ s st. st ≡ connected → (d.state ≡ connected) ⊎ (d.state ≡ adopting)) w now
      (λ s st e c. inl (sym e ∙ c))
      (λ e payload same c. rw same at (handle_payload_connected w now e payload c)) d iv network
      refl

-- While the session keeps its own key, a reply that is no command leaves state and adoption alone.
setparam_still :
    (d : Device) (r : Response)
    → text_eq d.session.key default_key ≡ false
    → ((reflected d (apply_setparam d.session r)).state ≡ d.state)
      × ((reflected d (apply_setparam d.session r)).session.adopted ≡ d.session.adopted)
unfolding apply_setparam reflect_all
setparam_still d r h = ground arith

setstate_still :
    (d : Device) (v : Text) (m : Result Text (List (Text × Bytes)))
    → ((reflected d (setstate_decoded d.session v m)).state ≡ d.state)
      × ((reflected d (setstate_decoded d.session v m)).session.adopted ≡ d.session.adopted)
unfolding reflect_all
setstate_still d v (err e) = (refl, refl)
setstate_still d v (ok raw) = (refl, refl)

dispatch_still :
    (dec : Decoder) (d : Device) (now : ℕ) (body : Bytes) (r : Response)
    → text_eq r.type (codes "cmd") ≡ false
    → text_eq d.session.key default_key ≡ false
    → ((reflected d (dispatch dec d.session now body r)).state ≡ d.state)
      × ((reflected d (dispatch dec d.session now body r)).session.adopted ≡ d.session.adopted)
unfolding dispatch apply_upgrade apply_noop apply_setstate reflect_all
dispatch_still dec d now body r nc nk =
    ground (arith, setparam_still d r nk, setstate_still d r.cfgversion (dec.members body))

apply_response_still :
    (dec : Decoder) (d : Device) (now : ℕ) (body : Bytes) (r : Response)
    → dec.response body ≡ ok r
    → r.type ≢ codes "cmd"
    → d.session.key ≢ default_key
    → ((apply_response dec d now body).0.state ≡ d.state)
      × ((apply_response dec d now body).0.session.adopted ≡ d.session.adopted)
unfolding apply_response apply
apply_response_still dec d now body r e nc nk = rw e (
    dispatch_still dec d now body r (text_ne r.type (codes "cmd") nc)
      (text_ne d.session.key default_key nk))

handle_payload_completes :
    (w : World) (d : Device) (now : ℕ) (body : Bytes) (r : Response)
    → IsCoherent d
    → d.state ≡ adopting
    → w.decoder.response body ≡ ok r
    → r.type ≢ codes "cmd"
    → d.session.key ≢ default_key
    → (handle_payload w d now body).0.state ≡ connected
unfolding handle_payload complete
handle_payload_completes w d now body r h st e nc nk =
    let (a, b) = apply_response_still w.decoder d now body r e nc nk in
    let adopted : d.session.adopted ≡ true = ground (arith, h.unadopted_pending) in
    rw (b, a, st, adopted)

-- An ADOPTING device that holds a key of its own becomes CONNECTED with the next inform that is
-- answered 200 with a packet that decodes to any reply but a command.
pub adopting_completes :
    (w : World) (d : Device) (now : ℕ) (iv : Bytes) (network : Text → Bytes → Exchange)
    (enc : Bytes) (b : ℕ) (body : Bytes) (p : Packet) (r : Response)
    → IsCoherent d
    → d.state ≡ adopting
    → d.session.key ≢ default_key
    → encode_inform w.ciphers w.marshal d.session now iv ≡ ok enc
    → network d.session.inform_url enc ≡ answered 200 (b ∷ body)
    → decode w.ciphers (b ∷ body) d.session.key ≡ ok p
    → w.decoder.response p.payload ≡ ok r
    → r.type ≢ codes "cmd"
    → (inform_once w d now iv network).0.state ≡ connected
unfolding inform_once handle_status
adopting_completes w d now iv network enc b body p r h st nk he hn hd hr nc =
    let d1 = (note_status d 200 now).0 in
    let (e, f) = note_status_keeps d 200 now in
    let h1 : IsCoherent d1 = record {
      pending_unadopted = λ q. rw e (h.pending_unadopted (sym f ∙ q));
      unadopted_pending = λ q. f ∙ h.unadopted_pending (rw e at q);
    } in
    rw (he, hn, hd) (handle_payload_completes w d1 now p.payload r h1 (f ∙ st) hr nc (rw e nk))
