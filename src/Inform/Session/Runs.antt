-- ===== src/Inform/Session/Runs.antt =====
-- inform/session.go: sequences of replies, and a factory reset.
use unifi_emu.Common.{ℕ, ◌≡◌, List, [], ◌∷◌, Text, Bytes, codes, text_eq, arith}
use unifi_emu.Inform.Descriptor.{Descriptor}
use unifi_emu.Inform.Session.{
  Session, Response, Decoder, new_session, apply_cmd, apply, factory_reset,
}
use unifi_emu.Inform.Session.Rules.{IsConsistent, new_session-IsConsistent, apply-IsConsistent}

-- The session after a list of replies, each with the time of its arrival.
unfoldable pub replies : Decoder → Session → List (ℕ × Bytes) → Session
replies d s [] = s
replies d s ((now, body) ∷ rest) = replies d (apply d s now body).0 rest

replies_keep :
    (d : Decoder) (s : Session) (rs : List (ℕ × Bytes))
    → IsConsistent s
    → IsConsistent (replies d s rs)
unfolding replies
replies_keep d s [] h = h
replies_keep d s ((now, body) ∷ rest) h =
    replies_keep d (apply d s now body).0 rest (apply-IsConsistent d s now body h)

-- Whatever replies a new device receives, in whatever order: while it is not adopted it holds the
-- default key, its packet header is its own MAC, and it echoes only the four keys of a setstate.
pub replies-IsConsistent :
    (d : Decoder) (desc : Descriptor) (url : Text) (boot : ℕ) (rs : List (ℕ × Bytes))
    → IsConsistent (replies d (new_session desc url boot) rs)
replies-IsConsistent d desc url boot rs =
    replies_keep d (new_session desc url boot) rs (new_session-IsConsistent desc url boot)

-- A factory reset gives the session that a new device with this descriptor (the upgraded version
-- kept), inform URL and boot time would have.
pub factory_reset-new :
    (s : Session) (now : ℕ) (r : Response)
    → IsConsistent s
    → r.cmd ≡ codes "setdefault"
    → apply_cmd s now r ≡ (new_session s.desc s.inform_url s.boot_time, factory_reset ∷ [])
unfolding apply_cmd new_session text_eq
factory_reset-new s now r h e = rw e (ground arith)
