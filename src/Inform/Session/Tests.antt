-- ===== src/Inform/Session/Tests.antt =====
-- The rules of a session at one device.
use unifi_emu.Common.{◌≡◌, refl, [], ◌∷◌, codes}
use unifi_emu.Inform.Session.{apply, apply_cmd, new_session, factory_reset}
use unifi_emu.Inform.Session.Rules.{IsConsistent, key_kept, new_session-IsConsistent}
use unifi_emu.Inform.Session.Runs.{replies, replies-IsConsistent, factory_reset-new}
use unifi_emu.Inform.Samples.{
  sample_desc, sample_session, adopted_session, sample_decoder, setparam_response,
  setdefault_response, own_key-ne-default_key,
}

key_kept_example :
    ((apply sample_decoder adopted_session 9 (2 ∷ [])).0.key ≡ adopted_session.key)
    × ((apply sample_decoder adopted_session 9 (2 ∷ [])).0.adopted ≡ adopted_session.adopted)
key_kept_example =
    key_kept sample_decoder adopted_session 9 (2 ∷ []) setparam_response refl (λ e. cc)
      own_key-ne-default_key

replies-IsConsistent_example : IsConsistent (
    replies sample_decoder
      (new_session sample_desc (codes "http://10.0.0.1:8080/inform") 0)
      ((1, 2 ∷ []) ∷ (2, 3 ∷ []) ∷ (3, 2 ∷ []) ∷ []))
replies-IsConsistent_example =
    replies-IsConsistent sample_decoder sample_desc (codes "http://10.0.0.1:8080/inform") 0
      ((1, 2 ∷ []) ∷ (2, 3 ∷ []) ∷ (3, 2 ∷ []) ∷ [])

factory_reset-new_example :
    apply_cmd sample_session 9 setdefault_response
    ≡ (new_session sample_desc (codes "http://10.0.0.1:8080/inform") 0, factory_reset ∷ [])
unfolding new_session
factory_reset-new_example =
    factory_reset-new sample_session 9 setdefault_response
      (new_session-IsConsistent sample_desc (codes "http://10.0.0.1:8080/inform") 0) refl
