-- ===== src/Inform/Payload/Tests.antt =====
-- What a new device reports.
use unifi_emu.Common.{◌≡◌, not, if◌then◌else◌, some, codes}
use unifi_emu.Common.Int.{pos}
use unifi_emu.Common.Assoc.{lookup}
use unifi_emu.Inform.Json.{str, num, bool}
use unifi_emu.Inform.Session.Rules.{new_session-IsConsistent}
use unifi_emu.Inform.Payload.{build_payload}
use unifi_emu.Inform.Payload.Laws.{payload_reports}
use unifi_emu.Inform.Samples.{sample_desc, sample_session}

payload_reports_example :
    (lookup (codes "state") (build_payload sample_session 5)
      ≡ some (num (pos (if sample_session.adopted then 4 else 1))))
    × (lookup (codes "default") (build_payload sample_session 5)
        ≡ some (bool (not sample_session.adopted)))
    × (lookup (codes "_default_key") (build_payload sample_session 5)
        ≡ some (bool (not sample_session.adopted)))
    × (lookup (codes "x_authkey") (build_payload sample_session 5) ≡ some (str sample_session.key))
    × (lookup (codes "cfgversion") (build_payload sample_session 5)
        ≡ some (str sample_session.cfgversion))
    × (lookup (codes "inform_url") (build_payload sample_session 5)
        ≡ some (str sample_session.inform_url))
payload_reports_example =
    payload_reports sample_session 5
      (new_session-IsConsistent sample_desc (codes "http://10.0.0.1:8080/inform") 0)
