-- ===== src/Syslog/Priority.antt =====
-- security/audit/syslog_handler.py: the PRI field that `_format_message` writes.
use kuva_ai.Prelude.{ℕ, ◌+◌, ◌*◌, ◌/◌, ◌%◌, ◌≤◌, arith, ◌≡◌}

pub data SyslogFacility : Type 0 where
  kern user mail daemon auth syslog lpr news uucp cron authpriv ftp ntp audit alert clock :
      SyslogFacility
  local0 local1 local2 local3 local4 local5 local6 local7 : SyslogFacility

pub data SyslogSeverity : Type 0 where
  emergency alerting critical error warning notice info debug : SyslogSeverity

unfoldable pub facility_value : SyslogFacility → ℕ
facility_value kern = 0
facility_value user = 1
facility_value mail = 2
facility_value daemon = 3
facility_value auth = 4
facility_value syslog = 5
facility_value lpr = 6
facility_value news = 7
facility_value uucp = 8
facility_value cron = 9
facility_value authpriv = 10
facility_value ftp = 11
facility_value ntp = 12
facility_value audit = 13
facility_value alert = 14
facility_value clock = 15
facility_value local0 = 16
facility_value local1 = 17
facility_value local2 = 18
facility_value local3 = 19
facility_value local4 = 20
facility_value local5 = 21
facility_value local6 = 22
facility_value local7 = 23

unfoldable pub severity_value : SyslogSeverity → ℕ
severity_value emergency = 0
severity_value alerting = 1
severity_value critical = 2
severity_value error = 3
severity_value warning = 4
severity_value notice = 5
severity_value info = 6
severity_value debug = 7

-- `pri`
unfoldable pub pri : SyslogFacility → SyslogSeverity → ℕ
pri f s = facility_value f * 8 + severity_value s

facility_value-le : (f : SyslogFacility) → facility_value f ≤ 23
unfolding facility_value
facility_value-le kern = omega arith
facility_value-le user = omega arith
facility_value-le mail = omega arith
facility_value-le daemon = omega arith
facility_value-le auth = omega arith
facility_value-le syslog = omega arith
facility_value-le lpr = omega arith
facility_value-le news = omega arith
facility_value-le uucp = omega arith
facility_value-le cron = omega arith
facility_value-le authpriv = omega arith
facility_value-le ftp = omega arith
facility_value-le ntp = omega arith
facility_value-le audit = omega arith
facility_value-le alert = omega arith
facility_value-le clock = omega arith
facility_value-le local0 = omega arith
facility_value-le local1 = omega arith
facility_value-le local2 = omega arith
facility_value-le local3 = omega arith
facility_value-le local4 = omega arith
facility_value-le local5 = omega arith
facility_value-le local6 = omega arith
facility_value-le local7 = omega arith

severity_value-le : (s : SyslogSeverity) → severity_value s ≤ 7
unfolding severity_value
severity_value-le emergency = omega arith
severity_value-le alerting = omega arith
severity_value-le critical = omega arith
severity_value-le error = omega arith
severity_value-le warning = omega arith
severity_value-le notice = omega arith
severity_value-le info = omega arith
severity_value-le debug = omega arith

-- The priority is at most 191, as RFC 5424 has it, and both of its parts can be read from it.
pub pri-decodes :
    (f : SyslogFacility) (s : SyslogSeverity)
    → (pri f s ≤ 191) × (pri f s / 8 ≡ facility_value f) × (pri f s % 8 ≡ severity_value s)
unfolding pri
pri-decodes f s = (
  omega (arith, facility_value-le f, severity_value-le s),
  omega (arith, severity_value-le s),
  omega (arith, severity_value-le s),
)
