-- ===== src/Ai/Severity.antt =====
-- The severities of app/internal/ai/ai.go, and how a model's answer is mapped onto them.
use maroon_ledger.Base.{◌≡◌, refl, Bool, true, false, ◌||◌, arith, if◌then◌else◌}
use maroon_ledger.Go.Bytes.{Bytes, bytes, bytes_eq, bytes_eq_iff, bytes_eq_refl}

abbrev pub severity_none : Bytes
severity_none = bytes "none"

abbrev pub severity_low : Bytes
severity_low = bytes "low"

abbrev pub severity_medium : Bytes
severity_medium = bytes "medium"

abbrev pub severity_high : Bytes
severity_high = bytes "high"

-- ValidSeverity
unfoldable pub valid_severity : Bytes → Bytes
valid_severity s =
    if bytes_eq s severity_low
    then severity_low
    else if bytes_eq s severity_medium
    then severity_medium
    else if bytes_eq s severity_high
    then severity_high
    else severity_none

-- One of the four severities, as the CHECK constraint of the column lists them.
unfoldable pub is_severity : Bytes → Bool
is_severity s =
    bytes_eq s severity_none
    || (bytes_eq s severity_low || (bytes_eq s severity_medium || bytes_eq s severity_high))

-- A severity that the dashboard surfaces: `IN ('medium', 'high')`.
unfoldable pub is_alert : Bytes → Bool
is_alert s = bytes_eq s severity_medium || bytes_eq s severity_high

pub valid_severity-IsSeverity : (s : Bytes) → is_severity (valid_severity s) ≡ true
unfolding valid_severity is_severity
valid_severity-IsSeverity s = ground (
  arith,
  bytes_eq_refl severity_none,
  bytes_eq_refl severity_low,
  bytes_eq_refl severity_medium,
  bytes_eq_refl severity_high,
)

pub severities_distinct :
    (bytes_eq severity_none severity_low ≡ false)
    × (bytes_eq severity_none severity_medium ≡ false)
    × (bytes_eq severity_none severity_high ≡ false)
    × (bytes_eq severity_low severity_none ≡ false)
    × (bytes_eq severity_medium severity_none ≡ false)
    × (bytes_eq severity_high severity_none ≡ false)
    × (bytes_eq severity_low severity_medium ≡ false)
    × (bytes_eq severity_low severity_high ≡ false)
unfolding bytes_eq bytes
severities_distinct = (refl, refl, refl, refl, refl, refl, refl, refl)

-- A string that is not one of the four severities never becomes an alert: ValidSeverity maps it to
-- `none`; and each of the four is kept as it is.
pub valid_severity_closed :
    (s : Bytes)
    → (is_severity (valid_severity s) ≡ true)
      × (is_severity s ≡ true → valid_severity s ≡ s)
      × (is_severity s ≡ false → valid_severity s ≡ severity_none)
unfolding valid_severity is_severity
valid_severity_closed s = (
  valid_severity-IsSeverity s,
  ground (
    arith,
    bytes_eq_iff s severity_none,
    bytes_eq_iff s severity_low,
    bytes_eq_iff s severity_medium,
    bytes_eq_iff s severity_high,
  ),
  ground arith,
)
