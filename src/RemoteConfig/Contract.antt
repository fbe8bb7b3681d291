-- ===== src/RemoteConfig/Contract.antt =====
-- internal/remoteconfig/contract.go: the versioned document, its equality and its statuses.
use monitoreoedgeis.Prelude.{
  ◌≡◌, Bool, true, false, Option, none, some, String, str_eq, eq_refl, if◌then◌else◌,
}
use monitoreoedgeis.Prelude.Int.{ℤ, eqb_ℤ, eqb_ℤ_refl}

-- The payload is the raw JSON text; the version is an int64.
pub record Config : Type 0 where
  pub version : ℤ
  pub payload : String

pub data ApplyStatus : Type 0 where
  pending applying applied failed rolled_back : ApplyStatus

-- `json.Unmarshal` into `any` and `json.Marshal` back: `none` where either fails.
abbrev pub Normalizer : Type 0
Normalizer = String → Option String

unfoldable pub canonicalize : Normalizer → String → String
canonicalize normalize raw =
    if str_eq raw "" then raw else elim (normalize raw) [ none ↦ raw | some out ↦ out ]

-- `Config.Equal`.
unfoldable pub equal : Normalizer → Config → Config → Bool
equal normalize c other =
    if eqb_ℤ c.version other.version
    then str_eq (canonicalize normalize c.payload) (canonicalize normalize other.payload)
    else false

pub equal_refl : (normalize : Normalizer) (c : Config) → equal normalize c c ≡ true
unfolding equal
equal_refl normalize c = rw (eqb_ℤ_refl c.version, eq_refl (canonicalize normalize c.payload))
