-- ===== src/Ota/Version/Eligible.antt =====
-- The order of versions in internal/ota/version.go.
use monitoreoedgeis.Prelude.{
  ◌+◌, ◌≡◌, ◌↔◌, refl, ap, ◌⊎◌, Bool, true, String, arith, ◌<◌, Result, ok, err,
}
use monitoreoedgeis.Prelude.Int.{ℤ, pos, ltb_ℤ, eqb_ℤ, pos_part, neg_part}
use monitoreoedgeis.Ota.Version.{
  Version, VersionError, Strings, cmp_int, compare_versions, judge, parse_version,
  is_update_eligible,
}

abbrev newer : Version → Version → Bool
newer v w = ltb_ℤ (pos 0) (compare_versions v w)

infix 50 ◌<ℤ◌
abbrev ◌<ℤ◌ : ℤ → ℤ → Type 0
a <ℤ b = pos_part a + neg_part b < pos_part b + neg_part a

infix 50 ◌=ℤ◌
abbrev ◌=ℤ◌ : ℤ → ℤ → Type 0
a =ℤ b = pos_part a + neg_part b ≡ pos_part b + neg_part a

-- The order by the major, then the minor, then the patch number.
abbrev IsBefore : Version → Version → Type 0
IsBefore u v =
    (u.major <ℤ v.major)
    ⊎ ((u.major =ℤ v.major)
        × ((u.minor <ℤ v.minor) ⊎ ((u.minor =ℤ v.minor) × (u.patch <ℤ v.patch))))

newer-IsBefore : (u v : Version) → newer v u ≡ true → IsBefore u v
unfolding compare_versions cmp_int ltb_ℤ eqb_ℤ
newer-IsBefore u v h = ground arith

IsBefore-newer : (u v : Version) → IsBefore u v → newer v u ≡ true
unfolding compare_versions cmp_int ltb_ℤ eqb_ℤ
IsBefore-newer u v h = ground arith

-- Both texts are versions, and the first is before the second.
abbrev pub AreInOrder : Result VersionError Version → Result VersionError Version → Type 0
AreInOrder a b = (u v : Version) × (a ≡ ok u) × (b ≡ ok v) × IsBefore u v

judge-AreInOrder :
    (strings : Strings) (a b : Result VersionError Version)
    → judge strings a b ≡ ok true
    → AreInOrder a b
unfolding judge
judge-AreInOrder strings (err e) b h = cc h
judge-AreInOrder strings (ok u) (err e) h = cc h
judge-AreInOrder strings (ok u) (ok v) h =
    (u, v, refl, refl, newer-IsBefore u v (ground (arith, h)))

AreInOrder-judge :
    (strings : Strings) (a b : Result VersionError Version)
    → AreInOrder a b
    → judge strings a b ≡ ok true
unfolding judge
AreInOrder-judge strings a b (u, v, p, q, before) = rw (p, q) (ap ok (IsBefore-newer u v before))

-- A candidate is an update of the current version exactly where both texts are versions and the
-- current one comes before the candidate: by its major number, or where these are equal by its minor
-- number, or where these are too by its patch number.
pub is_update_eligible_order :
    (strings : Strings) (current candidate : String)
    → (is_update_eligible strings current candidate ≡ ok true)
      ↔ AreInOrder (parse_version strings current) (parse_version strings candidate)
unfolding is_update_eligible
is_update_eligible_order strings current candidate = (
  judge-AreInOrder strings (parse_version strings current) (parse_version strings candidate),
  AreInOrder-judge strings (parse_version strings current) (parse_version strings candidate),
)
