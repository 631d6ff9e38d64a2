-- ===== src/Api/Users/LastAdmin.antt =====
-- The handlers of internal/api/users.go never leave an organization without an active admin that
-- had one.
use iot_backend.Base.{
  ◌≤◌, ◌<◌, String, Bool, true, false, [], ◌∷◌, Option, none, some, not, ◌==◌, str_eq, filter,
  find?, count, ◌≡◌, inl, inr, arith, or_else, Bool-cases, count-append, find?-sound, ==_iff,
}
use native.Mathlib.Nat.{le_trans}
use iot_backend.Models.{Uuid, User, role_org_admin, status_active}
use iot_backend.Repository.{Env, Tables}
use iot_backend.Repository.Users.{is_user, is_active_admin}
use iot_backend.Repository.Users.Counts.{
  admins, HasUserIds, count-update_where-le, count-update_where-found, count-is_user_le,
  count_id-with_values, count-filter-le, count-filter-ge, count-filter-found, count_id-free,
}
use iot_backend.Repository.Users.Effects.{with_values, IsPartOf, IsPatched}
use iot_backend.Repository.Users.Growth.{removed, IsGrown, same, grown}
use iot_backend.Api.Users.{is_other, is_acting_admin}
use iot_backend.Api.Users.Effect.{
  Effect, nothing, patched_row, removed_row, added_row, Guarded, takes_away,
}

-- What a handler keeps: identifiers stay unique, and an organization with an active admin keeps
-- one.
pub record IsKept (t t' : Tables) : Type 0 where
  pub ids : HasUserIds t → HasUserIds t'
  pub manned : (o : Uuid) → HasUserIds t → 1 ≤ admins o t → 1 ≤ admins o t'

pub IsKept-refl : {t t' : Tables} → t' ≡ t → IsKept t t'
IsKept-refl e = record { ids = λ h. rw e h; manned = λ o h k. rw e k }

pub IsKept-trans : {t u v : Tables} → IsKept t u → IsKept u v → IsKept t v
IsKept-trans h k = record {
  ids = λ i. k.ids (h.ids i);
  manned = λ o i a. k.manned o (h.ids i) (h.manned o i a);
}

-- An optional new value keeps what stands, where the given one does not set another.
kept_value :
    (given made : Option String) (old wanted : String)
    → IsPartOf made given
    → is_other given wanted ≡ false
    → str_eq old wanted ≡ true
    → str_eq (or_else made old) wanted ≡ true
kept_value none none old wanted part agree h = h
kept_value none (some m) old wanted part agree h = ground arith
kept_value (some g) none old wanted part agree h = h
kept_value (some g) (some m) old wanted part agree h = ground arith

module _ (org_id id : Uuid) where
  selected-le : (t : Tables) → HasUserIds t → count (is_user org_id id) t.users ≤ 1
  selected-le t h = omega (arith, count-is_user_le org_id id t.users, h id)

  module _ (r : Option String) (c : Option Bool) (s : Option String) (t : Tables) (target : User)
      (found : find? (is_user org_id id) t.users ≡ some target)
      (guarded : Guarded (takes_away r s target) org_id t) where
    acting_after :
        (o : Uuid) (r' : Option String) (c' : Option Bool) (s' : Option String)
        → IsPartOf r' r
        → IsPartOf s' s
        → takes_away r s target ≡ false
        → is_active_admin o target ≡ true
        → is_active_admin o (with_values r' c' s' target) ≡ true
    unfolding is_acting_admin
    acting_after o r' c' s' rp sp stays h = ground (
      arith,
      kept_value r r' target.role role_org_admin,
      kept_value s s' target.status status_active,
    )

    elsewhere :
        (o : Uuid) (u : User)
        → (o == org_id) ≡ false
        → is_user org_id id u ≡ true
        → is_active_admin o u ≡ true
        → true ≡ false
    elsewhere o u other chosen h = ground arith

    patched-manned :
        (o : Uuid) (t' : Tables)
        → HasUserIds t
        → IsPatched org_id id r c s t t'
        → 1 ≤ admins o t
        → 1 ≤ admins o t'
    patched-manned o t' ids made one =
        let f = with_values made.role made.can_export made.status in
        let sel = is_user org_id id in
        let one_row = selected-le t ids in
        let chosen = find?-sound sel t.users found in
        rw made.tables (elim (Bool-cases (takes_away r s target)) [
          | inr stays ↦ le_trans one (
              count-update_where-found (is_active_admin o) sel f t.users target one_row found (
                acting_after o made.role made.can_export made.status made.role_part made.status_part
                  stays))
          | inl goes ↦ elim (Bool-cases (o == org_id)) [
            | inl here ↦
                let same : o ≡ org_id = (==_iff o org_id).0 here in
                let others : 1 < admins o t = rw same (guarded goes) in
                omega (arith, count-update_where-le (is_active_admin o) sel f t.users)
            | inr there ↦ le_trans one (
                count-update_where-found (is_active_admin o) sel f t.users target one_row found
                  (λ h. cc (elsewhere o target there chosen h)))
          ]
        ])

    patched-IsKept : {t' : Tables} → IsPatched org_id id r c s t t' → IsKept t t'
    patched-IsKept {t'} made = record {
      ids = λ h j. rw made.tables (
          rw (count_id-with_values org_id id j made.role made.can_export made.status t.users)
            (h j));
      manned = λ o h one. patched-manned o t' h made one;
    }

  module _ (t : Tables) (target : User) (found : find? (is_user org_id id) t.users ≡ some target)
      (guarded : Guarded (is_acting_admin target) org_id t) where
    removed-manned :
        (o : Uuid)
        → HasUserIds t
        → 1 ≤ admins o t
        → 1 ≤ count (is_active_admin o) (filter (λ u. not (is_user org_id id u)) t.users)
    unfolding is_acting_admin
    removed-manned o ids one = elim (Bool-cases (is_active_admin o target)) [
      | inl acts ↦
          let same : o ≡ org_id = ground (arith, find?-sound (is_user org_id id) t.users found) in
          let others : 1 < admins o t = rw same (guarded (ground arith)) in
          omega (
            arith,
            count-filter-le (is_active_admin o) (is_user org_id id) t.users,
            selected-le t ids,
          )
      | inr idle ↦ le_trans one (
          count-filter-found (is_active_admin o) (is_user org_id id) t.users target
            (selected-le t ids) found idle)
    ]

    removed-IsKept : {t' : Tables} → t' ≡ removed org_id id t → IsKept t t'
    removed-IsKept made = record {
      ids = λ h j.
          rw made (le_trans (count-filter-ge (λ u. u.id == j) (is_user org_id id) t.users) (h j));
      manned = λ o h one. rw made (removed-manned o h one);
    }

grown-IsKept : (env : Env) (org_id : Uuid) (t t' : Tables) → IsGrown env org_id t t' → IsKept t t'
grown-IsKept env org_id t t' (same e) = IsKept-refl e
grown-IsKept env org_id t t' (grown v free org e) = record {
  ids = λ h j.
      rw (e, count-append (λ u. u.id == j) t.users (v ∷ []))
        (ground (arith, h j, count_id-free env v t.users));
  manned = λ o h one. rw (e, count-append (is_active_admin o) t.users (v ∷ [])) (omega arith);
}

pub Effect-IsKept :
    {env : Env} {org_id : Uuid} {t t' : Tables} → Effect env org_id t t' → IsKept t t'
Effect-IsKept (nothing e) = IsKept-refl e
Effect-IsKept {org_id} {t} (patched_row id r c s target found guarded made) =
    patched-IsKept org_id id r c s t target found guarded made
Effect-IsKept {org_id} {t} (removed_row id target found guarded made) =
    removed-IsKept org_id id t target found guarded made
Effect-IsKept {env} {org_id} {t} {t'} (added_row org found room made) =
    grown-IsKept env org_id t t' made
