-- ===== src/Api/Users/Limit.antt =====
-- The user handlers keep every organization within its limit of users, and leave the users of
-- other organizations alone.
use iot_backend.Base.{
  ◌≤◌, ◌<◌, String, Bool, false, List, [], ◌∷◌, ◌++◌, Option, some, not, ◌==◌, ◌≡◌, refl, arith,
  find?, filter, count, count-append, Bool-cases, inl, inr, ==_iff, sym, ◌∙◌,
}
use native.Mathlib.Nat.{le_trans}
use iot_backend.Models.{Uuid, User, Organization}
use iot_backend.Repository.{Env, Tables, update_where}
use iot_backend.Repository.Users.{is_user, in_org}
use iot_backend.Repository.Users.Counts.{count-filter-ge}
use iot_backend.Repository.Users.Effects.{with_values}
use iot_backend.Repository.Users.Growth.{same, grown, IsGrown}
use iot_backend.Api.Users.Effect.{Effect, nothing, patched_row, removed_row, added_row}

-- No organization has more users than its limit.
abbrev pub IsWithin : Tables → Type 0
IsWithin t =
    (o : Uuid) (org : Organization)
    → find? (λ x. x.id == o) t.organizations ≡ some org
    → count (in_org o) t.users ≤ org.user_limit

count_in-with_values :
    (org_id id o : Uuid) (r : Option String) (c : Option Bool) (s : Option String) (us : List User)
    → count (in_org o) (update_where (is_user org_id id) (with_values r c s) us)
      ≡ count (in_org o) us
count_in-with_values org_id id o r c s [] = refl
count_in-with_values org_id id o r c s (u ∷ us) =
    ground (arith, count_in-with_values org_id id o r c s us)

-- Two lookups of one organization find the same row, so the limit that was checked is the limit.
grown-IsWithin :
    (env : Env) (org_id : Uuid) (t t' : Tables) (org : Organization)
    → find? (λ o. o.id == org_id) t.organizations ≡ some org
    → count (in_org org_id) t.users < org.user_limit
    → IsGrown env org_id t t'
    → IsWithin t
    → IsWithin t'
grown-IsWithin env org_id t t' org found room (same e) h = rw e h
grown-IsWithin env org_id t t' org found room (grown v free own e) h = rw e λ o org' found'.
    rw (count-append (in_org o) t.users (v ∷ [])) (elim (Bool-cases (v.organization_id == o)) [
      | inr other ↦ rw other (omega (arith, h o org' found'))
      | inl here ↦
          let at : o ≡ org_id = sym ((==_iff _ _).0 here) ∙ own in
          let found'' : find? (λ x. x.id == org_id) t.organizations ≡ some org' = rw at at found' in
          let one_org : org' ≡ org = cc (found, found'') in
          rw here (rw (at, one_org) (omega (arith, room)))
    ])

pub Effect-IsWithin :
    {env : Env} {org_id : Uuid} {t t' : Tables} → Effect env org_id t t' → IsWithin t → IsWithin t'
Effect-IsWithin (nothing e) h = rw e h
Effect-IsWithin {org_id} {t} (patched_row id r c s target found guarded made) h =
    rw made.tables λ o org there.
      rw (count_in-with_values org_id id o made.role made.can_export made.status t.users)
        (h o org there)
Effect-IsWithin {org_id} {t} (removed_row id target found guarded e) h =
    rw e λ o org there.
      le_trans (count-filter-ge (in_org o) (is_user org_id id) t.users) (h o org there)
Effect-IsWithin {env} {org_id} {t} {t'} (added_row org found room made) h =
    grown-IsWithin env org_id t t' org found room made h

-- The users of an organization, in the order of the table.
abbrev pub users_of : Uuid → Tables → List User
users_of o t = filter (in_org o) t.users

users_of-with_values :
    (org_id id o : Uuid) (r : Option String) (c : Option Bool) (s : Option String) (us : List User)
    → (org_id == o) ≡ false
    → filter (in_org o) (update_where (is_user org_id id) (with_values r c s) us)
      ≡ filter (in_org o) us
users_of-with_values org_id id o r c s [] other = refl
users_of-with_values org_id id o r c s (u ∷ us) other =
    ground (arith, users_of-with_values org_id id o r c s us other)

users_of-removed :
    (org_id id o : Uuid) (us : List User)
    → (org_id == o) ≡ false
    → filter (in_org o) (filter (λ u. not (is_user org_id id u)) us) ≡ filter (in_org o) us
users_of-removed org_id id o [] other = refl
users_of-removed org_id id o (u ∷ us) other = ground (arith, users_of-removed org_id id o us other)

filter-append_out :
    (o : Uuid) (us : List User) (v : User)
    → (v.organization_id == o) ≡ false
    → filter (in_org o) (us ++ v ∷ []) ≡ filter (in_org o) us
filter-append_out o [] v out = ground arith
filter-append_out o (u ∷ us) v out = ground (arith, filter-append_out o us v out)

grown-users_of :
    (env : Env) (org_id o : Uuid) (t t' : Tables)
    → (org_id == o) ≡ false
    → IsGrown env org_id t t'
    → users_of o t' ≡ users_of o t
grown-users_of env org_id o t t' other (same e) = rw e
grown-users_of env org_id o t t' other (grown v free own e) =
    rw e (filter-append_out o t.users v (rw own other))

-- A request of one organization leaves the users of another as they are.
pub Effect-users_of :
    {env : Env} {org_id : Uuid} {t t' : Tables} (o : Uuid)
    → (org_id == o) ≡ false
    → Effect env org_id t t'
    → users_of o t' ≡ users_of o t
Effect-users_of o other (nothing e) = rw e
Effect-users_of {org_id} {t} o other (patched_row id r c s target found guarded made) =
    rw made.tables
      (users_of-with_values org_id id o made.role made.can_export made.status t.users other)
Effect-users_of {org_id} {t} o other (removed_row id target found guarded e) =
    rw e (users_of-removed org_id id o t.users other)
Effect-users_of {env} {org_id} {t} {t'} o other (added_row org found room made) =
    grown-users_of env org_id o t t' other made
