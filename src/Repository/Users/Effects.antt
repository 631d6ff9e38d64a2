-- ===== src/Repository/Users/Effects.antt =====
-- What the statements on the table `users` do to the tables.
use iot_backend.Base.{
  String, Bool, true, List, [], ◌∷◌, Option, none, some, ◌≡◌, ◌⊎◌, inl, inr, refl, ap, arith,
  or_else, sym, ◌∙◌,
}
use iot_backend.Models.{Uuid, User, valid_auth_role}
use iot_backend.Repository.{
  Result, ok, err, Env, Tables, Db, Sql, ◌>>=◌, after, query, update_where,
}
use iot_backend.Repository.Users.{
  valid_user_status, is_user, get_user, update_users, set_role, set_can_export, set_status,
  update_user,
}

-- The optional new values of a row.
abbrev pub with_values : Option String → Option Bool → Option String → User → User
with_values r c s u = record u {
  role = or_else r u.role;
  can_export = or_else c u.can_export;
  status = or_else s u.status;
}

-- The tables in which the selected user has these new values.
abbrev pub patched : Uuid → Uuid → Option String → Option Bool → Option String → Tables → Tables
patched org_id id r c s t = record t {
  users = update_where (is_user org_id id) (with_values r c s) t.users;
}

-- The option is the given one, or nothing: an update that has been made, or not.
abbrev pub IsPartOf {ℓ} : {A : Type ℓ} → Option A → Option A → Type ℓ
IsPartOf o given = (o ≡ none) ⊎ (o ≡ given)

with_values-none :
    (org_id id : Uuid) (us : List User)
    → update_where (is_user org_id id) (with_values none none none) us ≡ us
with_values-none org_id id [] = refl
with_values-none org_id id (u ∷ us) = ground (arith, with_values-none org_id id us)

patched-none : (org_id id : Uuid) (t : Tables) → t ≡ patched org_id id none none none t
patched-none org_id id t =
    ap (λ us. record t { users = us }) (sym (with_values-none org_id id t.users))

values_rc :
    (org_id id : Uuid) (r : Option String) (c : Option Bool) (us : List User)
    → update_where
        (is_user org_id id)
        (with_values none c none)
        (update_where (is_user org_id id) (with_values r none none) us)
      ≡ update_where (is_user org_id id) (with_values r c none) us
values_rc org_id id r c [] = refl
values_rc org_id id r c (u ∷ us) = ground (arith, values_rc org_id id r c us)

values_rcs :
    (org_id id : Uuid) (r : Option String) (c : Option Bool) (s : Option String) (us : List User)
    → update_where
        (is_user org_id id)
        (with_values none none s)
        (update_where (is_user org_id id) (with_values r c none) us)
      ≡ update_where (is_user org_id id) (with_values r c s) us
values_rcs org_id id r c s [] = refl
values_rcs org_id id r c s (u ∷ us) = ground (arith, values_rcs org_id id r c s us)

module _ (env : Env) (org_id id : Uuid) where
  update_users-tables :
      (allowed : Bool) (f : User → User) (db : Db)
      → ((update_users env org_id id allowed f db).1.tables ≡ db.tables)
        ⊎ ((update_users env org_id id allowed f db).1.tables
            ≡ record db.tables { users = update_where (is_user org_id id) f db.tables.users })
  unfolding update_users
  update_users-tables allowed f db = ground arith

  set_role-tables :
      (r : Option String) (db : Db)
      → (r' : Option String) × IsPartOf r' r
        × ((set_role env org_id id r db).1.tables ≡ patched org_id id r' none none db.tables)
  unfolding set_role
  set_role-tables none db = (none, inl refl, patched-none org_id id db.tables)
  set_role-tables (some r) db =
      elim (update_users-tables (valid_auth_role r) (λ u. record u { role = r }) db) [
        | inl same ↦ (none, inl refl, same ∙ patched-none org_id id db.tables)
        | inr made ↦ (some r, inr refl, made)
      ]

  set_can_export-tables :
      (c : Option Bool) (db : Db)
      → (c' : Option Bool) × IsPartOf c' c
        × ((set_can_export env org_id id c db).1.tables ≡ patched org_id id none c' none db.tables)
  unfolding set_can_export
  set_can_export-tables none db = (none, inl refl, patched-none org_id id db.tables)
  set_can_export-tables (some c) db =
      elim (update_users-tables true (λ u. record u { can_export = c }) db) [
        | inl same ↦ (none, inl refl, same ∙ patched-none org_id id db.tables)
        | inr made ↦ (some c, inr refl, made)
      ]

  set_status-tables :
      (s : Option String) (db : Db)
      → (s' : Option String) × IsPartOf s' s
        × ((set_status env org_id id s db).1.tables ≡ patched org_id id none none s' db.tables)
  unfolding set_status
  set_status-tables none db = (none, inl refl, patched-none org_id id db.tables)
  set_status-tables (some s) db =
      elim (update_users-tables (valid_user_status s) (λ u. record u { status = s }) db) [
        | inl same ↦ (none, inl refl, same ∙ patched-none org_id id db.tables)
        | inr made ↦ (some s, inr refl, made)
      ]

  query-tables {ℓ} :
      {A : Type ℓ} (f : Tables → Result A) (db : Db) → (query env f db).1.tables ≡ db.tables
  unfolding query
  query-tables f db = refl

-- What holds of the tables after a block: it holds after its first part, which may stop there,
-- and after the rest.
module _ {ℓ κ μ} {A : Type ℓ} {B : Type κ} (Q : Tables → Type μ) where
  after-tables :
      (r : Result A) (k : A → Sql B) (db : Db)
      → Q db.tables
      → ((a : A) → Q (k a db).1.tables)
      → Q (after r k db).1.tables
  after-tables (ok a) k db h next = next a
  after-tables (err e) k db h next = h

  pub >>=-tables :
      (m : Sql A) (k : A → Sql B) (db : Db)
      → Q (m db).1.tables
      → ((a : A) → Q (k a (m db).1).1.tables)
      → Q ((m >>= k) db).1.tables
  >>=-tables m k db h next = after-tables (m db).0 k (m db).1 h next

-- `t'` is `t` with some of the given new values in the row of the given user.
pub record IsPatched (org_id id : Uuid) (r : Option String) (c : Option Bool) (s : Option String)
    (t t' : Tables) : Type 0 where
  pub role : Option String
  pub can_export : Option Bool
  pub status : Option String
  pub role_part : IsPartOf role r
  pub can_export_part : IsPartOf can_export c
  pub status_part : IsPartOf status s
  pub tables : t' ≡ patched org_id id role can_export status t

module _ (env : Env) (org_id id : Uuid) (r : Option String) (c : Option Bool)
    (s : Option String) where
  -- UpdateUser, whether it succeeds or stops at an error, has made some of its updates.
  pub update_user-IsPatched :
      (db : Db) → IsPatched org_id id r c s db.tables (update_user env org_id id r c s db).1.tables
  unfolding update_user
  update_user-IsPatched db =
      let t = db.tables in
      let post = IsPatched org_id id r c s t in
      let db1 = (get_user env org_id id db).1 in
      let (r', rp, e2) = set_role-tables env org_id id r db1 in
      let db2 = (set_role env org_id id r db1).1 in
      let (c', cp, e3) = set_can_export-tables env org_id id c db2 in
      let db3 = (set_can_export env org_id id c db2).1 in
      let (s', sp, e4) = set_status-tables env org_id id s db3 in
      let db4 = (set_status env org_id id s db3).1 in
      let here = patched org_id id in
      let t3 : db3.tables ≡ here r' c' none t =
        e3
        ∙ ap (here none c' none) e2
        ∙ ap (λ us. record t { users = us }) (values_rc org_id id r' c' t.users) in
      let t4 : db4.tables ≡ here r' c' s' t =
        e4
        ∙ ap (here none none s') t3
        ∙ ap (λ us. record t { users = us }) (values_rcs org_id id r' c' s' t.users) in
      let p1 : post db1.tables = record {
        role = none;
        can_export = none;
        status = none;
        role_part = inl refl;
        can_export_part = inl refl;
        status_part = inl refl;
        tables = patched-none org_id id t;
      } in
      let p2 : post db2.tables = record {
        role = r';
        can_export = none;
        status = none;
        role_part = rp;
        can_export_part = inl refl;
        status_part = inl refl;
        tables = e2;
      } in
      let p3 : post db3.tables = record {
        role = r';
        can_export = c';
        status = none;
        role_part = rp;
        can_export_part = cp;
        status_part = inl refl;
        tables = t3;
      } in
      let p4 : post db4.tables = record {
        role = r';
        can_export = c';
        status = s';
        role_part = rp;
        can_export_part = cp;
        status_part = sp;
        tables = t4;
      } in
      >>=-tables post (get_user env org_id id) _ db p1 λ _.
        >>=-tables post (set_role env org_id id r) _ db1 p2 λ _.
          >>=-tables post (set_can_export env org_id id c) _ db2 p3 λ _.
            >>=-tables post (set_status env org_id id s) (λ _. get_user env org_id id) db3 p4
              λ _. p4
