-- ===== src/Migration/Mapped.antt =====
-- The users of a snapshot and the tenants that stand for them.
use gateway_platform.Migration.Statuses.{map_user_status-active}
use gateway_platform.Migration.Users.{plan_tenant, add_user, planned_tenant, with_status, add_users}
use gateway_platform.Migration.Records.{Planning, add_imported_record, add_rejected}
use gateway_platform.Base.Int.{ℤ, pos, leb_ℤ, int_eq}
use gateway_platform.Migration.Types.{SourceSnapshot, PlannedTenant, SourceUser}
use gateway_platform.Migration.Conversion.{map_user_status, Library}
use gateway_platform.Base.Text.{Text, codes}
use gateway_platform.Base.{
  some, inl, inr, ◌==◌, ◌≡◌, Elem, arith, Bool-cases, is_some, nat_eq, list_eq, refl, ==→eq,
  some_inj, ◌⊎◌, List, subst, All, ◌++◌, ◌∷◌, [], Elem-append_last, sym, Elem-append_left,
}

module _ (snapshot : SourceSnapshot) where
  -- A tenant that stands for a user of the snapshot, and is active only if the user is enabled.
  pub record StandsFor (user_id : ℤ) (p : PlannedTenant) : Type 0 where
    pub source_user_id : p.source_user_id ≡ user_id
    pub user : SourceUser
    pub listed : Elem user snapshot.users
    pub same_user : user.user_id ≡ user_id
    pub enabled : p.status ≡ codes "active" → user.status ≡ pos 1

  abbrev pub Mapped : Planning → Type 0
  Mapped s =
      (id : ℤ) (p : PlannedTenant)
      → s.tenants_by_user id ≡ some p
      → Elem p s.plan.tenants × StandsFor id p

module _ (library : Library) (snapshot : SourceSnapshot) where
  planned_tenant-StandsFor :
      (system : Text) (user : SourceUser) (status : Text)
      → Elem user snapshot.users
      → (status ≡ codes "active" → user.status ≡ pos 1)
      → StandsFor snapshot user.user_id (planned_tenant library system user status)
  unfolding planned_tenant
  planned_tenant-StandsFor system user status m a = record {
    source_user_id = refl;
    user = user;
    listed = m;
    same_user = refl;
    enabled = a;
  }

  plan_tenant-Mapped :
      (s : Planning) (user : SourceUser) (status : Text)
      → Elem user snapshot.users
      → (status ≡ codes "active" → user.status ≡ pos 1)
      → Mapped snapshot s
      → Mapped snapshot (plan_tenant library user status s)
  unfolding plan_tenant add_imported_record
  plan_tenant-Mapped s user status m a h id p e =
      let planned = planned_tenant library s.plan.source_system user status in
      elim (Bool-cases (id == user.user_id)) [
        | inl same ↦
            let at = ==→eq id user.user_id same in
            let this : planned ≡ p = some_inj (ground (arith, e, same)) in
            subst (λ q. Elem q (s.plan.tenants ++ planned ∷ []) × StandsFor snapshot id q) this
              (
                Elem-append_last planned s.plan.tenants,
                subst (λ j. StandsFor snapshot j planned) (sym at)
                    (planned_tenant-StandsFor s.plan.source_system user status m a),
              )
        | inr other ↦
            let (m', r) = h id p (ground (arith, e, other)) in
            (Elem-append_left p s.plan.tenants (planned ∷ []) m', r)
      ]

  with_status-Mapped :
      (s : Planning) (user : SourceUser) (r : Text ⊎ Text)
      → map_user_status user.status ≡ r
      → Elem user snapshot.users
      → Mapped snapshot s
      → Mapped snapshot (with_status library user s r)
  unfolding with_status add_rejected
  with_status-Mapped s user (inl reason) e m h = h
  with_status-Mapped s user (inr status) e m h =
      plan_tenant-Mapped s user status m (map_user_status-active user.status status e) h

  add_user-Mapped :
      (s : Planning) (user : SourceUser)
      → Elem user snapshot.users
      → Mapped snapshot s
      → Mapped snapshot (add_user library s user)
  unfolding add_user add_rejected
  add_user-Mapped s user m h = elim (Bool-cases (leb_ℤ user.user_id (pos 0))) [
    | inl e ↦ rw (e, add_user) h
    | inr e ↦
        rw (e, add_user)
          (elim (Bool-cases (is_some (s.tenants_by_user user.user_id))) [
            | inl f ↦ rw (f, add_user) h
            | inr f ↦
                rw (f, add_user) (with_status-Mapped s user (map_user_status user.status) refl m h)
          ])
  ]

  pub add_users-Mapped :
      (users : List SourceUser) (s : Planning)
      → All (λ u. Elem u snapshot.users) users
      → Mapped snapshot s
      → Mapped snapshot (add_users library users s)
  unfolding add_users
  add_users-Mapped [] s m h = h
  add_users-Mapped (user ∷ users) s m h =
      add_users-Mapped users (add_user library s user) m.1 (add_user-Mapped s user m.0 h)
