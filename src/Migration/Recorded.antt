-- ===== src/Migration/Recorded.antt =====
-- internal/migration/newapi/plan.go: the records that the users and the tokens leave in a plan.
use gateway_platform.Control.Wrapper.Store.{nothing}
use gateway_platform.Migration.Origins.{
  Origin, Adds, rejected, imported, user_origin, token_origin, nothing, Adds-refl, Adds-trans,
}
use gateway_platform.Migration.Verdict.{Planned, judge_token-Planned}
use gateway_platform.Base.Int.{leb_ℤ, pos}
use gateway_platform.Migration.Tokens.{
  plan_token, with_verdict, add_tokens, add_token, judge_token, token_raw,
}
use gateway_platform.Migration.Users.{plan_tenant, planned_tenant, with_status, add_user, add_users}
use gateway_platform.Migration.Records.{add_rejected, add_imported_record, Planning}
use gateway_platform.Base.Text.{Text, codes}
use gateway_platform.Migration.Conversion.{Library, map_user_status}
use gateway_platform.Migration.Types.{
  Plan, MigrationRecord, JsonMap, SourceUser, SourceToken, PlannedTenantToken,
}
use gateway_platform.Base.{
  inl, inr, List, [], map, ℕ, ◌≡◌, ◌++◌, ◌∷◌, ◌+◌, ap, arith, length, ◌∙◌, refl, length-append, ◌⊎◌,
  Bool-cases, is_some, subst, nat_eq, list_eq, true,
}

module _ (library : Library) where
  -- One record more, which is rejected.
  pub add_rejected-Adds :
      (o : Origin) (reason : Text) (p : Plan)
      → o.rejectable ≡ true
      → Adds library (o ∷ []) 0 p (add_rejected library o.source_id o.kind reason o.raw p)
  unfolding add_rejected
  add_rejected-Adds o reason p h = record {
    added = _ ∷ [];
    accepted = 0;
    refused = 1;
    appended = refl;
    traced =
        rejected (record { source_id = refl; kind = refl; raw = refl; digest = refl }) refl refl h
          nothing refl;
    imported_count = omega arith;
    rejected_count = refl;
    planned = omega arith;
    system = refl;
  }

  -- One record more, which is imported under the origin's target, for a tenant or a token that is planned
  -- with it or for a staged record.
  pub imported-Adds :
      (o : Origin) (staged : ℕ) (conversion : JsonMap) (p p' q : Plan)
      → q ≡ add_imported_record library o.source_id o.kind o.target_id o.raw conversion p'
      → p'.records ≡ p.records
      → p'.source_system ≡ p.source_system
      → (p'.summary.imported_count ≡ p.summary.imported_count)
        × (p'.summary.rejected_count ≡ p.summary.rejected_count)
      → 1 + (length p.tenants + length p.tenant_tokens)
        ≡ length p'.tenants + length p'.tenant_tokens + staged
      → Adds library (o ∷ []) staged p q
  unfolding add_imported_record
  imported-Adds o staged conversion p p' q e rs sys (i, r) planned =
      let added : MigrationRecord = record {
        source_id = o.source_id;
        record_kind = o.kind;
        source_digest = library.digest_map o.raw;
        raw_summary = o.raw;
        conversion = conversion;
        target_id = o.target_id;
        rejection_reason = [];
        status = codes "imported";
      } in
      rw e (record {
        added = added ∷ [];
        accepted = 1;
        refused = 0;
        appended = ap (λ l. l ++ added ∷ []) rs;
        traced =
            imported (record { source_id = refl; kind = refl; raw = refl; digest = refl }) refl refl
              refl nothing refl;
        imported_count = omega (arith, i);
        rejected_count = omega (arith, r);
        planned = omega (arith, planned);
        system = sys;
      })

  plan_tenant-Adds :
      (s : Planning) (user : SourceUser) (status : Text)
      → Adds library
          (user_origin library s.plan.source_system user ∷ [])
          0
          s.plan
          (plan_tenant library user status s).plan
  unfolding plan_tenant planned_tenant
  plan_tenant-Adds s user status =
      imported-Adds (user_origin library s.plan.source_system user) 0 _ s.plan _ _ refl refl refl
        (refl, refl) (omega (arith, length-append s.plan.tenants (_ ∷ [])))

  with_status-Adds :
      (s : Planning) (user : SourceUser) (r : Text ⊎ Text)
      → Adds library
          (user_origin library s.plan.source_system user ∷ [])
          0
          s.plan
          (with_status library user s r).plan
  unfolding with_status
  with_status-Adds s user (inl reason) =
      add_rejected-Adds (user_origin library s.plan.source_system user) reason s.plan refl
  with_status-Adds s user (inr status) = plan_tenant-Adds s user status

  add_user-Adds :
      (s : Planning) (user : SourceUser)
      → Adds library
          (user_origin library s.plan.source_system user ∷ [])
          0
          s.plan
          (add_user library s user).plan
  unfolding add_user
  add_user-Adds s user =
      let o = user_origin library s.plan.source_system user in
      elim (Bool-cases (leb_ℤ user.user_id (pos 0))) [
        | inl e ↦ rw (e, add_user) (add_rejected-Adds o _ s.plan refl)
        | inr e ↦
            rw (e, add_user)
              (elim (Bool-cases (is_some (s.tenants_by_user user.user_id))) [
                | inl f ↦ rw (f, add_user) (add_rejected-Adds o _ s.plan refl)
                | inr f ↦ rw (f, add_user) (with_status-Adds s user (map_user_status user.status))
              ])
      ]

  pub add_users-Adds :
      (system : Text) (users : List SourceUser) (s : Planning)
      → s.plan.source_system ≡ system
      → Adds library
          (map (user_origin library system) users)
          0
          s.plan
          (add_users library users s).plan
  unfolding add_users
  add_users-Adds system [] s h = Adds-refl library s.plan
  add_users-Adds system (user ∷ users) s h =
      let first =
        subst
          (λ y.
            Adds library (user_origin library y user ∷ []) 0 s.plan (add_user library s user).plan)
          h (add_user-Adds s user) in
      Adds-trans library first
        (add_users-Adds system users (add_user library s user) (first.system ∙ h))

  -- The origin as the planned token names it.
  abbrev origin_in : SourceToken → PlannedTenantToken → Origin
  origin_in token t = record {
    source_id = t.source_id;
    kind = codes "token";
    target_id = t.token_id;
    raw = token_raw library token;
    rejectable = true;
  }

  plan_token-Adds :
      (token : SourceToken) (t : PlannedTenantToken) (p : Plan)
      → Adds library (origin_in token t ∷ []) 0 p (plan_token library token t p)
  unfolding plan_token
  plan_token-Adds token t p =
      imported-Adds (origin_in token t) 0 _ p _ _ refl refl refl (refl, refl)
        (omega (arith, length-append p.tenant_tokens (t ∷ [])))

  with_verdict-Adds :
      (s : Planning) (token : SourceToken) (r : Text ⊎ PlannedTenantToken)
      → Planned library s token r
      → Adds library
          (token_origin library s.plan.source_system token ∷ [])
          0
          s.plan
          (with_verdict library s token r).plan
  unfolding with_verdict
  with_verdict-Adds s token (inl reason) h =
      add_rejected-Adds (token_origin library s.plan.source_system token) reason s.plan refl
  with_verdict-Adds s token (inr t) h =
      let (tenant, found, made, name) = h t refl in
      let same : origin_in token t ≡ token_origin library s.plan.source_system token =
        rw (made.source_id, name) refl in
      subst (λ o. Adds library (o ∷ []) 0 s.plan (plan_token library token t s.plan)) same
        (plan_token-Adds token t s.plan)

  pub add_tokens-Adds :
      (system : Text) (tokens : List SourceToken) (s : Planning)
      → s.plan.source_system ≡ system
      → Adds library
          (map (token_origin library system) tokens)
          0
          s.plan
          (add_tokens library tokens s).plan
  unfolding add_tokens add_token
  add_tokens-Adds system [] s h = Adds-refl library s.plan
  add_tokens-Adds system (token ∷ tokens) s h =
      let first =
        subst
          (λ y.
            Adds library (token_origin library y token ∷ []) 0 s.plan
              (add_token library s token).plan)
          h
          (with_verdict-Adds s token (judge_token library s token)
            (judge_token-Planned library s token)) in
      Adds-trans library first
        (add_tokens-Adds system tokens (add_token library s token) (first.system ∙ h))
