-- ===== src/Migration/Owned.antt =====
-- The tokens of a plan and the tenants that they belong to.
use gateway_platform.Migration.Mapped.{StandsFor, Mapped, add_users-Mapped}
use gateway_platform.Migration.Sources.{
  add_quotas, add_groups, add_channel_groups, add_all_groups, add_source_records, channel_groups,
}
use gateway_platform.Migration.Verdict.{Planned, MadeFrom, judge_token-Planned}
use gateway_platform.Migration.Tokens.{with_verdict, add_tokens, plan_token, add_token, judge_token}
use gateway_platform.Migration.Users.{plan_tenant, add_user, with_status, add_users}
use gateway_platform.Migration.Records.{Planning, add_imported_record, add_rejected}
use gateway_platform.Base.Int.{int_eq}
use gateway_platform.Migration.Types.{
  SourceSnapshot, PlannedTenant, SourceUser, PlannedTenantToken, SourceToken, Plan, SourceQuota,
  SourceGroup, SourceChannel,
}
use gateway_platform.Migration.Conversion.{map_user_status, Library}
use gateway_platform.Base.Text.{Text}
use gateway_platform.Base.{
  some, inl, inr, ◌==◌, ◌≡◌, Elem, arith, Bool-cases, nat_eq, list_eq, refl, ◌⊎◌, List, subst, All,
  ◌∷◌, [], sym, All-append, All-map, any, none, ◌∙◌,
}

module _ (library : Library) (snapshot : SourceSnapshot) where
  -- The token is made from one of the snapshot's, for the planned tenant of its user.
  pub record Owned (tenants : List PlannedTenant) (t : PlannedTenantToken) : Type 0 where
    pub token : SourceToken
    pub listed : Elem token snapshot.tokens
    pub tenant : PlannedTenant
    pub planned : Elem tenant tenants
    pub stands_for : StandsFor snapshot token.user_id tenant
    pub made_from : MadeFrom library token tenant t

  record TokensOwned (s : Planning) : Type 0 where
    tenants : Mapped snapshot s
    tokens : All (Owned s.plan.tenants) s.plan.tenant_tokens

  with_verdict-TokensOwned :
      (s : Planning) (token : SourceToken) (r : Text ⊎ PlannedTenantToken)
      → Elem token snapshot.tokens
      → Planned library s token r
      → TokensOwned s
      → TokensOwned (with_verdict library s token r)
  unfolding with_verdict add_rejected plan_token add_imported_record
  with_verdict-TokensOwned s token (inl reason) m p h = record {
    tenants = h.tenants;
    tokens = h.tokens;
  }
  with_verdict-TokensOwned s token (inr t) m p h =
      let (tenant, found, made, _) = p t refl in
      let (planned, stands) = h.tenants token.user_id tenant found in
      record {
        tenants = h.tenants;
        tokens = All-append (Owned s.plan.tenants) t s.plan.tenant_tokens h.tokens (record {
          token = token;
          listed = m;
          tenant = tenant;
          planned = planned;
          stands_for = stands;
          made_from = made;
        });
      }

  add_tokens-TokensOwned :
      (tokens : List SourceToken) (s : Planning)
      → All (λ t. Elem t snapshot.tokens) tokens
      → TokensOwned s
      → TokensOwned (add_tokens library tokens s)
  unfolding add_tokens add_token
  add_tokens-TokensOwned [] s m h = h
  add_tokens-TokensOwned (token ∷ tokens) s m h =
      add_tokens-TokensOwned tokens (add_token library s token) m.1 (
        with_verdict-TokensOwned s token (judge_token library s token) m.0
          (judge_token-Planned library s token) h)

  with_status-tokens :
      (s : Planning) (user : SourceUser) (r : Text ⊎ Text)
      → (with_status library user s r).plan.tenant_tokens ≡ s.plan.tenant_tokens
  unfolding with_status add_rejected plan_tenant add_imported_record
  with_status-tokens s user (inl reason) = refl
  with_status-tokens s user (inr status) = refl

  add_users-tokens :
      (users : List SourceUser) (s : Planning)
      → (add_users library users s).plan.tenant_tokens ≡ s.plan.tenant_tokens
  unfolding add_users add_user add_rejected
  add_users-tokens [] s = refl
  add_users-tokens (user ∷ users) s =
      let rest = add_users-tokens users (add_user library s user) in
      let here = with_status-tokens s user (map_user_status user.status) in
      ground (arith, rest, here)

  -- The step writes records only.
  abbrev Keeps : (Plan → Plan) → Type 0
  Keeps f = (p : Plan) → ((f p).tenants ≡ p.tenants) × ((f p).tenant_tokens ≡ p.tenant_tokens)

  add_quotas-Keeps : (quotas : List SourceQuota) → Keeps (add_quotas library quotas)
  unfolding add_quotas add_imported_record
  add_quotas-Keeps [] p = (refl, refl)
  add_quotas-Keeps (quota ∷ quotas) p = let (a, b) = add_quotas-Keeps quotas _ in (a, b)

  add_groups-Keeps : (groups : List SourceGroup) → Keeps (add_groups library groups)
  unfolding add_groups add_imported_record
  add_groups-Keeps [] p = (refl, refl)
  add_groups-Keeps (group ∷ groups) p = let (a, b) = add_groups-Keeps groups _ in (a, b)

  add_channel_groups-Keeps :
      (seen groups : List Text) → Keeps (add_channel_groups library seen groups)
  unfolding add_channel_groups add_imported_record
  add_channel_groups-Keeps seen [] p = (refl, refl)
  add_channel_groups-Keeps seen (group ∷ groups) p =
      elim (Bool-cases (any (λ s. s == group) seen)) [
        | inl e ↦ rw (e, add_channel_groups) (add_channel_groups-Keeps seen groups p)
        | inr e ↦
            rw (e, add_channel_groups)
              (let (a, b) = add_channel_groups-Keeps (group ∷ seen) groups _ in (a, b))
      ]

  add_all_groups-Keeps :
      (channels : List SourceChannel) (groups : List SourceGroup)
      → Keeps (add_all_groups library channels groups)
  unfolding add_all_groups
  add_all_groups-Keeps channels [] = add_channel_groups-Keeps [] (channel_groups channels)
  add_all_groups-Keeps channels (group ∷ groups) = add_groups-Keeps (group ∷ groups)

none-ne-some : {A : Type 0} {a : A} → none ≡ some a → ⊥
none-ne-some e = cc

All-listed : {A : Type 0} (xs : List A) → All (λ x. Elem x xs) xs
All-listed [] = tt
All-listed (x ∷ xs) = (inl refl, All-map _ _ (λ y m. inr m) xs (All-listed xs))

-- Into a plan without tokens: each token of the plan is made from one of the snapshot's, with
-- the hash of its bearer form and its expiry; its tenant is planned, and stands for the user that the source
-- token names. A token or tenant that is active comes from one that is enabled.
pub tokens-Owned :
    (library : Library) (snapshot : SourceSnapshot) (p : Plan)
    → p.tenant_tokens ≡ []
    → let q = add_source_records library snapshot p in
      All (Owned library snapshot q.tenants) q.tenant_tokens
unfolding add_source_records
tokens-Owned library snapshot p no_tokens =
    let start : Planning = record {
      plan = p;
      tenants_by_user = λ _. none;
      user_groups = λ _. none;
    } in
    let users = add_users library snapshot.users start in
    let s = add_tokens library snapshot.tokens users in
    let owned : TokensOwned library snapshot s =
      add_tokens-TokensOwned library snapshot snapshot.tokens users (All-listed snapshot.tokens)
        (record {
          tenants =
              add_users-Mapped library snapshot snapshot.users start (All-listed snapshot.users)
                (λ id t e. absurd (none-ne-some e));
          tokens =
              subst (All (Owned library snapshot users.plan.tenants))
                (sym (add_users-tokens library snapshot snapshot.users start ∙ no_tokens)) tt;
        }) in
    let (a, b) = add_quotas-Keeps library snapshot snapshot.quotas s.plan in
    let (c, d) =
      add_all_groups-Keeps library snapshot snapshot.channels snapshot.groups
        (add_quotas library snapshot.quotas s.plan) in
    let q = add_source_records library snapshot p in
    subst (λ ts. All (Owned library snapshot ts) q.tenant_tokens) (sym (c ∙ a))
      (subst (All (Owned library snapshot s.plan.tenants)) (sym (d ∙ b)) owned.tokens)
